-- ===== src/Fs/Files/Calls.antt =====
-- fs/fcntl.c and fs/open.c: every call on descriptors returns, and keeps the counts right.
use linux_0_01raf.Prelude.{
  ℕ, zero, suc, ◌+◌, ◌-◌, ◌/◌, ◌%◌, ◌^◌, ◌<◌, ◌≡◌, ◌∙◌, ap, sym, refl, inl, inr, false, Option,
  none, List, [], ◌∷◌, arith, leb, ◌==◌, if◌then◌else◌, Bool-cases, Option-cases, length,
  length-set, get_or, set, get_or-set_self, get_or-set_ne,
}
use linux_0_01raf.Prelude.Int.{pos, negsuc}
use linux_0_01raf.Fs.Files.{
  File, Files, Outcome, returns, panic, nr_open, no_file, file_at, with_count, clear_bit, set_bit,
  new_flags, next_free, install, dupfd, drop_file, sys_close, sys_dup2, sys_dup, do_fcntl,
  sys_fcntl, close_all, ebadf, einval, emfile, f_dupfd, f_getfd, f_setfd, f_getfl, f_setfl,
}
use linux_0_01raf.Fs.Files.Counts.{Counted, Keeps, install-Counted, dropped-Counted, named_positive}
use linux_0_01raf.Fs.Files.Lowest.{next_free-Lowest}

module _ (others : ℕ → ℕ) (few : (f : ℕ) → others f + 20 < 65536) where
  dupfd-Keeps : (fd arg : ℕ) (s : Files) → Counted others s → Keeps others (dupfd fd arg s)
  unfolding dupfd
  dupfd-Keeps fd arg s c = elim (Bool-cases (leb nr_open fd)) [
    | inl out ↦ (ebadf, s, rw (dupfd, out) refl, c)
    | inr inside ↦ elim (Option-cases (get_or s.filp fd none)) [
      | inl e ↦ (ebadf, s, rw (dupfd, inside) (rw e refl), c)
      | inr (f, e) ↦ elim (Bool-cases (leb nr_open arg)) [
        | inl big ↦ (einval, s, rw (dupfd, inside) (rw e (rw big refl)), c)
        | inr ok ↦ elim (Bool-cases (leb nr_open (next_free s.filp (nr_open - arg) arg))) [
          | inl full ↦ (emfile, s, rw (dupfd, inside) (rw e (rw ok (rw full refl))), c)
          | inr found ↦
              let low = next_free-Lowest s.filp (nr_open - arg) arg in
              (
                pos (next_free s.filp (nr_open - arg) arg),
                install f (next_free s.filp (nr_open - arg) arg) s,
                rw (dupfd, inside) (rw e (rw ok (rw found refl))),
                install-Counted others few f (next_free s.filp (nr_open - arg) arg) s c
                    (c.valid fd f e) (ground arith) (low.is_free (ground arith)),
              )
        ]
      ]
    ]
  ]

  sys_close-Keeps : (fd : ℕ) (s : Files) → Counted others s → Keeps others (sys_close fd s)
  unfolding sys_close drop_file
  sys_close-Keeps fd s c = elim (Bool-cases (leb nr_open fd)) [
    | inl out ↦ (einval, s, rw (sys_close, out) refl, c)
    | inr inside ↦ elim (Option-cases (get_or s.filp fd none)) [
      | inl e ↦ (
        einval,
        record s { close_on_exec = clear_bit s.close_on_exec fd },
        rw (sys_close, inside) (rw e refl),
        record { size = c.size; valid = c.valid; counted = c.counted },
      )
      | inr (f, e) ↦
          let positive = named_positive others few f fd s c e (ground arith) in
          let used : (file_at s f).f_count == 0 ≡ false = ground arith in
          elim (Bool-cases ((file_at s f).f_count - 1 == 0)) [
            | inl last ↦ (
              pos 0,
              closed f ((file_at s f).f_inode ∷ s.iputs),
              rw (sys_close, inside) (rw e (rw used (rw last refl))),
              dropped-Counted others few f fd (clear_bit s.close_on_exec fd)
                  ((file_at s f).f_inode ∷ s.iputs) s c e (ground arith),
            )
            | inr more ↦ (
              pos 0,
              closed f s.iputs,
              rw (sys_close, inside) (rw e (rw used (rw more refl))),
              dropped-Counted others few f fd (clear_bit s.close_on_exec fd) s.iputs s c e
                  (ground arith),
            )
          ]
    ]
  ]
    where
      closed : ℕ → List (Option ℕ) → Files
      closed f iputs = record {
        filp = set s.filp fd none;
        close_on_exec = clear_bit s.close_on_exec fd;
        file_table = with_count s f ((file_at s f).f_count - 1);
        iputs = iputs;
      }

  sys_dup2-Keeps :
      (oldfd newfd : ℕ) (s : Files) → Counted others s → Keeps others (sys_dup2 oldfd newfd s)
  unfolding sys_dup2
  sys_dup2-Keeps oldfd newfd s c =
      let (a, t, e, c') = sys_close-Keeps newfd s c in
      let (a', t', e', c'') = dupfd-Keeps oldfd newfd t c' in (a', t', rw (sys_dup2, e) e', c'')

  same_counts :
      (close_on_exec : ℕ) (s : Files)
      → Counted others s
      → Counted others (record s { close_on_exec = close_on_exec })
  same_counts close_on_exec s c = record { size = c.size; valid = c.valid; counted = c.counted }

  flags-Counted :
      (f flags : ℕ) (s : Files)
      → Counted others s
      → f < length s.file_table
      → Counted others
          (record s { file_table = set s.file_table f (record (file_at s f) { f_flags = flags }) })
  flags-Counted f flags s c l = record {
    size = c.size;
    valid = λ i g q. rw (length-set s.file_table f changed) (c.valid i g q);
    counted = λ g h. elim (Bool-cases (f == g)) [
      | inl same ↦
          let same' : f ≡ g = ground arith in
          rw (← same') (
            ap (λ (x : File). x.f_count) (get_or-set_self s.file_table f changed no_file l)
            ∙ c.counted f l)
      | inr ne ↦
          ap (λ (x : File). x.f_count)
            (get_or-set_ne s.file_table f g changed no_file (ground arith))
          ∙ c.counted g (rw (sym (length-set s.file_table f changed)) h)
    ];
  }
    where
      changed : File
      changed = record (file_at s f) { f_flags = flags }

  do_fcntl-Keeps :
      (fd f cmd arg : ℕ) (s : Files)
      → Counted others s
      → f < length s.file_table
      → Keeps others (do_fcntl fd f cmd arg s)
  unfolding do_fcntl
  do_fcntl-Keeps fd f cmd arg s c l = elim (Bool-cases (cmd == f_dupfd)) [
    | inl e ↦ rw (do_fcntl, e) (dupfd-Keeps fd arg s c)
    | inr a ↦ elim (Bool-cases (cmd == f_getfd)) [
      | inl e ↦ (pos (s.close_on_exec / 2 ^ fd % 2), s, rw (do_fcntl, a) (rw e refl), c)
      | inr b ↦ elim (Bool-cases (cmd == f_setfd)) [
        | inl e ↦ (
          pos 0,
          marked,
          rw (do_fcntl, a) (rw b (rw e refl)),
          same_counts marked.close_on_exec s c,
        )
        | inr d ↦ elim (Bool-cases (cmd == f_getfl)) [
          | inl e ↦ (pos (file_at s f).f_flags, s, rw (do_fcntl, a) (rw b (rw d (rw e refl))), c)
          | inr g ↦ elim (Bool-cases (cmd == f_setfl)) [
            | inl e ↦ (
              pos 0,
              flagged,
              rw (do_fcntl, a) (rw b (rw d (rw g (rw e refl)))),
              flags-Counted f (new_flags (file_at s f).f_flags arg) s c l,
            )
            | inr h ↦ (negsuc 0, s, rw (do_fcntl, a) (rw b (rw d (rw g (rw h refl)))), c)
          ]
        ]
      ]
    ]
  ]
    where
      marked : Files
      marked = record s {
        close_on_exec =
            if arg % 2 == 1 then set_bit s.close_on_exec fd else clear_bit s.close_on_exec fd;
      }

      flagged : Files
      flagged = record s {
        file_table =
            set s.file_table f
              (record (file_at s f) { f_flags = new_flags (file_at s f).f_flags arg });
      }

  sys_fcntl-Keeps :
      (fd cmd arg : ℕ) (s : Files) → Counted others s → Keeps others (sys_fcntl fd cmd arg s)
  unfolding sys_fcntl
  sys_fcntl-Keeps fd cmd arg s c = elim (Bool-cases (leb nr_open fd)) [
    | inl out ↦ (ebadf, s, rw (sys_fcntl, out) refl, c)
    | inr inside ↦ elim (Option-cases (get_or s.filp fd none)) [
      | inl e ↦ (ebadf, s, rw (sys_fcntl, inside) (rw e refl), c)
      | inr (f, e) ↦
          rw (sys_fcntl, inside) (rw e (do_fcntl-Keeps fd f cmd arg s c (c.valid fd f e)))
    ]
  ]

  close_all-Keeps : (n i : ℕ) (s : Files) → Counted others s → Keeps others (close_all n i s)
  unfolding close_all
  close_all-Keeps zero i s c = (pos 0, s, refl, c)
  close_all-Keeps (suc n) i s c = elim (Option-cases (get_or s.filp i none)) [
    | inl e ↦ rw (close_all, e) (close_all-Keeps n (i + 1) s c)
    | inr (f, e) ↦
        let (a, t, q, c') = sys_close-Keeps i s c in
        rw (close_all, e) (rw q (close_all-Keeps n (i + 1) t c'))
  ]

-- the calls on descriptors
pub data Call : Type 0 where
  dup : ℕ → Call
  dup2 : ℕ → ℕ → Call
  fcntl : ℕ → ℕ → ℕ → Call
  close : ℕ → Call
  exit : Call

unfoldable pub call : Call → Files → Outcome
call (dup fd) s = sys_dup fd s
call (dup2 oldfd newfd) s = sys_dup2 oldfd newfd s
call (fcntl fd cmd arg) s = sys_fcntl fd cmd arg s
call (close fd) s = sys_close fd s
call exit s = close_all nr_open 0 s

unfoldable pub calls : List Call → Files → Outcome
calls [] s = returns (pos 0) s
calls (c ∷ cs) s = elim (call c s) [ panic ↦ panic | returns answer t ↦ calls cs t ]

call-Keeps :
    (others : ℕ → ℕ)
    → ((f : ℕ) → others f + 20 < 65536)
    → (c : Call) (s : Files) → Counted others s
    → Keeps others (call c s)
unfolding call sys_dup
call-Keeps others few (dup fd) s k = dupfd-Keeps others few fd 0 s k
call-Keeps others few (dup2 oldfd newfd) s k = sys_dup2-Keeps others few oldfd newfd s k
call-Keeps others few (fcntl fd cmd arg) s k = sys_fcntl-Keeps others few fd cmd arg s k
call-Keeps others few (close fd) s k = sys_close-Keeps others few fd s k
call-Keeps others few exit s k = close_all-Keeps others few nr_open 0 s k

-- The reference counts of open files are right, and `sys_close` never panics. Let each file's count be
-- the number of the task's descriptors that name it and of those of other tasks, which are fewer than
-- 65516. Then any sequence of `dup`, `dup2`, `fcntl`, `close` and of the closing at the exit, with any
-- arguments, returns, and the counts are right again.
pub calls-Keeps :
    (others : ℕ → ℕ)
    → ((f : ℕ) → others f + 20 < 65536)
    → (cs : List Call) (s : Files) → Counted others s
    → Keeps others (calls cs s)
unfolding calls
calls-Keeps others few [] s k = (pos 0, s, refl, k)
calls-Keeps others few (c ∷ cs) s k =
    let (a, t, e, k') = call-Keeps others few c s k in
    rw (calls, e) (calls-Keeps others few cs t k')
