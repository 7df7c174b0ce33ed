-- ===== src/Tty/Edited.antt =====
-- kernel/tty_io.c: what one typed character does to a terminal.
use linux_0_01raf.Prelude.{
  ℕ, zero, suc, ◌+◌, ◌%◌, ◌≡◌, ◌∙◌, ap, sym, refl, inl, inr, Bool, true, false, not, ◌&&◌, ◌||◌,
  List, [], ◌∷◌, ◌++◌, ◌==◌, if◌then◌else◌, Bool-cases, Option-cases,
}
use linux_0_01raf.Prelude.Int.{ℤ, pos, negsuc}
use linux_0_01raf.Tty.{
  left, Queue, Tty, is_empty, is_full, chars, last, putch, unput, contents, i_uclc, l_isig, l_canon,
  l_echo, l_echoctl, is_erase, is_eof, is_start, is_stop, is_intr, is_control, tolower, tty_intr,
  echo, flush, map_newline, erase, echo_char, count_line, keep, intr_or_keep, edit, cook_char,
}
use linux_0_01raf.Tty.Queues.{
  IsQueue, putch-contents, putch-IsQueue, unput-contents, unput-IsQueue, empty-contents,
}
use linux_0_01raf.Tty.Line.{ends_line, rub, add_char, edit_line, type_char, rub-ends, rub-drops}

-- the line of `u` is `l`; what is still to be read and the modes are those of `t`
pub record Edited {C : Type 0} (t u : Tty C) (l : List ℕ) : Type 0 where
  pub same_termios : u.termios ≡ t.termios
  pub same_input : u.read_q ≡ t.read_q
  pub queue : IsQueue u.secondary
  pub line : contents u.secondary ≡ l

-- only what is written to the screen differs
pub record Quiet {C : Type 0} (t u : Tty C) : Type 0 where
  pub quiet_termios : u.termios ≡ t.termios
  pub quiet_input : u.read_q ≡ t.read_q
  pub quiet_line : u.secondary ≡ t.secondary

-- `write` leaves the input and the line
module _ {C : Type 0} (write : Tty C → Tty C) (quiet_write : (u : Tty C) → Quiet u (write u)) where
  flushed :
      (t u : Tty C)
      → u.termios ≡ t.termios
      → u.read_q ≡ t.read_q
      → u.secondary ≡ t.secondary
      → Quiet t (write u)
  flushed t u a b c =
      let q = quiet_write u in
      record {
        quiet_termios = q.quiet_termios ∙ a;
        quiet_input = q.quiet_input ∙ b;
        quiet_line = q.quiet_line ∙ c;
      }

  echo_char-Quiet : (c : ℕ) (t : Tty C) → Quiet t (echo_char write c t)
  unfolding echo_char flush echo
  echo_char-Quiet c t = elim (Bool-cases (l_echo t.termios)) [
    | inr e ↦
        rw (echo_char, e) (record { quiet_termios = refl; quiet_input = refl; quiet_line = refl })
    | inl e ↦ elim (Bool-cases (c == 10)) [
      | inl n ↦ rw (echo_char, e) (rw n (flushed t _ refl refl refl))
      | inr n ↦ elim (Bool-cases (is_control c)) [
        | inr d ↦ rw (echo_char, e) (rw n (rw d (flushed t _ refl refl refl)))
        | inl d ↦ elim (Bool-cases (l_echoctl t.termios)) [
          | inl x ↦ rw (echo_char, e) (rw n (rw d (rw x (flushed t _ refl refl refl))))
          | inr x ↦ rw (echo_char, e) (rw n (rw d (rw x (flushed t _ refl refl refl))))
        ]
      ]
    ]
  ]

  -- a queue with another count of lines holds the same
  recounted :
      (n : ℕ) (q : Queue)
      → IsQueue q
      → IsQueue (record q { data_count = n })
        × (contents (record q { data_count = n }) ≡ contents q)
  unfolding contents chars IsQueue
  recounted n q k = (k, refl)

  count_line-Edited :
      (c : ℕ) (t : Tty C) → IsQueue t.secondary → Edited t (count_line c t) (contents t.secondary)
  unfolding count_line
  count_line-Edited c t q = elim (Bool-cases ((c == 10) || is_eof t.termios c)) [
    | inr e ↦
        rw (count_line, e)
          (record { same_termios = refl; same_input = refl; queue = q; line = refl })
    | inl e ↦
        let (q', l) = recounted ((t.secondary.data_count + 1) % 4294967296) t.secondary q in
        rw (count_line, e) (record { same_termios = refl; same_input = refl; queue = q'; line = l })
  ]

  -- counting changes neither index
  count_line-full : (c : ℕ) (t : Tty C) → is_full (count_line c t).secondary ≡ is_full t.secondary
  unfolding count_line is_full left
  count_line-full c t = elim (Bool-cases ((c == 10) || is_eof t.termios c)) [
    | inr e ↦ rw (count_line, e) refl
    | inl e ↦ rw (count_line, e) refl
  ]

  keep-Edited :
      (c : ℕ) (t : Tty C)
      → IsQueue t.secondary
      → is_full t.secondary ≡ false
      → Edited t (keep write c t) (contents t.secondary ++ (c ∷ []))
  unfolding keep
  keep-Edited c t q free =
      let counted = count_line-Edited c t q in
      let quiet = echo_char-Quiet c (count_line c t) in
      record {
        same_termios = quiet.quiet_termios ∙ counted.same_termios;
        same_input = quiet.quiet_input ∙ counted.same_input;
        queue = rw (quiet.quiet_line) (putch-IsQueue c (count_line c t).secondary counted.queue);
        line =
            ap (λ s. contents (putch c s)) quiet.quiet_line
            ∙ putch-contents c (count_line c t).secondary counted.queue (count_line-full c t ∙ free)
            ∙ ap (λ l. l ++ (c ∷ [])) counted.line;
      }

  tty_intr-Edited :
      (n : ℕ) (t : Tty C) → IsQueue t.secondary → Edited t (tty_intr n t) (contents t.secondary)
  unfolding tty_intr
  tty_intr-Edited n t q = at t.pgrp refl
    where
      at : (p : ℤ) → t.pgrp ≡ p → Edited t (tty_intr n t) (contents t.secondary)
      at (negsuc m) e =
          rw (tty_intr, e)
            (record { same_termios = refl; same_input = refl; queue = q; line = refl })
      at (pos zero) e =
          rw (tty_intr, e)
            (record { same_termios = refl; same_input = refl; queue = q; line = refl })
      at (pos (suc m)) e =
          rw (tty_intr, e)
            (record { same_termios = refl; same_input = refl; queue = q; line = refl })

  intr_or_keep-Edited :
      (c : ℕ) (t : Tty C)
      → IsQueue t.secondary
      → is_full t.secondary ≡ false
      → Edited t (intr_or_keep write c t) (add_char t.termios c (contents t.secondary))
  unfolding intr_or_keep add_char
  intr_or_keep-Edited c t q free =
      elim (Bool-cases (not (l_isig t.termios) && is_intr t.termios c)) [
        | inl e ↦ rw (intr_or_keep, add_char, e) (tty_intr-Edited 2 t q)
        | inr e ↦ rw (intr_or_keep, add_char, e) (keep-Edited c t q free)
      ]

  erase_echo-Quiet :
      (d : Bool) (t : Tty C)
      → Quiet t (
          if d
          then flush write (echo 127 (if is_control (last t.secondary) then echo 127 t else t))
          else t)
  unfolding flush echo
  erase_echo-Quiet false t = record { quiet_termios = refl; quiet_input = refl; quiet_line = refl }
  erase_echo-Quiet true t = elim (Bool-cases (is_control (last t.secondary))) [
    | inl e ↦ rw e (flushed t _ refl refl refl)
    | inr e ↦ rw e (flushed t _ refl refl refl)
  ]

  erase-Edited :
      (t : Tty C)
      → IsQueue t.secondary
      → Edited t (erase write t) (rub t.termios (contents t.secondary))
  unfolding erase ends_line rub
  erase-Edited t q = elim (Bool-cases (is_empty t.secondary)) [
    | inl e ↦
        let nothing = empty-contents t.secondary e q in
        rw (erase, e)
          (record {
            same_termios = refl;
            same_input = refl;
            queue = q;
            line = nothing ∙ ap (rub t.termios) (sym nothing);
          })
    | inr e ↦ elim (Bool-cases ((last t.secondary == 10) || is_eof t.termios (last t.secondary))) [
      | inl f ↦
          rw (erase, e)
            (rw f (record {
              same_termios = refl;
              same_input = refl;
              queue = q;
              line =
                  rub-ends t.termios (contents t.secondary) (contents (unput t.secondary))
                    (last t.secondary) (unput-contents t.secondary q e) f;
            }))
      | inr f ↦
          let quiet = erase_echo-Quiet (l_echo t.termios) t in
          rw (erase, e)
            (rw f (record {
              same_termios = quiet.quiet_termios;
              same_input = quiet.quiet_input;
              queue = rw quiet.quiet_line (unput-IsQueue t.secondary q);
              line =
                  ap (λ s. contents (unput s)) quiet.quiet_line
                  ∙ rub-drops t.termios (contents t.secondary) (contents (unput t.secondary))
                      (last t.secondary) (unput-contents t.secondary q e) f;
            }))
    ]
  ]

  edit-Edited :
      (c : ℕ) (t : Tty C)
      → IsQueue t.secondary
      → is_full t.secondary ≡ false
      → Edited t (edit write c t) (edit_line t.termios c (contents t.secondary))
  unfolding edit edit_line
  edit-Edited c t q free = elim (Bool-cases (l_canon t.termios)) [
    | inr raw ↦ rw (edit, edit_line, raw) (intr_or_keep-Edited c t q free)
    | inl canon ↦ elim (Bool-cases (is_erase t.termios c)) [
      | inl e ↦ rw (edit, edit_line, canon) (rw e (erase-Edited t q))
      | inr e ↦ elim (Bool-cases (is_stop t.termios c)) [
        | inl s ↦
            rw (edit, edit_line, canon)
              (rw e
                (rw s (record { same_termios = refl; same_input = refl; queue = q; line = refl })))
        | inr s ↦ elim (Bool-cases (is_start t.termios c)) [
          | inl b ↦
              rw (edit, edit_line, canon)
                (rw e (
                  rw s (
                    rw b
                      (record { same_termios = refl; same_input = refl; queue = q; line = refl }))))
          | inr b ↦
              rw (edit, edit_line, canon) (rw e (rw s (rw b (intr_or_keep-Edited c t q free))))
        ]
      ]
    ]
  ]

  pub cook_char-Edited :
      (c : ℕ) (t : Tty C)
      → IsQueue t.secondary
      → is_full t.secondary ≡ false
      → Edited t (cook_char write c t) (type_char t.termios c (contents t.secondary))
  unfolding cook_char type_char
  cook_char-Edited c t q free = elim (Option-cases (map_newline t.termios c)) [
    | inl e ↦
        rw (cook_char, type_char, e)
          (record { same_termios = refl; same_input = refl; queue = q; line = refl })
    | inr (d, e) ↦
        rw (cook_char, type_char, e)
          (edit-Edited (if i_uclc t.termios then tolower d else d) t q free)
  ]
