-- ===== src/Console/Depth.antt =====
-- kernel/console.c: without ECHO, con_write does not call itself.
use linux_0_01raf.Prelude.{
  ℕ, zero, suc, ◌≡◌, ◌∙◌, ap, refl, inl, inr, false, not, ◌&&◌, ◌||◌, List, [], ◌∷◌, ◌==◌,
  if◌then◌else◌, Bool-cases, Option-cases,
}
use linux_0_01raf.Prelude.Int.{ℤ, pos, negsuc}
use linux_0_01raf.Tty.{
  is_empty, is_full, chars, last, next_char, getch, putch, i_uclc, l_isig, l_canon, l_echo,
  is_erase, is_eof, is_start, is_stop, is_intr, tolower, tty_intr, map_newline, erase, echo_char,
  count_line, keep, intr_or_keep, edit, cook_char, cook_loop, copy_to_cooked,
}
use linux_0_01raf.Console.Write.{
  Terminal, response, answer, respond, escape_char, write_char, write_loop, con_write,
}

module _ (v w : Terminal → Terminal) where
  -- two routines that agree on `t` while it does not echo, and leave its modes
  pub Agree : Terminal → Terminal → Terminal → Type 0
  Agree t a b = l_echo t.termios ≡ false → (a ≡ b) × (a.termios ≡ t.termios)

  same_Agree : (t a : Terminal) → a.termios ≡ t.termios → Agree t a a
  unfolding Agree
  same_Agree t a e o = (refl, e)

  -- one step behind another
  Agree-then :
      (t a b : Terminal) (f g : Terminal → Terminal)
      → Agree t a b
      → ((u : Terminal) → Agree u (f u) (g u))
      → Agree t (f a) (g b)
  unfolding Agree
  Agree-then t a b f g one two o =
      let (e, m) = one o in let (e', m') = two a (ap l_echo m ∙ o) in (e' ∙ ap g e, m' ∙ m)

  echo_char-Agree : (c : ℕ) (t : Terminal) → Agree t (echo_char v c t) (echo_char w c t)
  unfolding echo_char Agree
  echo_char-Agree c t o = rw o (refl, refl)

  count_line-termios : (c : ℕ) (t : Terminal) → (count_line c t).termios ≡ t.termios
  unfolding count_line
  count_line-termios c t = elim (Bool-cases ((c == 10) || is_eof t.termios c)) [
    | inl e ↦ rw e refl
    | inr e ↦ rw e refl
  ]

  tty_intr-termios : (n : ℕ) (t : Terminal) → (tty_intr n t).termios ≡ t.termios
  unfolding tty_intr
  tty_intr-termios n t = at t.pgrp refl
    where
      at : (p : ℤ) → t.pgrp ≡ p → (tty_intr n t).termios ≡ t.termios
      at (negsuc m) e = rw (tty_intr, e) refl
      at (pos zero) e = rw (tty_intr, e) refl
      at (pos (suc m)) e = rw (tty_intr, e) refl

  keep-Agree : (c : ℕ) (t : Terminal) → Agree t (keep v c t) (keep w c t)
  unfolding keep
  keep-Agree c t =
      Agree-then t (echo_char v c (count_line c t)) (echo_char w c (count_line c t))
        (λ u. record u { secondary = putch c u.secondary })
        (λ u. record u { secondary = putch c u.secondary })
        (Agree-then t (count_line c t) (count_line c t) (echo_char v c) (echo_char w c)
          (same_Agree t (count_line c t) (count_line-termios c t)) (echo_char-Agree c))
        (λ u. same_Agree u _ refl)

  intr_or_keep-Agree : (c : ℕ) (t : Terminal) → Agree t (intr_or_keep v c t) (intr_or_keep w c t)
  unfolding intr_or_keep
  intr_or_keep-Agree c t = elim (Bool-cases (not (l_isig t.termios) && is_intr t.termios c)) [
    | inl e ↦ rw e (same_Agree t (tty_intr 2 t) (tty_intr-termios 2 t))
    | inr e ↦ rw e (keep-Agree c t)
  ]

  erase-Agree : (t : Terminal) → Agree t (erase v t) (erase w t)
  unfolding erase Agree
  erase-Agree t o =
      elim (Bool-cases (
        is_empty t.secondary
        || ((last t.secondary == 10) || is_eof t.termios (last t.secondary)))) [
          | inl e ↦ rw e (refl, refl)
          | inr e ↦ rw (e, o) (refl, refl)
        ]

  edit-Agree : (c : ℕ) (t : Terminal) → Agree t (edit v c t) (edit w c t)
  unfolding edit
  edit-Agree c t = elim (Bool-cases (l_canon t.termios)) [
    | inr raw ↦ rw raw (intr_or_keep-Agree c t)
    | inl canon ↦ elim (Bool-cases (is_erase t.termios c)) [
      | inl e ↦ rw (canon, e) (erase-Agree t)
      | inr e ↦ elim (Bool-cases (is_stop t.termios c)) [
        | inl s ↦ rw (canon, e, s) (same_Agree t _ refl)
        | inr s ↦ elim (Bool-cases (is_start t.termios c)) [
          | inl b ↦ rw (canon, e, s, b) (same_Agree t _ refl)
          | inr b ↦ rw (canon, e, s, b) (intr_or_keep-Agree c t)
        ]
      ]
    ]
  ]

  cook_char-Agree : (c : ℕ) (t : Terminal) → Agree t (cook_char v c t) (cook_char w c t)
  unfolding cook_char
  cook_char-Agree c t = elim (Option-cases (map_newline t.termios c)) [
    | inl e ↦ rw (cook_char, e) (same_Agree t t refl)
    | inr (d, e) ↦ rw (cook_char, e) (edit-Agree (if i_uclc t.termios then tolower d else d) t)
  ]

  cook_loop-Agree : (n : ℕ) (t : Terminal) → Agree t (cook_loop v n t) (cook_loop w n t)
  unfolding cook_loop
  cook_loop-Agree zero t = same_Agree t t refl
  cook_loop-Agree (suc n) t = elim (Bool-cases (is_empty t.read_q || is_full t.secondary)) [
    | inl e ↦ rw e (same_Agree t t refl)
    | inr e ↦
        let one : Terminal = record t { read_q = getch t.read_q } in
        let c = next_char t.read_q in
        rw e (
          Agree-then t (cook_char v c one) (cook_char w c one) (cook_loop v n) (cook_loop w n)
            (Agree-then t one one (cook_char v c) (cook_char w c) (same_Agree t one refl)
              (cook_char-Agree c))
            (cook_loop-Agree n))
  ]

  answer-termios : (ps : List ℕ) (t : Terminal) → (answer ps t).termios ≡ t.termios
  unfolding answer
  answer-termios [] t = refl
  answer-termios (p ∷ ps) t = answer-termios ps (record t { read_q = putch p t.read_q })

  respond-Agree : (t : Terminal) → Agree t (respond v t) (respond w t)
  unfolding respond copy_to_cooked
  respond-Agree t =
      let u = answer response t in
      Agree-then t u u (cook_loop v (chars u.read_q)) (cook_loop w (chars u.read_q))
        (same_Agree t u (answer-termios response t)) (cook_loop-Agree (chars u.read_q))

  escape_char-Agree : (ch : ℕ) (t : Terminal) → Agree t (escape_char v ch t) (escape_char w ch t)
  unfolding escape_char
  escape_char-Agree ch t = elim (Bool-cases (ch == 91)) [
    | inl e ↦ rw e (same_Agree t _ refl)
    | inr n1 ↦ elim (Bool-cases (ch == 69)) [
      | inl e ↦ rw (n1, e) (same_Agree t _ refl)
      | inr n2 ↦ elim (Bool-cases (ch == 77)) [
        | inl e ↦ rw (n1, n2, e) (same_Agree t _ refl)
        | inr n3 ↦ elim (Bool-cases (ch == 68)) [
          | inl e ↦ rw (n1, n2, n3, e) (same_Agree t _ refl)
          | inr n4 ↦ elim (Bool-cases (ch == 90)) [
            | inl e ↦
                let z : Terminal = record t { device = record t.device { state = 0 } } in
                rw (n1, n2, n3, n4, e)
                  (Agree-then t z z (respond v) (respond w) (same_Agree t z refl) respond-Agree)
            | inr n5 ↦ elim (Bool-cases (t.device.x == 55)) [
              | inl e ↦ rw (n1, n2, n3, n4, n5, e) (same_Agree t _ refl)
              | inr n6 ↦ elim (Bool-cases (t.device.x == 56)) [
                | inl e ↦ rw (n1, n2, n3, n4, n5, n6, e) (same_Agree t _ refl)
                | inr n7 ↦ rw (n1, n2, n3, n4, n5, n6, n7) (same_Agree t _ refl)
              ]
            ]
          ]
        ]
      ]
    ]
  ]

  write_char-Agree : (ch : ℕ) (t : Terminal) → Agree t (write_char v ch t) (write_char w ch t)
  unfolding write_char
  write_char-Agree ch t = elim (Bool-cases (t.device.state == 0)) [
    | inl e ↦ rw e (same_Agree t _ refl)
    | inr n0 ↦ elim (Bool-cases (t.device.state == 1)) [
      | inl e ↦ rw (n0, e) (escape_char-Agree ch t)
      | inr n1 ↦ elim (Bool-cases (t.device.state == 2)) [
        | inl e ↦ rw (n0, n1, e) (same_Agree t _ refl)
        | inr n2 ↦ elim (Bool-cases (t.device.state == 3)) [
          | inl e ↦ rw (n0, n1, n2, e) (same_Agree t _ refl)
          | inr n3 ↦ elim (Bool-cases (t.device.state == 4)) [
            | inl e ↦ rw (n0, n1, n2, n3, e) (same_Agree t _ refl)
            | inr n4 ↦ rw (n0, n1, n2, n3, n4) (same_Agree t _ refl)
          ]
        ]
      ]
    ]
  ]

  pub write_loop-Agree : (nr : ℕ) (t : Terminal) → Agree t (write_loop v nr t) (write_loop w nr t)
  unfolding write_loop
  write_loop-Agree zero t = same_Agree t t refl
  write_loop-Agree (suc nr) t =
      let one : Terminal = record t { write_q = getch t.write_q } in
      let c = next_char t.write_q in
      Agree-then t (write_char v c one) (write_char w c one) (write_loop v nr) (write_loop w nr)
        (Agree-then t one one (write_char v c) (write_char w c) (same_Agree t one refl)
          (write_char-Agree c))
        (write_loop-Agree nr)

-- without ECHO, one call is enough
pub con_write_silent :
    (depth : ℕ) (t : Terminal) → l_echo t.termios ≡ false → con_write (suc depth) t ≡ con_write 1 t
unfolding con_write Agree
con_write_silent depth t o =
    (write_loop-Agree (con_write depth) (con_write 0) (chars t.write_q) t o).0
