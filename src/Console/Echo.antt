-- ===== src/Console/Echo.antt =====
-- kernel/console.c: respond, whose answer goes through copy_to_cooked of kernel/tty_io.c, which echoes by
-- calling con_write again.
use linux_0_01raf.Prelude.{
  ℕ, zero, suc, ◌≤◌, ◌<◌, ◌≡◌, ◌∙◌, sym, refl, subst, inl, inr, not, ◌&&◌, ◌||◌, List, [], ◌∷◌,
  ◌==◌, if◌then◌else◌, length, Bool-cases, Option-cases,
}
use linux_0_01raf.Prelude.Int.{ℤ, pos, negsuc}
use linux_0_01raf.Tty.{
  is_empty, is_full, chars, last, next_char, getch, putch, i_uclc, l_isig, l_canon, l_echo,
  l_echoctl, is_erase, is_eof, is_start, is_stop, is_intr, is_control, tolower, tty_intr, echo,
  flush, map_newline, erase, echo_char, count_line, keep, intr_or_keep, edit, cook_char, cook_loop,
  copy_to_cooked,
}
use linux_0_01raf.Console.{Console}
use linux_0_01raf.Console.Cursor.{OnScreen, SameElsewhere}
use linux_0_01raf.Console.Write.{Terminal, response, answer, respond}

unfoldable pub Parsing : Console → Type 0
Parsing c = (c.state ≤ 3) × (c.npar < 16) × (length c.par ≡ 16)

-- what a character may do
unfoldable pub Ends : Console → Console → Type 0
Ends c d = OnScreen d × SameElsewhere c.video d.video × Parsing d

pub Ends-trans : (c d e : Console) → Ends c d → Ends d e → Ends c e
unfolding Ends SameElsewhere
Ends-trans c d e (g, m, k) (h, n, l) = (h, λ b o. n b o ∙ m b o, l)

pub Ends-refl : (c : Console) → OnScreen c → Parsing c → Ends c c
unfolding Ends SameElsewhere
Ends-refl c g k = (g, λ b o. refl, k)

-- the nested call of `con_write` leaves the console in order
module _ (echo_write : Terminal → Terminal)
    (echo_write-Ends : (t : Terminal)
      → OnScreen t.device
      → Parsing t.device
      → Ends t.device (echo_write t).device) where
  Safe : Terminal → Terminal → Type 0
  Safe t u = OnScreen t.device → Parsing t.device → Ends t.device u.device

  -- the console of `u` is that of `t`
  same_Safe : (t u : Terminal) → u.device ≡ t.device → Safe t u
  unfolding Safe
  same_Safe t u e g k = subst (λ d. Ends t.device d) (sym e) (Ends-refl t.device g k)

  Safe-trans : (t u v : Terminal) → Safe t u → Safe u v → Safe t v
  unfolding Safe Ends
  Safe-trans t u v a b g k =
      let one = a g k in Ends-trans t.device u.device v.device one (b one.0 one.2)

  -- a flush of a terminal with the same console
  flush-Safe : (t u : Terminal) → u.device ≡ t.device → Safe t (echo_write u)
  unfolding Safe
  flush-Safe t u e = Safe-trans t u (echo_write u) (same_Safe t u e) (λ g k. echo_write-Ends u g k)

  echo_char-Safe : (c : ℕ) (t : Terminal) → Safe t (echo_char echo_write c t)
  unfolding echo_char flush echo
  echo_char-Safe c t = elim (Bool-cases (l_echo t.termios)) [
    | inr e ↦ rw e (same_Safe t t refl)
    | inl e ↦ rw e (
        flush-Safe t _ (elim (Bool-cases (c == 10)) [
          | inl n ↦ rw n refl
          | inr n ↦ elim (Bool-cases (is_control c)) [
            | inr d ↦ rw (n, d) refl
            | inl d ↦ elim (Bool-cases (l_echoctl t.termios)) [
              | inl x ↦ rw (n, d, x) refl
              | inr x ↦ rw (n, d, x) refl
            ]
          ]
        ]))
  ]

  count_line-same : (c : ℕ) (t : Terminal) → (count_line c t).device ≡ t.device
  unfolding count_line
  count_line-same c t = elim (Bool-cases ((c == 10) || is_eof t.termios c)) [
    | inl e ↦ rw e refl
    | inr e ↦ rw e refl
  ]

  tty_intr-same : (n : ℕ) (t : Terminal) → (tty_intr n t).device ≡ t.device
  unfolding tty_intr
  tty_intr-same n t = at t.pgrp refl
    where
      at : (p : ℤ) → t.pgrp ≡ p → (tty_intr n t).device ≡ t.device
      at (negsuc m) e = rw (tty_intr, e) refl
      at (pos zero) e = rw (tty_intr, e) refl
      at (pos (suc m)) e = rw (tty_intr, e) refl

  keep-Safe : (c : ℕ) (t : Terminal) → Safe t (keep echo_write c t)
  unfolding keep
  keep-Safe c t =
      let u = echo_char echo_write c (count_line c t) in
      Safe-trans t (count_line c t) _ (same_Safe t (count_line c t) (count_line-same c t))
        (Safe-trans (count_line c t) u _ (echo_char-Safe c (count_line c t)) (same_Safe u _ refl))

  intr_or_keep-Safe : (c : ℕ) (t : Terminal) → Safe t (intr_or_keep echo_write c t)
  unfolding intr_or_keep
  intr_or_keep-Safe c t = elim (Bool-cases (not (l_isig t.termios) && is_intr t.termios c)) [
    | inl e ↦ rw e (same_Safe t (tty_intr 2 t) (tty_intr-same 2 t))
    | inr e ↦ rw e (keep-Safe c t)
  ]

  erase-Safe : (t : Terminal) → Safe t (erase echo_write t)
  unfolding erase flush echo
  erase-Safe t =
      elim (Bool-cases (
        is_empty t.secondary
        || ((last t.secondary == 10) || is_eof t.termios (last t.secondary)))) [
          | inl e ↦ rw e (same_Safe t t refl)
          | inr e ↦ elim (Bool-cases (l_echo t.termios)) [
            | inr f ↦ rw (e, f) (same_Safe t _ refl)
            | inl f ↦ elim (Bool-cases (is_control (last t.secondary))) [
              | inl d ↦ rw (e, f, d) (Safe-trans t _ _ (flush-Safe t _ refl) (same_Safe _ _ refl))
              | inr d ↦ rw (e, f, d) (Safe-trans t _ _ (flush-Safe t _ refl) (same_Safe _ _ refl))
            ]
          ]
        ]

  edit-Safe : (c : ℕ) (t : Terminal) → Safe t (edit echo_write c t)
  unfolding edit
  edit-Safe c t = elim (Bool-cases (l_canon t.termios)) [
    | inr raw ↦ rw raw (intr_or_keep-Safe c t)
    | inl canon ↦ elim (Bool-cases (is_erase t.termios c)) [
      | inl e ↦ rw (canon, e) (erase-Safe t)
      | inr e ↦ elim (Bool-cases (is_stop t.termios c)) [
        | inl s ↦ rw (canon, e, s) (same_Safe t _ refl)
        | inr s ↦ elim (Bool-cases (is_start t.termios c)) [
          | inl b ↦ rw (canon, e, s, b) (same_Safe t _ refl)
          | inr b ↦ rw (canon, e, s, b) (intr_or_keep-Safe c t)
        ]
      ]
    ]
  ]

  cook_char-Safe : (c : ℕ) (t : Terminal) → Safe t (cook_char echo_write c t)
  unfolding cook_char
  cook_char-Safe c t = elim (Option-cases (map_newline t.termios c)) [
    | inl e ↦ rw (cook_char, e) (same_Safe t t refl)
    | inr (d, e) ↦ rw (cook_char, e) (edit-Safe (if i_uclc t.termios then tolower d else d) t)
  ]

  cook_loop-Safe : (n : ℕ) (t : Terminal) → Safe t (cook_loop echo_write n t)
  unfolding cook_loop
  cook_loop-Safe zero t = same_Safe t t refl
  cook_loop-Safe (suc n) t = elim (Bool-cases (is_empty t.read_q || is_full t.secondary)) [
    | inl e ↦ rw e (same_Safe t t refl)
    | inr e ↦
        let one : Terminal = record t { read_q = getch t.read_q } in
        let two = cook_char echo_write (next_char t.read_q) one in
        rw e (
          Safe-trans t two _
            (Safe-trans t one two (same_Safe t one refl) (cook_char-Safe (next_char t.read_q) one))
            (cook_loop-Safe n two))
  ]

  answer-same : (ps : List ℕ) (t : Terminal) → (answer ps t).device ≡ t.device
  unfolding answer
  answer-same [] t = refl
  answer-same (p ∷ ps) t = answer-same ps (record t { read_q = putch p t.read_q })

  pub respond-Ends :
      (t : Terminal)
      → OnScreen t.device
      → Parsing t.device
      → Ends t.device (respond echo_write t).device
  unfolding respond copy_to_cooked Safe
  respond-Ends t =
      let u = answer response t in
      Safe-trans t u (cook_loop echo_write (chars u.read_q) u)
        (same_Safe t u (answer-same response t)) (cook_loop-Safe (chars u.read_q) u)
