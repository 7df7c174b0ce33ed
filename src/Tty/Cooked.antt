-- ===== src/Tty/Cooked.antt =====
-- kernel/tty_io.c: `copy_to_cooked` edits a line as it does on a list.
use linux_0_01raf.Prelude.{
  ℕ, zero, suc, ◌≤◌, ◌≡◌, ◌∙◌, ap, sym, refl, ◌⊎◌, inl, inr, true, List, [], ◌∷◌, ◌++◌, arith,
  Bool-cases,
}
use linux_0_01raf.Tty.{
  Tty, is_empty, is_full, chars, next_char, getch, contents, cook_char, cook_loop, copy_to_cooked,
}
use linux_0_01raf.Tty.Queues.{chars-zero, chars-suc, IsQueue, getch-contents, getch-IsQueue}
use linux_0_01raf.Tty.Line.{type_chars}
use linux_0_01raf.Tty.Edited.{Quiet, cook_char-Edited}

-- what the loop has done when it stops: it has read some characters, and edited the line by them
pub record Cooked {C : Type 0} (t u : Tty C) : Type 0 where
  pub taken : List ℕ
  pub read : contents t.read_q ≡ taken ++ contents u.read_q
  pub edited : contents u.secondary ≡ type_chars t.termios taken (contents t.secondary)
  pub is_done : (is_empty u.read_q ≡ true) ⊎ (is_full u.secondary ≡ true)
  pub good_input : IsQueue u.read_q
  pub good_line : IsQueue u.secondary

module _ {C : Type 0} (write : Tty C → Tty C) (quiet_write : (u : Tty C) → Quiet u (write u)) where
  cook_loop-Cooked :
      (n : ℕ) (t : Tty C)
      → IsQueue t.read_q
      → IsQueue t.secondary
      → chars t.read_q ≤ n
      → Cooked t (cook_loop write n t)
  unfolding cook_loop type_chars
  cook_loop-Cooked zero t r q h = record {
    taken = [];
    read = refl;
    edited = refl;
    is_done = inl (chars-zero t.read_q r h);
    good_input = r;
    good_line = q;
  }
  cook_loop-Cooked (suc n) t r q h = elim (Bool-cases (is_empty t.read_q)) [
    | inl e ↦
        rw (cook_loop, e)
          (record {
            taken = [];
            read = refl;
            edited = refl;
            is_done = inl e;
            good_input = r;
            good_line = q;
          })
    | inr more ↦ elim (Bool-cases (is_full t.secondary)) [
      | inl f ↦
          rw (cook_loop, more)
            (rw f (record {
              taken = [];
              read = refl;
              edited = refl;
              is_done = inr f;
              good_input = r;
              good_line = q;
            }))
      | inr free ↦
          let step =
            cook_char-Edited write quiet_write (next_char t.read_q)
              (record t { read_q = getch t.read_q }) q free in
          let fewer = chars-suc t.read_q r more in
          let input : (cook_char write (next_char t.read_q)
                (record t { read_q = getch t.read_q })).read_q
              ≡ getch t.read_q =
            step.same_input in
          let rest =
            cook_loop-Cooked n
              (cook_char write (next_char t.read_q) (record t { read_q = getch t.read_q }))
              (rw input (getch-IsQueue t.read_q r)) step.queue (rw input (omega arith)) in
          rw (cook_loop, more)
            (rw free (record {
              taken = next_char t.read_q ∷ rest.taken;
              read =
                  getch-contents t.read_q r more
                  ∙ ap (◌∷◌ (next_char t.read_q)) (ap contents (sym input) ∙ rest.read);
              edited =
                  rest.edited
                  ∙ ap
                      (λ m. type_chars m rest.taken (
                        contents
                          (cook_char write (next_char t.read_q)
                            (record t { read_q = getch t.read_q })).secondary))
                      step.same_termios
                  ∙ ap (type_chars t.termios rest.taken) step.line;
              is_done = rest.is_done;
              good_input = rest.good_input;
              good_line = rest.good_line;
            }))
    ]
  ]

  -- The cooked queue is the line as a list. Where the terminal's `write` leaves the modes, the read queue and
  -- the secondary queue as they are, and the two queues have buffers of their size and indices in them,
  -- `copy_to_cooked` takes characters from the read queue, in order, until that is empty or the
  -- secondary queue is full; and the secondary queue then holds what the same characters make, typed one
  -- by one, of the list that it held.
  pub copy_to_cooked-Cooked :
      (t : Tty C) → IsQueue t.read_q → IsQueue t.secondary → Cooked t (copy_to_cooked write t)
  unfolding copy_to_cooked
  copy_to_cooked-Cooked t r q = cook_loop-Cooked (chars t.read_q) t r q (omega arith)
