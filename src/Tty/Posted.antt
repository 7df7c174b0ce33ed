-- ===== src/Tty/Posted.antt =====
-- kernel/tty_io.c: what `tty_write` puts into the write queue.
use linux_0_01raf.Prelude.{
  ℕ, zero, suc, ◌≤◌, ◌≡◌, ◌∙◌, ap, sym, refl, ◌⊎◌, inl, inr, Bool, true, false, List, [], ◌∷◌, ◌++◌,
  arith, if◌then◌else◌, Bool-cases,
}
use mathlib.Core.List.{append_assoc}
use linux_0_01raf.Tty.{Queue, Termios, left, is_full, putch, contents}
use linux_0_01raf.Tty.Queues.{IsQueue, putch-contents, putch-IsQueue, left-putch, left-zero}
use linux_0_01raf.Tty.Output.{wants_return, output_char, Output, put_loop, put_chars}

-- the characters that a text comes to; `cr_flag` if a carriage return has gone out for its first
unfoldable pub post : Termios → Bool → List ℕ → List ℕ
post t cr_flag [] = []
post t cr_flag (c ∷ cs) =
    let rest = output_char t c ∷ post t false cs in
    if wants_return t cr_flag c then 13 ∷ rest else rest

-- after a carriage return none is wanted
wants_none : (t : Termios) (c : ℕ) → wants_return t true c ≡ false
unfolding wants_return
wants_none t c = ground arith

post_return :
    (t : Termios) (f : Bool) (c : ℕ) (cs : List ℕ)
    → wants_return t f c ≡ true
    → post t f (c ∷ cs) ≡ 13 ∷ post t true (c ∷ cs)
unfolding post
post_return t f c cs h = rw (h, wants_none t c) refl

post_plain :
    (t : Termios) (f : Bool) (c : ℕ) (cs : List ℕ)
    → wants_return t f c ≡ false
    → post t f (c ∷ cs) ≡ output_char t c ∷ post t false cs
unfolding post
post_plain t f c cs h = rw h refl

-- a character that goes from the front of a list to the back of the queue
moved :
    (c : ℕ) (q : Queue) (l : List ℕ)
    → IsQueue q
    → is_full q ≡ false
    → contents q ++ (c ∷ l) ≡ contents (putch c q) ++ l
moved c q l k free =
    sym (ap (λ m. m ++ l) (putch-contents c q k free) ∙ append_assoc (contents q) (c ∷ []) l)

-- Nothing is lost, doubled or reordered between the text and the queue, and the loop ends for a reason.
pub record Posted (t : Termios) (o u : Output) : Type 0 where
  pub conserved :
      contents o.write_q ++ post t o.cr_flag o.rest ≡ contents u.write_q ++ post t u.cr_flag u.rest
  pub is_done : (u.rest ≡ []) ⊎ (is_full u.write_q ≡ true)
  pub good : IsQueue u.write_q

abbrev output : Queue → Bool → List ℕ → Output
output q f l = record { write_q = q; cr_flag = f; rest = l }

put_loop-Posted :
    (n : ℕ) (t : Termios) (q : Queue) (f : Bool) (l : List ℕ)
    → IsQueue q
    → left q ≤ n
    → Posted t (output q f l) (put_loop n t (output q f l))
unfolding put_loop
put_loop-Posted zero t q f l k h = record {
  conserved = refl;
  is_done = inr (left-zero q h);
  good = k;
}
put_loop-Posted (suc n) t q f [] k h = record { conserved = refl; is_done = inl refl; good = k }
put_loop-Posted (suc n) t q f (c ∷ cs) k h = elim (Bool-cases (is_full q)) [
  | inl e ↦ rw (put_loop, e) (record { conserved = refl; is_done = inr e; good = k })
  | inr free ↦ elim (Bool-cases (wants_return t f c)) [
    | inl w ↦
        let rest =
          put_loop-Posted n t (putch 13 q) true (c ∷ cs) (putch-IsQueue 13 q k)
            (omega (arith, left-putch 13 q k free)) in
        rw (put_loop, free)
          (rw w (record {
            conserved =
                ap (λ m. contents q ++ m) (post_return t f c cs w)
                ∙ moved 13 q (post t true (c ∷ cs)) k free
                ∙ rest.conserved;
            is_done = rest.is_done;
            good = rest.good;
          }))
    | inr w ↦
        let rest =
          put_loop-Posted n t (putch (output_char t c) q) false cs
            (putch-IsQueue (output_char t c) q k)
            (omega (arith, left-putch (output_char t c) q k free)) in
        rw (put_loop, free)
          (rw w (record {
            conserved =
                ap (λ m. contents q ++ m) (post_plain t f c cs w)
                ∙ moved (output_char t c) q (post t false cs) k free
                ∙ rest.conserved;
            is_done = rest.is_done;
            good = rest.good;
          }))
  ]
]

-- Output is the text with its mapping, in order. Where the write queue has a buffer of its size and
-- indices in it: the inner loop of `tty_write` ends with the text at its end or the queue full; what the
-- queue held, followed by the characters that the text comes to, is what the queue holds then,
-- followed by the characters that the rest of the text comes to, a carriage return that went ahead
-- included.
pub put_chars-Posted : (t : Termios) (o : Output) → IsQueue o.write_q → Posted t o (put_chars t o)
unfolding put_chars
put_chars-Posted t o k =
    put_loop-Posted (left o.write_q) t o.write_q o.cr_flag o.rest k (omega arith)
