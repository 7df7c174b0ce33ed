-- ===== src/Tty/Queues.antt =====
-- include/linux/tty.h: the macros on a terminal's queue are the operations on a list.
use linux_0_01raf.Prelude.{
  ℕ, suc, ◌+◌, ◌-◌, ◌%◌, ◌≤◌, ◌<◌, ◌≡◌, ◌≢◌, ◌∙◌, ap, sym, true, false, [], ◌∷◌, ◌++◌, arith,
  length, length-set, get_or, set,
}
use linux_0_01raf.Ring.{stretch, stretch-set, stretch-suc}
use linux_0_01raf.Tty.{
  Queue, inc, dec, is_empty, left, is_full, chars, last, next_char, getch, putch, unput, contents,
}

unfoldable pub IsQueue : Queue → Type 0
IsQueue q = (length q.buf ≡ 1024) × (q.head < 1024) × (q.tail < 1024)

chars-putch :
    (h t : ℕ)
    → h < 1024
    → t < 1024
    → (t + 4294967296 - h - 1) % 1024 ≢ 0
    → ((h + 1) % 1024 + 4294967296 - t) % 1024 ≡ suc ((h + 4294967296 - t) % 1024)
chars-putch h t a b n = grind arith

chars-getch :
    (h t : ℕ)
    → h < 1024
    → t < 1024
    → h ≢ t
    → (h + 4294967296 - t) % 1024 ≡ suc ((h + 4294967296 - (t + 1) % 1024) % 1024)
chars-getch h t a b n = grind arith

chars-unput :
    (h t : ℕ)
    → h < 1024
    → t < 1024
    → h ≢ t
    → (h + 4294967296 - t) % 1024 ≡ suc (((h + 1023) % 1024 + 4294967296 - t) % 1024)
chars-unput h t a b n = grind arith

head_of : (h t : ℕ) → h < 1024 → t < 1024 → h ≡ (t + (h + 4294967296 - t) % 1024) % 1024
head_of h t a b = grind arith

pub putch-contents :
    (c : ℕ) (q : Queue)
    → IsQueue q
    → is_full q ≡ false
    → contents (putch c q) ≡ contents q ++ (c ∷ [])
unfolding contents putch chars is_full left inc IsQueue
putch-contents c q (l, a, b) free =
    let ne : (q.tail + 4294967296 - q.head - 1) % 1024 ≢ 0 = ground arith in
    ap (stretch (set q.buf q.head c) 1024 q.tail) (chars-putch q.head q.tail a b ne)
    ∙ stretch-set q.buf 1024 c (chars q) q.tail q.head (omega arith) b (omega arith)
        (head_of q.head q.tail a b)

pub putch-IsQueue : (c : ℕ) (q : Queue) → IsQueue q → IsQueue (putch c q)
unfolding putch inc IsQueue
putch-IsQueue c q (l, a, b) = (length-set q.buf q.head c ∙ l, omega arith, b)

pub getch-contents :
    (q : Queue) → IsQueue q → is_empty q ≡ false → contents q ≡ next_char q ∷ contents (getch q)
unfolding contents getch chars is_empty inc IsQueue next_char stretch
getch-contents q (l, a, b) more =
    ap (stretch q.buf 1024 q.tail) (chars-getch q.head q.tail a b (ground arith))

pub getch-IsQueue : (q : Queue) → IsQueue q → IsQueue (getch q)
unfolding getch inc IsQueue
getch-IsQueue q (l, a, b) = (l, a, omega arith)

pub unput-contents :
    (q : Queue) → IsQueue q → is_empty q ≡ false → contents q ≡ contents (unput q) ++ (last q ∷ [])
unfolding contents unput chars is_empty dec IsQueue last
unput-contents q (l, a, b) more =
    let one = chars-unput q.head q.tail a b (ground arith) in
    let place : (q.tail + ((q.head + 1023) % 1024 + 4294967296 - q.tail) % 1024) % 1024
        ≡ (q.head + 1023) % 1024 =
      sym (head_of ((q.head + 1023) % 1024) q.tail (omega arith) b) in
    ap (stretch q.buf 1024 q.tail) one
    ∙ stretch-suc q.buf 1024 q.tail (((q.head + 1023) % 1024 + 4294967296 - q.tail) % 1024) b
    ∙ ap
        (λ k.
          stretch q.buf 1024 q.tail (((q.head + 1023) % 1024 + 4294967296 - q.tail) % 1024)
          ++ (get_or q.buf k 0 ∷ []))
        place

pub unput-IsQueue : (q : Queue) → IsQueue q → IsQueue (unput q)
unfolding unput dec IsQueue
unput-IsQueue q (l, a, b) = (l, omega arith, b)

pub empty-contents : (q : Queue) → is_empty q ≡ true → IsQueue q → contents q ≡ []
unfolding contents chars is_empty IsQueue stretch
empty-contents q e (l, a, b) =
    let none : (q.head + 4294967296 - q.tail) % 1024 ≡ 0 = ground arith in
    ap (stretch q.buf 1024 q.tail) none

pub chars-zero : (q : Queue) → IsQueue q → chars q ≤ 0 → is_empty q ≡ true
unfolding chars is_empty IsQueue
chars-zero q (l, a, b) h = let e : q.head ≡ q.tail = grind arith in ground arith

pub chars-suc : (q : Queue) → IsQueue q → is_empty q ≡ false → chars q ≡ suc (chars (getch q))
unfolding chars is_empty IsQueue getch inc
chars-suc q (l, a, b) more = chars-getch q.head q.tail a b (ground arith)

left-of :
    (h t : ℕ)
    → h < 1024
    → t < 1024
    → (t + 4294967296 - h - 1) % 1024 ≢ 0
    → (t + 4294967296 - h - 1) % 1024 ≡ suc ((t + 4294967296 - (h + 1) % 1024 - 1) % 1024)
left-of h t a b n = grind arith

pub left-putch :
    (c : ℕ) (q : Queue) → IsQueue q → is_full q ≡ false → left q ≡ suc (left (putch c q))
unfolding left is_full putch inc IsQueue
left-putch c q (l, a, b) free = left-of q.head q.tail a b (ground arith)

pub left-zero : (q : Queue) → left q ≤ 0 → is_full q ≡ true
unfolding is_full
left-zero q h = ground arith
