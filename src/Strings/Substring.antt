-- ===== src/Strings/Substring.antt =====
-- include/string.h: strstr finds the first occurrence of a string in another.
use linux_0_01raf.Prelude.{
  ℕ, zero, suc, ◌+◌, ◌^◌, ◌<◌, ◌≡◌, ◌∙◌, ap, refl, sym, inl, inr, arith, Bool, true, false, ◌&&◌,
  ◌==◌, if◌then◌else◌, Bool-cases, some, List, [], ◌∷◌, length,
}
use linux_0_01raf.Strings.{Memory, addresses}
use linux_0_01raf.Strings.Search.{cmpsb, strstr_loop, strstr}
use linux_0_01raf.Strings.Contents.{StringAt, strlen-StringAt}

unfoldable pub is_prefix : List ℕ → List ℕ → Bool
is_prefix [] str = true
is_prefix (d ∷ ds) [] = false
is_prefix (d ∷ ds) (c ∷ cs) = (c == d) && is_prefix ds cs

-- the address of the first place where `t` stands in a string at `s`, or NULL
unfoldable pub found : List ℕ → ℕ → List ℕ → ℕ
found t s [] = if is_prefix t [] then s else 0
found t s (c ∷ cs) = if is_prefix t (c ∷ cs) then s else found t (s + 1) cs

cmpsb-is_prefix :
    (t str : List ℕ) (s ct : ℕ) (m : Memory)
    → StringAt m ct t
    → StringAt m s str
    → (cmpsb (length t) s ct m).0 ≡ is_prefix t str
unfolding StringAt cmpsb is_prefix
cmpsb-is_prefix [] str s ct m k h = refl
cmpsb-is_prefix (d ∷ ds) [] s ct m (f, nf, k) h = ground arith
cmpsb-is_prefix (d ∷ ds) (c ∷ cs) s ct m (f, nf, k) (e, ne, h) =
    let rest = cmpsb-is_prefix ds cs (s + 1) (ct + 1) m k h in ground (arith, rest)

-- a run that stops at the zero byte: the string is too short
cmpsb_short :
    (t str : List ℕ) (s ct : ℕ) (m : Memory)
    → StringAt m ct t
    → StringAt m s str
    → (cmpsb (length t) s ct m).1 ≡ 0
    → length str < length t
unfolding StringAt cmpsb
cmpsb_short [] str s ct m k h z = absurd (cc z)
cmpsb_short (d ∷ ds) [] s ct m (f, nf, k) h z = omega arith
cmpsb_short (d ∷ ds) (c ∷ cs) s ct m (f, nf, k) (e, ne, h) z = elim (Bool-cases (m s == m ct)) [
  | inl same ↦ let rest = cmpsb_short ds cs (s + 1) (ct + 1) m k h (rw same at z) in omega arith
  | inr other ↦ absurd (ne (sym e ∙ (rw other at z)))
]

cmpsb_more :
    (t : List ℕ) (s ct : ℕ) (m : Memory)
    → StringAt m ct t
    → StringAt m s []
    → (cmpsb (length t) s ct m).0 ≡ false
    → (cmpsb (length t) s ct m).1 ≡ 0
unfolding StringAt cmpsb
cmpsb_more [] s ct m k h z = cc z
cmpsb_more (d ∷ ds) s ct m (f, nf, k) h z = ground arith

is_prefix_short : (t str : List ℕ) → length str < length t → is_prefix t str ≡ false
unfolding is_prefix
is_prefix_short [] str l = absurd (omega arith)
is_prefix_short (d ∷ ds) [] l = refl
is_prefix_short (d ∷ ds) (c ∷ cs) l =
    let rest = is_prefix_short ds cs (omega arith) in ground (arith, rest)

found_short : (t : List ℕ) (s : ℕ) (str : List ℕ) → length str < length t → found t s str ≡ 0
unfolding found
found_short t s [] l = rw (is_prefix_short t [] l) refl
found_short t s (c ∷ cs) l =
    rw (is_prefix_short t (c ∷ cs) l) (found_short t (s + 1) cs (omega arith))

behind : (c : ℕ) (cs : List ℕ) (s : ℕ) (m : Memory) → StringAt m s (c ∷ cs) → StringAt m (s + 1) cs
unfolding StringAt
behind c cs s m h = h.2

strstr_loop-found :
    (str t : List ℕ) (fuel s ct : ℕ) (m : Memory)
    → StringAt m s str
    → StringAt m ct t
    → length str < fuel
    → strstr_loop fuel (length t) s ct m ≡ some (found t s str)
unfolding strstr_loop found
strstr_loop-found str t zero s ct m h k l = absurd (omega arith)
strstr_loop-found [] t (suc fuel) s ct m h k l =
    let run = cmpsb-is_prefix t [] s ct m k h in
    elim (Bool-cases (is_prefix t [])) [
      | inl here ↦ rw (found, here) (rw (run ∙ here) refl)
      | inr not_here ↦
          rw (found, not_here)
            (rw (run ∙ not_here) (rw (cmpsb_more t s ct m k h (run ∙ not_here)) refl))
    ]
strstr_loop-found (c ∷ cs) t (suc fuel) s ct m h k l =
    let run = cmpsb-is_prefix t (c ∷ cs) s ct m k h in
    elim (Bool-cases (is_prefix t (c ∷ cs))) [
      | inl here ↦ rw (found, here) (rw (run ∙ here) refl)
      | inr not_here ↦ elim (Bool-cases ((cmpsb (length t) s ct m).1 == 0)) [
        | inl short ↦
            let few = cmpsb_short t (c ∷ cs) s ct m k h (ground arith) in
            rw (run ∙ not_here, short) (ap some (sym (found_short t s (c ∷ cs) few)))
        | inr more ↦
            rw (run ∙ not_here, more)
              (rw (found, not_here)
                (strstr_loop-found cs t fuel (s + 1) ct m (behind c cs s m h) k (omega arith)))
      ]
    ]

-- `strstr`, of strings that are short enough, returns the address where the second stands in the first
-- for the first time, and NULL where it does not.
pub strstr-found :
    (str t : List ℕ) (s ct : ℕ) (m : Memory)
    → StringAt m s str
    → StringAt m ct t
    → length str < 2 ^ 32
    → length t < 0xffffffff
    → strstr s ct m ≡ some (found t s str)
unfolding strstr
strstr-found str t s ct m h k l n =
    rw (strlen-StringAt t ct m k n) (strstr_loop-found str t addresses s ct m h k l)
