-- ===== src/Strings/Spans.antt =====
-- include/string.h: strspn, strcspn and strchr, on strings as lists.
use linux_0_01raf.Prelude.{
  ℕ, zero, suc, ◌+◌, ◌^◌, ◌<◌, ◌≡◌, ◌∙◌, ap, refl, arith, Bool, true, false, ◌||◌, ◌==◌,
  if◌then◌else◌, Option, some, List, [], ◌∷◌, length,
}
use linux_0_01raf.Strings.{Memory, addresses, scasb}
use linux_0_01raf.Strings.Search.{among, span_loop, strspn, strcspn}
use linux_0_01raf.Strings.Contents.{StringAt, strlen-StringAt}

unfoldable pub is_elem : ℕ → List ℕ → Bool
is_elem c [] = false
is_elem c (d ∷ ds) = (d == c) || is_elem c ds

pub among-is_elem :
    (ds : List ℕ) (ct c : ℕ) (m : Memory)
    → StringAt m ct ds
    → among (length ds) ct c m ≡ is_elem c ds
unfolding StringAt scasb is_elem
among-is_elem [] ct c m h = refl
among-is_elem (d ∷ ds) ct c m (e, ne, h) =
    let rest = among-is_elem ds (ct + 1) c m h in ground (arith, rest)

-- how many bytes at the front are not in the set, or are, as `wanted` says
unfoldable pub lead : Bool → List ℕ → List ℕ → ℕ
lead wanted ds [] = 0
lead wanted ds (c ∷ cs) =
    if is_elem c ds
    then (if wanted then 0 else suc (lead wanted ds cs))
    else (if wanted then suc (lead wanted ds cs) else 0)

one_round :
    (b wanted : Bool) (s k : ℕ) (r : Option ℕ)
    → r ≡ some (s + 1 + k)
    → (if b then (if wanted then some s else r) else (if wanted then r else some s))
      ≡ some (s + (if b then (if wanted then 0 else suc k) else (if wanted then suc k else 0)))
one_round true true s k r e = ap some (omega arith)
one_round true false s k r e = e ∙ ap some (omega arith)
one_round false true s k r e = e ∙ ap some (omega arith)
one_round false false s k r e = ap some (omega arith)

pub span_loop-lead :
    (str : List ℕ) (ds : List ℕ) (fuel : ℕ) (wanted : Bool) (s ct : ℕ) (m : Memory)
    → StringAt m s str
    → StringAt m ct ds
    → length str < fuel
    → span_loop fuel wanted (length ds) s ct m ≡ some (s + lead wanted ds str)
unfolding StringAt span_loop lead
span_loop-lead [] ds zero wanted s ct m h k l = absurd (omega arith)
span_loop-lead (c ∷ cs) ds zero wanted s ct m h k l = absurd (omega arith)
span_loop-lead [] ds (suc fuel) wanted s ct m h k l = ground arith
span_loop-lead (c ∷ cs) ds (suc fuel) wanted s ct m (e, ne, h) k l =
    let rest = span_loop-lead cs ds fuel wanted (s + 1) ct m h k (omega arith) in
    let test : among (length ds) ct (m s) m ≡ is_elem c ds =
      ap (λ b. among (length ds) ct b m) e ∙ among-is_elem ds ct c m k in
    let more : (m s == 0) ≡ false = ground arith in
    rw (more, test) (one_round (is_elem c ds) wanted s (lead wanted ds cs) _ rest)

-- `strspn` and `strcspn` return how many bytes at the front of the string are in the set, and are not.
pub strspn-lead :
    (str ds : List ℕ) (s ct : ℕ) (m : Memory)
    → StringAt m s str
    → StringAt m ct ds
    → length str < 2 ^ 32
    → length ds < 0xffffffff
    → (strspn s ct m ≡ some (lead false ds str)) × (strcspn s ct m ≡ some (lead true ds str))
unfolding strspn strcspn
strspn-lead str ds s ct m h k l n =
    let size = strlen-StringAt ds ct m k n in
    let a = span_loop-lead str ds addresses false s ct m h k l in
    let b = span_loop-lead str ds addresses true s ct m h k l in
    (rw size (rw a (ap some (omega arith))), rw size (rw b (ap some (omega arith))))
