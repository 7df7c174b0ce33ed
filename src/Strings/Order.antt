-- ===== src/Strings/Order.antt =====
-- include/string.h: strcmp gives the order of strings.
use linux_0_01raf.Prelude.{
  ℕ, zero, suc, ◌+◌, ◌^◌, ◌<◌, ◌≡◌, ◌≢◌, refl, inl, inr, ◌↔◌, arith, Bool, true, false, ltb, ◌==◌,
  if◌then◌else◌, Bool-cases, some, List, [], ◌∷◌, length,
}
use linux_0_01raf.Prelude.Int.{ℤ, pos, negsuc}
use linux_0_01raf.Strings.{Memory, addresses}
use linux_0_01raf.Strings.Search.{strcmp_loop, strcmp}
use linux_0_01raf.Strings.Contents.{StringAt}

-- the order of the words in a dictionary, by their bytes
unfoldable pub order : List ℕ → List ℕ → ℤ
order [] [] = pos 0
order [] (d ∷ ds) = negsuc 0
order (c ∷ cs) [] = pos 1
order (c ∷ cs) (d ∷ ds) = if c == d then order cs ds else if ltb c d then negsuc 0 else pos 1

strcmp_loop-order :
    (s t : List ℕ) (fuel a b : ℕ) (m : Memory)
    → StringAt m a s
    → StringAt m b t
    → length s < fuel
    → strcmp_loop fuel a b m ≡ some (order s t)
unfolding StringAt strcmp_loop order
strcmp_loop-order [] t zero a b m h k l = absurd (omega arith)
strcmp_loop-order (c ∷ cs) t zero a b m h k l = absurd (omega arith)
strcmp_loop-order [] [] (suc fuel) a b m h k l = ground arith
strcmp_loop-order [] (d ∷ ds) (suc fuel) a b m h (e, ne, k) l = ground arith
strcmp_loop-order (c ∷ cs) [] (suc fuel) a b m (e, ne, h) k l = ground arith
strcmp_loop-order (c ∷ cs) (d ∷ ds) (suc fuel) a b m (e, ne, h) (f, nf, k) l =
    let rest = strcmp_loop-order cs ds fuel (a + 1) (b + 1) m h k (omega arith) in
    ground (arith, rest)

unequal : (b : Bool) → (if b then negsuc 0 else pos 1) ≢ pos 0
unequal true h = cc h
unequal false h = cc h

order_equal : (s t : List ℕ) → (order s t ≡ pos 0) ↔ (s ≡ t)
unfolding order
order_equal [] [] = (λ e. refl, λ e. refl)
order_equal [] (d ∷ ds) = (λ e. cc, λ e. cc)
order_equal (c ∷ cs) [] = (λ e. cc, λ e. cc)
order_equal (c ∷ cs) (d ∷ ds) = elim (Bool-cases (c == d)) [
  | inl same ↦
      let e : c ≡ d = ground arith in
      rw same (λ h. let t = (order_equal cs ds).0 h in cc (e, t), λ h. (order_equal cs ds).1 (cc h))
  | inr apart ↦
      rw apart (λ h. absurd (unequal (ltb c d) h), λ h. let e : c ≡ d = cc h in ground arith)
]

-- `strcmp`, of strings of which the first is short enough, returns 0 where they are equal, and otherwise -1
-- or 1, as the first is before or behind the second in the order of their bytes.
pub strcmp-order :
    (s t : List ℕ) (a b : ℕ) (m : Memory)
    → StringAt m a s
    → StringAt m b t
    → length s < 2 ^ 32
    → (strcmp a b m ≡ some (order s t)) × ((order s t ≡ pos 0) ↔ (s ≡ t))
unfolding strcmp
strcmp-order s t a b m h k l = (strcmp_loop-order s t addresses a b m h k l, order_equal s t)
