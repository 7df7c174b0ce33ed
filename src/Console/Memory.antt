-- ===== src/Console/Memory.antt =====
-- kernel/console.c: what the string instructions leave in video memory.
use linux_0_01raf.Prelude.{
  ℕ, zero, suc, ◌+◌, ◌-◌, ◌*◌, ◌/◌, ◌%◌, ◌≤◌, ◌<◌, ◌≡◌, ◌≢◌, ◌∙◌, refl, subst, ◌⊎◌, inl, inr, arith,
  ltb, ltb→lt, Bool-cases,
}
use linux_0_01raf.Console.{blank, Video, store, stosw, stosl, movsl, movsl_down, stosw_down}
use linux_0_01raf.Console.Commands.{shift_right, shift_left}

abbrev pub Outside : ℕ → ℕ → ℕ → Type 0
Outside a n b = (b < a) ⊎ (a + 2 * n ≤ b)

store-ne : (a v : ℕ) (m : Video) (b : ℕ) → b ≢ a → store a v m b ≡ m b
store-ne a v m b h = ground arith

pub stosw-Outside : (n a v : ℕ) (m : Video) (b : ℕ) → Outside a n b → stosw n a v m b ≡ m b
unfolding stosw
stosw-Outside zero a v m b o = refl
stosw-Outside (suc n) a v m b o =
    stosw-Outside n (a + 2) v (store a v m) b (ground arith) ∙ ground arith

pub stosw_inside : (n a v : ℕ) (m : Video) (k : ℕ) → k < n → stosw n a v m (a + 2 * k) ≡ v
unfolding stosw
stosw_inside zero a v m k h = absurd (omega arith)
stosw_inside (suc n) a v m zero h =
    stosw-Outside n (a + 2) v (store a v m) (a + 0) (inl (omega arith)) ∙ ground arith
stosw_inside (suc n) a v m (suc k) h =
    subst (λ b. stosw n (a + 2) v (store a v m) b ≡ v) (omega arith)
      (stosw_inside n (a + 2) v (store a v m) k (omega arith))

pub stosl-Outside : (n a v : ℕ) (m : Video) (b : ℕ) → Outside a (2 * n) b → stosl n a v m b ≡ m b
unfolding stosl
stosl-Outside zero a v m b o = refl
stosl-Outside (suc n) a v m b o =
    stosl-Outside n (a + 4) v (store (a + 2) (v / 65536) (store a (v % 65536) m)) b (ground arith)
    ∙ ground arith

pub stosl_inside :
    (n a v : ℕ) (m : Video) (k : ℕ)
    → v / 65536 ≡ v % 65536
    → k < 2 * n
    → stosl n a v m (a + 2 * k) ≡ v % 65536
unfolding stosl
stosl_inside zero a v m k e h = absurd (omega arith)
stosl_inside (suc n) a v m zero e h =
    stosl-Outside n (a + 4) v (store (a + 2) (v / 65536) (store a (v % 65536) m)) (a + 0)
      (inl (omega arith))
    ∙ ground arith
stosl_inside (suc n) a v m (suc zero) e h =
    stosl-Outside n (a + 4) v (store (a + 2) (v / 65536) (store a (v % 65536) m)) (a + 2)
      (inl (omega arith))
    ∙ ground arith
stosl_inside (suc n) a v m (suc (suc k)) e h =
    subst (λ b. stosl n (a + 4) v (store (a + 2) (v / 65536) (store a (v % 65536) m)) b ≡ v % 65536)
      (omega arith)
      (stosl_inside n (a + 4) v (store (a + 2) (v / 65536) (store a (v % 65536) m)) k e
        (omega arith))

-- one round of the copy
abbrev moved : ℕ → ℕ → Video → Video
moved d s m = store (d + 2) (m (s + 2)) (store d (m s) m)

pub movsl-Outside : (n d s : ℕ) (m : Video) (b : ℕ) → Outside d (2 * n) b → movsl n d s m b ≡ m b
unfolding movsl
movsl-Outside zero d s m b o = refl
movsl-Outside (suc n) d s m b o =
    movsl-Outside n (d + 4) (s + 4) (moved d s m) b (ground arith) ∙ ground arith

-- A copy to lower addresses, which may overlap with the source.
pub movsl_inside :
    (n d s : ℕ) (m : Video) (k : ℕ)
    → d + 4 ≤ s
    → k < 2 * n
    → movsl n d s m (d + 2 * k) ≡ m (s + 2 * k)
unfolding movsl
movsl_inside zero d s m k l h = absurd (omega arith)
movsl_inside (suc n) d s m zero l h =
    movsl-Outside n (d + 4) (s + 4) (moved d s m) (d + 0) (inl (omega arith)) ∙ ground arith
movsl_inside (suc n) d s m (suc zero) l h =
    movsl-Outside n (d + 4) (s + 4) (moved d s m) (d + 2) (inl (omega arith)) ∙ ground arith
movsl_inside (suc n) d s m (suc (suc k)) l h =
    let rest =
      movsl_inside n (d + 4) (s + 4) (moved d s m) k (omega arith) (omega arith)
      ∙ store-ne (d + 2) (m (s + 2)) (store d (m s) m) (s + 4 + 2 * k) (ground arith)
      ∙ store-ne d (m s) m (s + 4 + 2 * k) (ground arith) in
    subst (λ b. movsl n (d + 4) (s + 4) (moved d s m) b ≡ m (s + 2 * suc (suc k))) (omega arith)
      (subst (λ b. movsl n (d + 4) (s + 4) (moved d s m) (d + 4 + 2 * k) ≡ m b) (omega arith) rest)

-- A copy to higher addresses: `n` longs, the last at `s` and then at `d`, the first at `to`.
pub movsl_down-Outside :
    (n to d s : ℕ) (m : Video) (b : ℕ)
    → 4 ≤ to
    → d + 4 ≡ to + 4 * n
    → Outside to (2 * n) b
    → movsl_down n d s m b ≡ m b
unfolding movsl_down
movsl_down-Outside zero to d s m b l e o = refl
movsl_down-Outside (suc n) to d s m b l e o =
    movsl_down-Outside n to (d - 4) (s - 4) (moved d s m) b l (omega arith) (ground arith)
    ∙ ground arith

pub movsl_down_inside :
    (n to from d s : ℕ) (m : Video) (k : ℕ)
    → 4 ≤ from
    → from + 4 ≤ to
    → d + 4 ≡ to + 4 * n
    → s + 4 ≡ from + 4 * n
    → k < 2 * n
    → movsl_down n d s m (to + 2 * k) ≡ m (from + 2 * k)
unfolding movsl_down
movsl_down_inside zero to from d s m k f l e g h = absurd (omega arith)
movsl_down_inside (suc n) to from d s m k f l e g h = elim (Bool-cases (ltb k (2 * n))) [
  | inl lower ↦
      movsl_down_inside n to from (d - 4) (s - 4) (moved d s m) k f l (omega arith) (omega arith)
        (ltb→lt k (2 * n) lower)
      ∙ store-ne (d + 2) (m (s + 2)) (store d (m s) m) (from + 2 * k) (ground arith)
      ∙ store-ne d (m s) m (from + 2 * k) (ground arith)
  | inr upper ↦
      movsl_down-Outside n to (d - 4) (s - 4) (moved d s m) (to + 2 * k) (omega arith) (omega arith)
        (inr (ground arith))
      ∙ ground arith
]

-- `n` words, the last at `a`, the first at `to`
pub stosw_down-Outside :
    (n to a v : ℕ) (m : Video) (b : ℕ)
    → 2 ≤ to
    → a + 2 ≡ to + 2 * n
    → Outside to n b
    → stosw_down n a v m b ≡ m b
unfolding stosw_down
stosw_down-Outside zero to a v m b l e o = refl
stosw_down-Outside (suc n) to a v m b l e o =
    stosw_down-Outside n to (a - 2) v (store a v m) b l (omega arith) (ground arith) ∙ ground arith

pub stosw_down_inside :
    (n to a v : ℕ) (m : Video) (k : ℕ)
    → 2 ≤ to
    → a + 2 ≡ to + 2 * n
    → k < n
    → stosw_down n a v m (to + 2 * k) ≡ v
unfolding stosw_down
stosw_down_inside zero to a v m k l e h = absurd (omega arith)
stosw_down_inside (suc n) to a v m k l e h = elim (Bool-cases (ltb k n)) [
  | inl lower ↦ stosw_down_inside n to (a - 2) v (store a v m) k l (omega arith) (ltb→lt k n lower)
  | inr upper ↦
      stosw_down-Outside n to (a - 2) v (store a v m) (to + 2 * k) l (omega arith)
        (inr (ground arith))
      ∙ ground arith
]

-- insert_char: `n` words from `p` move up by one
pub shift_right-Outside :
    (n p old : ℕ) (m : Video) (b : ℕ) → Outside p n b → shift_right n p old m b ≡ m b
unfolding shift_right
shift_right-Outside zero p old m b o = refl
shift_right-Outside (suc n) p old m b o =
    shift_right-Outside n (p + 2) (m p) (store p old m) b (ground arith) ∙ ground arith

pub shift_right_first : (n p old : ℕ) (m : Video) → shift_right (suc n) p old m p ≡ old
unfolding shift_right
shift_right_first n p old m =
    shift_right-Outside n (p + 2) (m p) (store p old m) p (inl (omega arith)) ∙ ground arith

pub shift_right_inside :
    (n p old : ℕ) (m : Video) (k : ℕ)
    → suc k < n
    → shift_right n p old m (p + 2 * suc k) ≡ m (p + 2 * k)
unfolding shift_right
shift_right_inside zero p old m k h = absurd (omega arith)
shift_right_inside (suc zero) p old m k h = absurd (omega arith)
shift_right_inside (suc (suc n)) p old m zero h =
    subst (λ b. shift_right (suc n) (p + 2) (m p) (store p old m) (p + 2) ≡ m b) (omega arith)
      (shift_right_first n (p + 2) (m p) (store p old m))
shift_right_inside (suc (suc n)) p old m (suc k) h =
    let rest =
      shift_right_inside (suc n) (p + 2) (m p) (store p old m) k (omega arith)
      ∙ store-ne p old m (p + 2 + 2 * k) (ground arith) in
    subst (λ b. shift_right (suc n) (p + 2) (m p) (store p old m) b ≡ m (p + 2 * suc k))
      (omega arith)
      (subst (λ b. shift_right (suc n) (p + 2) (m p) (store p old m) (p + 2 + 2 * suc k) ≡ m b)
        (omega arith) rest)

-- delete_char: `n` words move down to `p`, and a blank follows
pub shift_left-Outside :
    (n p : ℕ) (m : Video) (b : ℕ) → Outside p (suc n) b → shift_left n p m b ≡ m b
unfolding shift_left
shift_left-Outside zero p m b o = ground arith
shift_left-Outside (suc n) p m b o =
    shift_left-Outside n (p + 2) (store p (m (p + 2)) m) b (ground arith) ∙ ground arith

pub shift_left_last : (n p : ℕ) (m : Video) → shift_left n p m (p + 2 * n) ≡ blank
unfolding shift_left
shift_left_last zero p m = ground arith
shift_left_last (suc n) p m =
    subst (λ b. shift_left n (p + 2) (store p (m (p + 2)) m) b ≡ blank) (omega arith)
      (shift_left_last n (p + 2) (store p (m (p + 2)) m))

pub shift_left_inside :
    (n p : ℕ) (m : Video) (k : ℕ) → k < n → shift_left n p m (p + 2 * k) ≡ m (p + 2 * suc k)
unfolding shift_left
shift_left_inside zero p m k h = absurd (omega arith)
shift_left_inside (suc n) p m zero h =
    shift_left-Outside n (p + 2) (store p (m (p + 2)) m) (p + 0) (inl (omega arith)) ∙ ground arith
shift_left_inside (suc n) p m (suc k) h =
    let rest =
      shift_left_inside n (p + 2) (store p (m (p + 2)) m) k (omega arith)
      ∙ store-ne p (m (p + 2)) m (p + 2 + 2 * suc k) (ground arith) in
    subst (λ b. shift_left n (p + 2) (store p (m (p + 2)) m) b ≡ m (p + 2 * suc (suc k)))
      (omega arith)
      (subst (λ b. shift_left n (p + 2) (store p (m (p + 2)) m) (p + 2 + 2 * k) ≡ m b) (omega arith)
        rest)
