-- ===== src/Strings/Tokens.antt =====
-- include/string.h: strtok cuts a string into words.
use linux_0_01raf.Prelude.{
  ℕ, zero, suc, ◌+◌, ◌^◌, ◌≤◌, ◌<◌, ◌≡◌, ◌≢◌, ◌∙◌, ap, refl, sym, subst, inl, inr, arith, Bool,
  true, false, ◌==◌, if◌then◌else◌, Bool-cases, Option, some, List, [], ◌∷◌, length, take, drop,
}
use mathlib.Core.Option
use linux_0_01raf.Strings.{Memory, put, addresses}
use linux_0_01raf.Strings.Blocks.{put-ne}
use linux_0_01raf.Strings.Search.{span_loop, Token, no_token, cut, token_from, strtok}
use linux_0_01raf.Strings.Contents.{StringAt, strlen-StringAt, StringAt-other}
use linux_0_01raf.Strings.Spans.{lead, span_loop-lead}

-- where the next call goes on: the string behind the separator, or nowhere at the end of the string
unfoldable pub IsRest : List ℕ → Token → Type 0
IsRest [] r = r.next ≡ 0
IsRest (d ∷ ds) r = StringAt r.mem r.next ds

-- `left` is what stands at `start`, behind the separators, and `n` is how many bytes of it are a word
unfoldable pub IsToken : ℕ → ℕ → List ℕ → Memory → Token → Type 0
IsToken start n [] m r = r ≡ no_token m
IsToken start n (c ∷ cs) m r =
    (r.res ≡ start) × StringAt r.mem start (take n (c ∷ cs)) × IsRest (drop n (c ∷ cs)) r

lead-length : (w : Bool) (ds str : List ℕ) → lead w ds str ≤ length str
unfolding lead
lead-length w ds [] = omega arith
lead-length true ds (c ∷ cs) = let rest = lead-length true ds cs in ground arith
lead-length false ds (c ∷ cs) = let rest = lead-length false ds cs in ground arith

StringAt-drop :
    (k : ℕ) (s : List ℕ) (a : ℕ) (m : Memory)
    → StringAt m a s
    → k ≤ length s
    → StringAt m (a + k) (drop k s)
unfolding StringAt
StringAt-drop zero s a m h l = subst (λ b. StringAt m b s) (omega arith) h
StringAt-drop (suc k) [] a m h l = absurd (omega arith)
StringAt-drop (suc k) (c ∷ cs) a m (e, ne, h) l =
    subst (λ b. StringAt m b (drop k cs)) (omega arith)
      (StringAt-drop k cs (a + 1) m h (omega arith))

StringAt-take :
    (k : ℕ) (s : List ℕ) (a : ℕ) (m n : Memory)
    → StringAt m a s
    → k ≤ length s
    → ((b : ℕ) → a ≤ b → b < a + k → n b ≡ m b)
    → n (a + k) ≡ 0
    → StringAt n a (take k s)
unfolding StringAt
StringAt-take zero s a m n h l f z = ap n (omega arith) ∙ z
StringAt-take (suc k) [] a m n h l f z = absurd (omega arith)
StringAt-take (suc k) (c ∷ cs) a m n (e, ne, h) l f z = (
  f a (omega arith) (omega arith) ∙ e,
  ne,
  StringAt-take k cs (a + 1) m n h (omega arith) (λ b p q. f b (omega arith) (omega arith))
      (ap n (omega arith) ∙ z),
)

cut-IsToken :
    (n : ℕ) (c : ℕ) (cs rest : List ℕ) (start : ℕ) (m : Memory)
    → StringAt m start (c ∷ cs)
    → n ≤ length (c ∷ cs)
    → rest ≡ drop n (c ∷ cs)
    → IsToken start n (c ∷ cs) m (cut start (start + n) m)
unfolding IsToken IsRest cut StringAt
cut-IsToken n c cs [] start m h l e =
    let stop : m (start + n) ≡ 0 =
      subst (λ t. StringAt m (start + n) t) (sym e) (StringAt-drop n (c ∷ cs) start m h l) in
    let word = StringAt-take n (c ∷ cs) start m m h l (λ b p q. refl) stop in
    rw (stop, sym e) (refl, word, refl)
cut-IsToken n c cs (d ∷ rest) start m h l e =
    let at : StringAt m (start + n) (d ∷ rest) =
      subst (λ t. StringAt m (start + n) t) (sym e) (StringAt-drop n (c ∷ cs) start m h l) in
    let go : (m (start + n) == 0) ≡ false = ground (arith, at.0, at.1) in
    let out = put (start + n) 0 m in
    let word =
      StringAt-take n (c ∷ cs) start m out h l (λ b p q. put-ne (start + n) 0 m b (ground arith))
        (ground arith) in
    let after =
      StringAt-other rest (start + n + 1) m out (λ b p q. put-ne (start + n) 0 m b (ground arith))
        at.2 in
    rw (go, sym e) (refl, word, after)

token_at :
    (left ds : List ℕ) (start ct : ℕ) (m : Memory)
    → StringAt m start left
    → StringAt m ct ds
    → length left < 2 ^ 32
    → (r : Token) × ((if m start == 0
          then some (no_token m)
          else Option.map
              (λ stop. cut start stop m)
              (span_loop addresses true (length ds) start ct m))
        ≡ some r)
      × IsToken start (lead true ds left) left m r
unfolding StringAt IsToken
token_at [] ds start ct m h k l = (no_token m, ground arith, refl)
token_at (c ∷ cs) ds start ct m h k l =
    let word : (m start == 0) ≡ false = ground (arith, h.0, h.1) in
    (
      cut start (start + lead true ds (c ∷ cs)) m,
      rw (word, span_loop-lead (c ∷ cs) ds addresses true start ct m h k l) refl,
      cut-IsToken (lead true ds (c ∷ cs)) c cs (drop (lead true ds (c ∷ cs)) (c ∷ cs)) start m h
          (lead-length true ds (c ∷ cs)) refl,
    )

length-drop : (k : ℕ) (s : List ℕ) → length (drop k s) ≤ length s
length-drop zero s = omega arith
length-drop (suc k) [] = omega arith
length-drop (suc k) (c ∷ cs) = let rest = length-drop k cs in omega arith

-- a call that returns the first token of a string at `p`
unfoldable pub FirstToken : ℕ → List ℕ → List ℕ → Memory → Option Token → Type 0
FirstToken p str ds m o =
    (r : Token) × (o ≡ some r)
    × IsToken (p + lead false ds str) (lead true ds (drop (lead false ds str) str))
        (drop (lead false ds str) str) m r

token_from-IsToken :
    (str ds : List ℕ) (s ct : ℕ) (m : Memory)
    → StringAt m s str
    → StringAt m ct ds
    → length str < 2 ^ 32
    → length ds < 0xffffffff
    → length ds ≢ 0
    → FirstToken s str ds m (token_from s ct m)
unfolding token_from FirstToken
token_from-IsToken str ds s ct m h k l n ne =
    let a = lead false ds str in
    let left = StringAt-drop a str s m h (lead-length false ds str) in
    let separators : (length ds == 0) ≡ false = ground arith in
    let fits = length-drop a str in
    let size = strlen-StringAt ds ct m k n in
    rw (size, separators, span_loop-lead str ds addresses false s ct m h k l, size)
      (token_at (drop a str) ds (s + a) ct m left k (omega arith))

-- `strtok`, of a string at the address that it is given or, for the pointer NULL, that the last call left,
-- and of separators, returns: behind the separators at the front it finds no word, at the end of the
-- string, or a word up to the next separator, which it makes a string, and where to go on behind it.
pub strtok-IsToken :
    (str ds : List ℕ) (saved s p ct : ℕ) (m : Memory)
    → p ≡ (if s == 0 then saved else s)
    → p ≢ 0
    → StringAt m p str
    → StringAt m ct ds
    → length str < 2 ^ 32
    → length ds < 0xffffffff
    → length ds ≢ 0
    → FirstToken p str ds m (strtok saved s ct m)
unfolding strtok FirstToken
strtok-IsToken str ds saved s p ct m e ne h k l n some_ds =
    let r = token_from-IsToken str ds p ct m h k l n some_ds in
    elim (Bool-cases (s == 0)) [
      | inl null ↦
          let same : p ≡ saved = e ∙ rw null refl in
          let more : (saved == 0) ≡ false = ground arith in
          rw (null, more) (subst (λ q. FirstToken p str ds m (token_from q ct m)) same r)
      | inr given ↦
          let same : p ≡ s = e ∙ rw given refl in
          rw given (subst (λ q. FirstToken p str ds m (token_from q ct m)) same r)
    ]
