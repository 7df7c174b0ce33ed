-- ===== src/Strings/Search.antt =====
-- include/string.h: the functions that compare strings and search in them.
use linux_0_01raf.Prelude.{
  ℕ, zero, suc, ◌+◌, ◌-◌, ◌%◌, Bool, true, false, not, Option, none, some, ltb, ◌==◌, if◌then◌else◌,
}
use mathlib.Core.Option
use linux_0_01raf.Prelude.Int.{ℤ, pos, negsuc}
use linux_0_01raf.Strings.{Memory, put, addresses, scasb, strlen}

-- sbbl %eax,%eax; orb $1,%al
abbrev pub below_or_above : Bool → ℤ
below_or_above carry = if carry then negsuc 0 else pos 1

unfoldable pub strcmp_loop : ℕ → ℕ → ℕ → Memory → Option ℤ
strcmp_loop zero cs ct m = none
strcmp_loop (suc fuel) cs ct m =
    let rest = strcmp_loop fuel (cs + 1) (ct + 1) m in
    if not (m cs == m ct)
    then some (below_or_above (ltb (m cs) (m ct)))
    else if m cs == 0
    then some (pos 0)
    else rest

unfoldable pub strcmp : ℕ → ℕ → Memory → Option ℤ
strcmp cs ct m = strcmp_loop addresses cs ct m

unfoldable pub strncmp : ℕ → ℕ → ℕ → Memory → ℤ
strncmp cs ct zero m = pos 0
strncmp cs ct (suc count) m =
    let rest = strncmp (cs + 1) (ct + 1) count m in
    if not (m cs == m ct)
    then below_or_above (ltb (m cs) (m ct))
    else if m cs == 0
    then pos 0
    else rest

unfoldable pub strchr_loop : ℕ → ℕ → ℕ → Memory → Option ℕ
strchr_loop zero s c m = none
strchr_loop (suc fuel) s c m =
    let rest = strchr_loop fuel (s + 1) c m in
    if m s == c then some s else if m s == 0 then some 0 else rest

unfoldable pub strchr : ℕ → ℕ → Memory → Option ℕ
strchr s c m = strchr_loop addresses s (c % 256) m

-- `res` is where the character stood last
unfoldable pub strrchr_loop : ℕ → ℕ → ℕ → ℕ → Memory → Option ℕ
strrchr_loop zero res s c m = none
strrchr_loop (suc fuel) res s c m =
    let now = if m s == c then s else res in
    let rest = strrchr_loop fuel now (s + 1) c m in if m s == 0 then some now else rest

unfoldable pub strrchr : ℕ → ℕ → Memory → Option ℕ
strrchr s c m = strrchr_loop addresses 0 s (c % 256) m

-- the byte is among the first `n` of the set at `ct`; the byte's own test has cleared the zero flag
abbrev pub among : ℕ → ℕ → ℕ → Memory → Bool
among n ct c m = (scasb n c ct false m).zf

-- the loop of strspn, strcspn, strpbrk and strtok: the address of the first byte that is zero, or that is in
-- the set or not as `wanted` says
unfoldable pub span_loop : ℕ → Bool → ℕ → ℕ → ℕ → Memory → Option ℕ
span_loop zero wanted n s ct m = none
span_loop (suc fuel) wanted n s ct m =
    let rest = span_loop fuel wanted n (s + 1) ct m in
    if m s == 0
    then some s
    else if among n ct (m s) m
    then (if wanted then some s else rest)
    else (if wanted then rest else some s)

unfoldable pub strspn : ℕ → ℕ → Memory → Option ℕ
strspn cs ct m = Option.map (λ s. s - cs) (span_loop addresses false (strlen ct m) cs ct m)

unfoldable pub strcspn : ℕ → ℕ → Memory → Option ℕ
strcspn cs ct m = Option.map (λ s. s - cs) (span_loop addresses true (strlen ct m) cs ct m)

unfoldable pub strpbrk : ℕ → ℕ → Memory → Option ℕ
strpbrk cs ct m =
    Option.map (λ s. if m s == 0 then 0 else s) (span_loop addresses true (strlen ct m) cs ct m)

-- repe cmpsb: whether all `n` bytes are the same, and the byte at `s` that was compared last
unfoldable pub cmpsb : ℕ → ℕ → ℕ → Memory → Bool × ℕ
cmpsb zero s ct m = (true, 1)
cmpsb (suc n) s ct m =
    let rest = cmpsb n (s + 1) (ct + 1) m in if m s == m ct then rest else (false, m s)

unfoldable pub strstr_loop : ℕ → ℕ → ℕ → ℕ → Memory → Option ℕ
strstr_loop zero n s ct m = none
strstr_loop (suc fuel) n s ct m =
    let rest = strstr_loop fuel n (s + 1) ct m in
    let run = cmpsb n s ct m in if run.0 then some s else if run.1 == 0 then some 0 else rest

unfoldable pub strstr : ℕ → ℕ → Memory → Option ℕ
strstr cs ct m = strstr_loop addresses (strlen ct m) cs ct m

-- what strtok returns, the pointer ___strtok, and memory
pub record Token : Type 0 where
  pub res : ℕ
  pub next : ℕ
  pub mem : Memory

abbrev pub no_token : Memory → Token
no_token m = record { res = 0; next = 0; mem = m }

-- from 3: on, for a token that begins at `start`
unfoldable pub cut : ℕ → ℕ → Memory → Token
cut start stop m =
    if m stop == 0
    then record { res = start; next = 0; mem = m }
    else record { res = start; next = stop + 1; mem = put stop 0 m }

unfoldable pub token_from : ℕ → ℕ → Memory → Option Token
token_from s ct m =
    let n = strlen ct m in
    if n == 0 then some (no_token m) else elim (span_loop addresses false n s ct m) [
      | none ↦ none
      | some start ↦
          if m start == 0
          then some (no_token m)
          else Option.map (λ stop. cut start stop m) (span_loop addresses true n start ct m)
    ]

-- a null pointer goes on where the last call stopped
unfoldable pub strtok : ℕ → ℕ → ℕ → Memory → Option Token
strtok saved s ct m =
    if not (s == 0)
    then token_from s ct m
    else if saved == 0
    then some (no_token m)
    else token_from saved ct m
