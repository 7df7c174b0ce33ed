-- ===== src/Mktime.antt =====
-- kernel/mktime.c: seconds since 1970 from a broken-down time.
pub mod Calendar
use linux_0_01raf.Prelude.{
  ℕ, ◌+◌, ◌-◌, ◌*◌, ◌/◌, ◌%◌, ◌^◌, List, [], ◌∷◌, ◌&&◌, not, ltb, ◌==◌, if◌then◌else◌, get_or,
}

-- `struct tm` of include/time.h, as far as the kernel fills it. The fields are not negative, and
-- `tm_year` is at least 70: the source says that it does not care about earlier years.
pub record Tm : Type 0 where
  pub tm_sec : ℕ
  pub tm_min : ℕ
  pub tm_hour : ℕ
  pub tm_mday : ℕ
  pub tm_mon : ℕ
  pub tm_year : ℕ

abbrev pub minute : ℕ
minute = 60

abbrev pub hour : ℕ
hour = 60 * minute

abbrev pub day : ℕ
day = 24 * hour

abbrev pub year_secs : ℕ
year_secs = 365 * day

-- the table `month`, for a leap year
abbrev pub month : List ℕ
month =
    0
    ∷ day * 31
    ∷ day * (31 + 29)
    ∷ day * (31 + 29 + 31)
    ∷ day * (31 + 29 + 31 + 30)
    ∷ day * (31 + 29 + 31 + 30 + 31)
    ∷ day * (31 + 29 + 31 + 30 + 31 + 30)
    ∷ day * (31 + 29 + 31 + 30 + 31 + 30 + 31)
    ∷ day * (31 + 29 + 31 + 30 + 31 + 30 + 31 + 31)
    ∷ day * (31 + 29 + 31 + 30 + 31 + 30 + 31 + 31 + 30)
    ∷ day * (31 + 29 + 31 + 30 + 31 + 30 + 31 + 31 + 30 + 31)
    ∷ day * (31 + 29 + 31 + 30 + 31 + 30 + 31 + 31 + 30 + 31 + 30)
    ∷ []

-- The result is a `long` of 32 bits: its bit pattern.
unfoldable pub kernel_mktime : Tm → ℕ
kernel_mktime tm =
    let year : ℕ = tm.tm_year - 70 in
    let res : ℕ = year_secs * year + day * ((year + 1) / 4) in
    let res : ℕ = res + get_or month tm.tm_mon 0 in
    let res : ℕ = if ltb 1 tm.tm_mon && not ((year + 2) % 4 == 0) then res - day else res in
    let res : ℕ = res + day * (tm.tm_mday - 1) in
    let res : ℕ = res + hour * tm.tm_hour in
    let res : ℕ = res + minute * tm.tm_min in (res + tm.tm_sec) % 2 ^ 32
