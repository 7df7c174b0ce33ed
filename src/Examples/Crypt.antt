-- ===== src/Examples/Crypt.antt =====
-- kernel/sys.c and kernel/mktime.c: the theorems at concrete keys, blocks and times.
use linux_0_01raf.Prelude.{ℕ, ◌≡◌, ◌≤◌, ◌<◌, ◌^◌, ◌%◌, refl, true, List, [], ◌∷◌, arith, get_or}
use linux_0_01raf.Prelude.Count.{IsPermBelow}
use linux_0_01raf.Crypt.Sort.{char_le, strlen, index_at}
use linux_0_01raf.Crypt.Transpose.{sorted_key, buffer_encr, buffer_decr}
use linux_0_01raf.Crypt.Transpose.Key.{small_letter, key_order}
use linux_0_01raf.Crypt.Transpose.RoundTrip.{buffer_decr-buffer_encr}
use linux_0_01raf.Mktime.{Tm, kernel_mktime}
use linux_0_01raf.Mktime.Calendar.{seconds_of, kernel_mktime-seconds_of}

-- "bCa"
abbrev key : List ℕ
key = 98 ∷ 67 ∷ 97 ∷ 0 ∷ []

abbrev block : List ℕ
block = 1 ∷ 2 ∷ 3 ∷ 4 ∷ 5 ∷ 6 ∷ 7 ∷ []

buffer_decr-buffer_encr_example : buffer_decr key (buffer_encr key block 7) 7 ≡ block
buffer_decr-buffer_encr_example = buffer_decr-buffer_encr key block 7 refl

key_order_example :
    IsPermBelow (strlen key) (sorted_key key).index_array
    × ((a b : ℕ)
        → a ≤ b
        → b < strlen key
        → char_le
            (small_letter (get_or key (index_at (sorted_key key) a) 0))
            (small_letter (get_or key (index_at (sorted_key key) b) 0))
          ≡ true)
key_order_example = key_order key

-- 29 February 2020, 12:30:45
abbrev leap_day : Tm
leap_day = record {
  tm_sec = 45;
  tm_min = 30;
  tm_hour = 12;
  tm_mday = 29;
  tm_mon = 1;
  tm_year = 120;
}

kernel_mktime-seconds_of_example : kernel_mktime leap_day ≡ seconds_of 50 leap_day % 2 ^ 32
kernel_mktime-seconds_of_example =
    kernel_mktime-seconds_of 50 leap_day refl (omega arith) (omega arith) (omega arith)

-- the two sides, run
leap_day_seconds : kernel_mktime leap_day ≡ 1582979445
unfolding kernel_mktime
leap_day_seconds = refl
