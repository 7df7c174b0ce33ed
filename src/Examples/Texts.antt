-- ===== src/Examples/Texts.antt =====
-- include/string.h: the theorems at concrete strings in memory.
use linux_0_01raf.Prelude.{
  ℕ, ◌≡◌, ◌↔◌, refl, true, false, List, [], ◌∷◌, arith, some, get_or, if◌then◌else◌, ◌==◌,
}
use linux_0_01raf.Prelude.Int.{pos, negsuc}
use linux_0_01raf.Strings.{Memory, memmove, memcpy, movsb, movsb_down, memcmp}
use linux_0_01raf.Strings.Search.{
  strcmp, strstr, strtok, strchr, strchr_loop, strrchr, strrchr_loop,
}
use linux_0_01raf.Strings.Blocks.{IsCopy, memmove-IsCopy}
use linux_0_01raf.Strings.Contents.{StringAt}
use linux_0_01raf.Strings.Order.{order, strcmp-order}
use linux_0_01raf.Strings.Substring.{is_prefix, found, strstr-found}
use linux_0_01raf.Strings.Tokens.{FirstToken, strtok-IsToken}

-- "/usr/bin" at 10, "/" at 20 and "bin" at 30
abbrev memory : Memory
memory a =
    get_or
      (0 ∷ 0 ∷ 0 ∷ 0 ∷ 0 ∷ 0 ∷ 0 ∷ 0 ∷ 0 ∷ 0 ∷ 47 ∷ 117 ∷ 115 ∷ 114 ∷ 47 ∷ 98 ∷ 105 ∷ 110 ∷ 0 ∷ 0
        ∷ 47 ∷ 0 ∷ 0 ∷ 0 ∷ 0 ∷ 0 ∷ 0 ∷ 0 ∷ 0 ∷ 0 ∷ 98 ∷ 105 ∷ 110 ∷ 0 ∷ [])
      a 0

abbrev path : List ℕ
path = 47 ∷ 117 ∷ 115 ∷ 114 ∷ 47 ∷ 98 ∷ 105 ∷ 110 ∷ []

abbrev bin : List ℕ
bin = 98 ∷ 105 ∷ 110 ∷ []

path-StringAt : StringAt memory 10 path
unfolding StringAt
path-StringAt = ground arith

slash-StringAt : StringAt memory 20 (47 ∷ [])
unfolding StringAt
slash-StringAt = ground arith

bin-StringAt : StringAt memory 30 bin
unfolding StringAt
bin-StringAt = ground arith

memmove-IsCopy_example : IsCopy 12 10 8 memory (memmove 12 10 8 memory)
memmove-IsCopy_example = memmove-IsCopy 12 10 8 memory

moved : memmove 12 10 8 memory 19 ≡ 110
unfolding memmove memcpy movsb movsb_down
moved = refl

strcmp-order_example :
    (strcmp 10 30 memory ≡ some (order path bin)) × ((order path bin ≡ pos 0) ↔ (path ≡ bin))
strcmp-order_example = strcmp-order path bin 10 30 memory path-StringAt bin-StringAt (omega arith)

strstr-found_example : strstr 10 30 memory ≡ some (found bin 10 path)
strstr-found_example =
    strstr-found path bin 10 30 memory path-StringAt bin-StringAt (omega arith) (omega arith)

bin_found : found bin 10 path ≡ 15
unfolding found is_prefix
bin_found = refl

strtok-IsToken_example : FirstToken 10 path (47 ∷ []) memory (strtok 0 10 20 memory)
strtok-IsToken_example =
    strtok-IsToken path (47 ∷ []) 0 10 10 20 memory refl (omega arith) path-StringAt slash-StringAt
      (omega arith) (omega arith) (omega arith)

-- bytes are compared as signed, the second block's with the first's
signed_bytes : memcmp true false 0 1 1 (λ a. if a == 0 then 128 else 127) ≡ negsuc 0
unfolding memcmp
signed_bytes = refl

-- with the count 0 the answer is the flags'
no_bytes : memcmp false false 10 20 0 memory ≡ negsuc 0
unfolding memcmp
no_bytes = refl

slash_found : strchr 11 47 memory ≡ some 14
unfolding strchr strchr_loop
slash_found = refl

last_slash : strrchr 10 47 memory ≡ some 14
unfolding strrchr strrchr_loop
last_slash = refl
