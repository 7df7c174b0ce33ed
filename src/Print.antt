-- ===== src/Print.antt =====
-- kernel/vsprintf.c: numbers as text, and the format strings. What is written is a list of bytes; an `int` is its
-- 32-bit pattern, but for the width and the precision of a field.
pub mod Format
pub mod RoundTrip
use linux_0_01raf.Prelude.{
  ℕ, zero, suc, ◌+◌, ◌-◌, ◌*◌, ◌/◌, ◌%◌, ◌^◌, Bool, true, false, not, ◌&&◌, ◌||◌, Option, none,
  some, List, [], ◌∷◌, ◌++◌, ltb, leb, ◌==◌, if◌then◌else◌, length, replicate,
}
use linux_0_01raf.Prelude.Int.{ℤ, pos, negsuc}

abbrev pub is_digit : ℕ → Bool
is_digit c = leb 48 c && leb c 57

-- i=i*10 + *((*s)++) - '0', from the value `i` on: the value, and the rest of the text
unfoldable pub skip_digits : ℕ → List ℕ → ℕ × List ℕ
skip_digits i [] = (i, [])
skip_digits i (c ∷ cs) =
    let rest = skip_digits ((i * 10 + c - 48) % 2 ^ 32) cs in
    if is_digit c then rest else (i, c ∷ cs)

unfoldable pub skip_atoi : List ℕ → ℕ × List ℕ
skip_atoi s = skip_digits 0 s

abbrev pub has : ℕ → ℕ → Bool
has type k = type / 2 ^ k % 2 == 1

abbrev pub has_zeropad : ℕ → Bool
has_zeropad type = has type 0

abbrev pub has_sign : ℕ → Bool
has_sign type = has type 1

abbrev pub has_plus : ℕ → Bool
has_plus type = has type 2

abbrev pub has_space : ℕ → Bool
has_space type = has type 3

abbrev pub has_left : ℕ → Bool
has_left type = has type 4

abbrev pub has_special : ℕ → Bool
has_special type = has type 5

abbrev pub has_small : ℕ → Bool
has_small type = has type 6

-- digits[d]
unfoldable pub digit : ℕ → ℕ → ℕ
digit type d = if ltb d 10 then 48 + d else if has_small type then 87 + d else 55 + d

-- while (num!=0) tmp[i++]=digits[do_div(num,base)]: a base of at least 2 takes at most 32 rounds
unfoldable pub digits_loop : ℕ → ℕ → ℕ → ℕ → List ℕ
digits_loop zero type base num = []
digits_loop (suc n) type base num =
    let rest = digits_loop n type base (num / base) in
    if num == 0 then [] else digit type (num % base) ∷ rest

-- while(i-->0) *str++ = tmp[i]
unfoldable pub reversed : List ℕ → List ℕ → List ℕ
reversed [] out = out
reversed (d ∷ ds) out = reversed ds (d ∷ out)

unfoldable pub sign_of : ℕ → Bool → List ℕ
sign_of type negative =
    if negative
    then 45 ∷ []
    else if has_plus type
    then 43 ∷ []
    else if has_space type
    then 32 ∷ []
    else []

unfoldable pub prefix_of : ℕ → ℕ → List ℕ
prefix_of type base =
    if not (has_special type)
    then []
    else if base == 8
    then 48 ∷ []
    else if base == 16
    then 48 ∷ digit type 33 ∷ []
    else []

-- if (i>precision) precision=i
unfoldable pub at_least : ℕ → ℤ → ℕ
at_least i (pos p) = if ltb p i then i else p
at_least i (negsuc p) = i

-- how many rounds `while(size-->0)` has, for what is left of the size
unfoldable pub room : ℤ → ℕ → ℕ
room (pos size) used = size - used
room (negsuc size) used = 0

-- The three loops on `size`: the first that is reached leaves none of it for the others.
unfoldable pub number : ℕ → ℕ → ℤ → ℤ → ℕ → Option (List ℕ)
number num base size precision type =
    let left = has_left type in
    let zeropad = has_zeropad type && not left in
    let negative = has_sign type && leb (2 ^ 31) num in
    let magnitude = if negative then 2 ^ 32 - num else num in
    let sign = sign_of type negative in
    let prefix = prefix_of type base in
    let tmp = if magnitude == 0 then 48 ∷ [] else digits_loop 32 type base magnitude in
    let width = at_least (length tmp) precision in
    let pad = room size (length sign + length prefix + width) in
    let body =
      replicate (if zeropad then pad else 0) 48
      ++ (replicate (width - length tmp) 48
          ++ reversed tmp (replicate (if left then pad else 0) 32)) in
    if ltb base 2 || ltb 36 base
    then none
    else some (replicate (if zeropad || left then 0 else pad) 32 ++ (sign ++ (prefix ++ body)))
