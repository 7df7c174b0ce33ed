-- ===== src/Examples/Prints.antt =====
-- kernel/vsprintf.c: numbers and formats at concrete inputs.
use linux_0_01raf.Prelude.{ℕ, ◌≡◌, refl, List, [], ◌∷◌, arith, some}
use mathlib.Core.Option
use linux_0_01raf.Prelude.Int.{pos, negsuc}
use linux_0_01raf.Print.{
  skip_digits, skip_atoi, digit, digits_loop, reversed, sign_of, prefix_of, at_least, room, number,
}
use linux_0_01raf.Print.Format.{
  word, text, read_flags, next_word, star_width, read_width, read_precision, skip_qualifier, padded,
  cut_text, put_number, put_text, convert, directive, format_loop, vsprintf,
}
use linux_0_01raf.Print.RoundTrip.{read, read-number}

-- -5, in a field of 6 with zeros before it
read-number_example :
    (out : List ℕ) × (number 4294967291 10 (pos 6) (negsuc 0) 3 ≡ some out)
    × (read out ≡ 4294967291)
read-number_example = read-number 4294967291 (pos 6) (negsuc 0) 3 (omega arith)

-- "-00005"
minus_five : number 4294967291 10 (pos 6) (negsuc 0) 3 ≡ some (45 ∷ 48 ∷ 48 ∷ 48 ∷ 48 ∷ 53 ∷ [])
unfolding number digits_loop reversed digit sign_of prefix_of at_least room
minus_five = refl

-- "%*d" writes "%*d" and takes one argument, as the `*` is not skipped
star :
    Option.map (λ o. o.out) (vsprintf (37 ∷ 42 ∷ 100 ∷ []) (word 5 ∷ word 7 ∷ []))
    ≡ some (37 ∷ 42 ∷ 100 ∷ [])
unfolding vsprintf format_loop directive read_flags read_width star_width next_word read_precision
    skip_qualifier convert
star = refl

-- "<%-4s|%x>" of "ab" and 255
fields :
    Option.map
      (λ o. o.out)
      (vsprintf
        (60 ∷ 37 ∷ 45 ∷ 52 ∷ 115 ∷ 124 ∷ 37 ∷ 120 ∷ 62 ∷ [])
        (text (97 ∷ 98 ∷ []) ∷ word 255 ∷ []))
    ≡ some (60 ∷ 97 ∷ 98 ∷ 32 ∷ 32 ∷ 124 ∷ 102 ∷ 102 ∷ 62 ∷ [])
unfolding vsprintf format_loop directive read_flags read_width star_width next_word read_precision
    skip_qualifier convert put_text padded cut_text put_number number digits_loop reversed digit
    sign_of prefix_of at_least room skip_atoi skip_digits
fields = refl
