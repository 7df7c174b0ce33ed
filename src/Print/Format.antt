-- ===== src/Print/Format.antt =====
-- kernel/vsprintf.c: vsprintf, on a format without its zero byte. An argument is a 32-bit word or the text that a
-- pointer points to; a missing argument, or one of the other kind, is `none`.
use linux_0_01raf.Prelude.{
  ℕ, zero, suc, ◌-◌, ◌%◌, ◌^◌, ◌||◌, Option, none, some, List, [], ◌∷◌, ◌++◌, ltb, ◌==◌,
  if◌then◌else◌, length, replicate, take,
}
use mathlib.Core.Option
use linux_0_01raf.Prelude.Int.{ℤ, pos, negsuc}
use linux_0_01raf.Sched.{or_bit}
use linux_0_01raf.Print.{is_digit, skip_atoi, has_left, number}

infixl 5 ◌>>=◌
abbrev ◌>>=◌ {ℓ κ} : {A : Type ℓ} {B : Type κ} → Option A → (A → Option B) → Option B
some a >>= f = f a
none >>= f = none

pub data Arg : Type 0 where
  word : ℕ → Arg
  text : List ℕ → Arg

-- what is written, the arguments that are left, and what %n has stored at its pointers
pub record Output : Type 0 where
  pub out : List ℕ
  pub args : List Arg
  pub counts : List (ℕ × ℕ)

-- one conversion, as far as it is read
pub record Field : Type 0 where
  pub flags : ℕ
  pub field_width : ℤ
  pub precision : ℤ
  pub args : List Arg
  pub fmt : List ℕ

abbrev pub int : ℕ → ℤ
int w = if ltb w (2 ^ 31) then pos w else negsuc (2 ^ 32 - w - 1)

unfoldable pub read_flags : ℕ → List ℕ → ℕ × List ℕ
read_flags flags [] = (flags, [])
read_flags flags (c ∷ cs) =
    let left = read_flags (or_bit flags 4) cs in
    let plus = read_flags (or_bit flags 2) cs in
    let space = read_flags (or_bit flags 3) cs in
    let special = read_flags (or_bit flags 5) cs in
    let zeropad = read_flags (or_bit flags 0) cs in
    if c == 45
    then left
    else if c == 43
    then plus
    else if c == 32
    then space
    else if c == 35
    then special
    else if c == 48
    then zeropad
    else (flags, c ∷ cs)

unfoldable pub next_word : List Arg → Option (ℕ × List Arg)
next_word [] = none
next_word (word w ∷ args) = some (w, args)
next_word (text s ∷ args) = none

-- a width from the arguments; the `*` is not skipped
unfoldable pub star_width : Field → ℤ → List Arg → Field
star_width f (pos w) args = record f { field_width = pos w; args = args }
star_width f (negsuc w) args = record f {
  field_width = pos (suc w);
  flags = or_bit f.flags 4;
  args = args;
}

unfoldable pub read_width : Field → Option Field
read_width f = elim f.fmt [
  | [] ↦ some f
  | c ∷ cs ↦
      if is_digit c
      then (let n = skip_atoi (c ∷ cs) in some (record f { field_width = int n.0; fmt = n.1 }))
      else if c == 42
      then Option.map (λ a. star_width f (int a.0) a.1) (next_word f.args)
      else some f
]

-- if (precision < 0) precision = 0
unfoldable pub not_negative : ℤ → ℤ
not_negative (pos p) = pos p
not_negative (negsuc p) = pos 0

-- behind the dot
unfoldable pub dot_precision : Field → Option Field
dot_precision f = elim f.fmt [
  | [] ↦ some (record f { precision = pos 0 })
  | c ∷ cs ↦
      if is_digit c
      then (let n = skip_atoi (c ∷ cs) in
          some (record f { precision = not_negative (int n.0); fmt = n.1 }))
      else if c == 42
      then Option.map (λ a. record f { precision = not_negative (int a.0); args = a.1 })
          (next_word f.args)
      else some (record f { precision = pos 0 })
]

unfoldable pub read_precision : Field → Option Field
read_precision f = elim f.fmt [
  | [] ↦ some f
  | c ∷ cs ↦ if c == 46 then dot_precision (record f { fmt = cs }) else some f
]

unfoldable pub skip_qualifier : Field → Field
skip_qualifier f = elim f.fmt [
  | [] ↦ f
  | c ∷ cs ↦ if (c == 104) || ((c == 108) || (c == 76)) then record f { fmt = cs } else f
]

abbrev pub width : ℤ → ℕ
width (pos w) = w
width (negsuc w) = 0

-- text in a field: spaces before it or behind it
unfoldable pub padded : Field → ℕ → List ℕ → List ℕ
padded f pad s = if has_left f.flags then s ++ replicate pad 32 else replicate pad 32 ++ s

-- if (len > precision) len = precision
unfoldable pub cut_text : ℤ → List ℕ → List ℕ
cut_text (pos p) s = take p s
cut_text (negsuc p) s = s

unfoldable pub put_number : ℕ → Field → Output → Option Output
put_number base f o = elim (next_word f.args) [
  | none ↦ none
  | some (w, args) ↦
      Option.map (λ t. record o { out = o.out ++ t; args = args })
        (number w base f.field_width f.precision f.flags)
]

unfoldable pub put_text : Field → Output → Option Output
put_text f o = elim f.args [
  | [] ↦ none
  | word w ∷ args ↦ none
  | text s ∷ args ↦
      let t = cut_text f.precision s in
      some (record o { out = o.out ++ padded f (width f.field_width - length t) t; args = args })
]

-- %p: without a width, eight digits with zeros before them
unfoldable pub pointer_field : Field → ℤ → Field
pointer_field f (negsuc zero) = record f { field_width = pos 8; flags = or_bit f.flags 0 }
pointer_field f w = f

-- switch (*fmt), on the character of the conversion
unfoldable pub convert : ℕ → Field → Output → Option Output
convert c f o =
    if c == 99
    then Option.map
        (λ a. record o {
          out = o.out ++ padded f (width f.field_width - 1) (a.0 % 256 ∷ []);
          args = a.1;
        })
        (next_word f.args)
    else if c == 115
    then put_text f o
    else if c == 111
    then put_number 8 f o
    else if c == 112
    then put_number 16 (pointer_field f f.field_width) o
    else if c == 120
    then put_number 16 (record f { flags = or_bit f.flags 6 }) o
    else if c == 88
    then put_number 16 f o
    else if (c == 100) || (c == 105)
    then put_number 10 (record f { flags = or_bit f.flags 1 }) o
    else if c == 117
    then put_number 10 f o
    else if c == 110
    then Option.map (λ a. record o { args = a.1; counts = (a.0, length o.out) ∷ o.counts })
        (next_word f.args)
    else some
        (record o { out = o.out ++ (if c == 37 then 37 ∷ [] else 37 ∷ c ∷ []); args = f.args })

-- What stands behind a `%`: the format that is left, and the output. At the end of the format the `%` is written.
unfoldable pub directive : List ℕ → Output → Option (List ℕ × Output)
directive fmt o = do
  let flagged = read_flags 0 fmt
  let start : Field = record {
    flags = flagged.0;
    field_width = negsuc 0;
    precision = negsuc 0;
    args = o.args;
    fmt = flagged.1;
  }
  wide ← read_width start
  precise ← read_precision wide
  let f = skip_qualifier precise
  elim f.fmt [
    | [] ↦ some ([], record o { out = o.out ++ (37 ∷ []); args = f.args })
    | c ∷ cs ↦ Option.map (λ p. (cs, p)) (convert c f o)
  ]

-- Each round takes at least a byte of the format: its length is enough fuel.
unfoldable pub format_loop : ℕ → List ℕ → Output → Option Output
format_loop fuel [] o = some o
format_loop zero (c ∷ cs) o = none
format_loop (suc fuel) (c ∷ cs) o =
    let plain = format_loop fuel cs (record o { out = o.out ++ (c ∷ []) }) in
    let converted : Option Output = elim (directive cs o) [
      | none ↦ none
      | some (rest, p) ↦ format_loop fuel rest p
    ] in
    if c == 37 then converted else plain

-- what is written to `buf` before its zero byte, and at the pointers of %n
unfoldable pub vsprintf : List ℕ → List Arg → Option Output
vsprintf fmt args = format_loop (length fmt) fmt (record { out = []; args = args; counts = [] })
