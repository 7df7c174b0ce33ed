-- ===== src/Tty/Line.antt =====
-- kernel/tty_io.c: the editing of a line, on a list of characters.
use linux_0_01raf.Prelude.{
  ℕ, ◌≡◌, ◌∙◌, ap, sym, refl, inl, inr, Bool, true, false, not, ◌&&◌, ◌||◌, none, some, List, [],
  ◌∷◌, ◌++◌, ◌==◌, if◌then◌else◌, Bool-cases,
}
use linux_0_01raf.Tty.{
  Termios, i_uclc, l_isig, l_canon, is_erase, is_eof, is_start, is_stop, is_intr, tolower,
  map_newline,
}

-- a character that ends a line
unfoldable pub ends_line : Termios → ℕ → Bool
ends_line t c = (c == 10) || is_eof t c

-- a line without its last character, unless that ends a line
unfoldable pub rub : Termios → List ℕ → List ℕ
rub t [] = []
rub t (c ∷ []) = if ends_line t c then c ∷ [] else []
rub t (c ∷ d ∷ l) = c ∷ rub t (d ∷ l)

unfoldable pub add_char : Termios → ℕ → List ℕ → List ℕ
add_char t c l = if not (l_isig t) && is_intr t c then l else l ++ (c ∷ [])

unfoldable pub edit_line : Termios → ℕ → List ℕ → List ℕ
edit_line t c l =
    if l_canon t
    then if is_erase t c
      then rub t l
      else if is_stop t c
      then l
      else if is_start t c
      then l
      else add_char t c l
    else add_char t c l

-- one typed character, on the line as a list
unfoldable pub type_char : Termios → ℕ → List ℕ → List ℕ
type_char t c l = elim (map_newline t c) [
  | none ↦ l
  | some d ↦ edit_line t (if i_uclc t then tolower d else d) l
]

unfoldable pub type_chars : Termios → List ℕ → List ℕ → List ℕ
type_chars t [] l = l
type_chars t (c ∷ cs) l = type_chars t cs (type_char t c l)

rub-snoc :
    (t : Termios) (l : List ℕ) (c : ℕ)
    → rub t (l ++ (c ∷ [])) ≡ (if ends_line t c then l ++ (c ∷ []) else l)
unfolding rub
rub-snoc t [] c = refl
rub-snoc t (d ∷ []) c = elim (Bool-cases (ends_line t c)) [
  | inl e ↦ rw (rub, e) refl
  | inr e ↦ rw (rub, e) refl
]
rub-snoc t (d ∷ e ∷ l) c = ap (◌∷◌ d) (rub-snoc t (e ∷ l) c) ∙ at
  where
    at :
        d ∷ (if ends_line t c then e ∷ l ++ (c ∷ []) else e ∷ l)
        ≡ (if ends_line t c then d ∷ e ∷ l ++ (c ∷ []) else d ∷ e ∷ l)
    at = elim (Bool-cases (ends_line t c)) [ inl q ↦ rw q refl | inr q ↦ rw q refl ]

pub rub-ends :
    (t : Termios) (m l : List ℕ) (c : ℕ) → m ≡ l ++ (c ∷ []) → ends_line t c ≡ true → m ≡ rub t m
rub-ends t m l c e f =
    let chosen : (if ends_line t c then l ++ (c ∷ []) else l) ≡ l ++ (c ∷ []) = rw f refl in
    sym (ap (rub t) e ∙ rub-snoc t l c ∙ chosen ∙ sym e)

pub rub-drops :
    (t : Termios) (m l : List ℕ) (c : ℕ) → m ≡ l ++ (c ∷ []) → ends_line t c ≡ false → l ≡ rub t m
rub-drops t m l c e f =
    let chosen : (if ends_line t c then l ++ (c ∷ []) else l) ≡ l = rw f refl in
    sym (ap (rub t) e ∙ rub-snoc t l c ∙ chosen)

-- In canonical mode a character that is kept, and is no line's end, and then the erase character
-- leave the line as it was, whatever follows.
pub type_chars-erase :
    (t : Termios) (c e : ℕ) (cs l : List ℕ)
    → l_canon t ≡ true
    → type_char t c l ≡ l ++ (c ∷ [])
    → ends_line t c ≡ false
    → map_newline t e ≡ some e
    → i_uclc t ≡ false
    → is_erase t e ≡ true
    → type_chars t (c ∷ e ∷ cs) l ≡ type_chars t cs l
unfolding type_chars type_char edit_line
type_chars-erase t c e cs l canon kept ordinary plain case er =
    ap (type_chars t cs)
      (erased (type_char t c l) ∙ sym (rub-drops t (type_char t c l) l c kept ordinary))
  where
    erased : (m : List ℕ) → type_char t e m ≡ rub t m
    erased m = rw (type_char, plain) (rw case (rw (edit_line, canon) (rw er refl)))
