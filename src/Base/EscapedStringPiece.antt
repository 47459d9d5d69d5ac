-- ===== src/Base/EscapedStringPiece.antt =====
-- aoba/base/escaped_string_piece.{h,cc}: a string written with escapes between two delimiters.
use aoba.Prelude.{
  ℕ, ◌+◌, ◌-◌, ◌/◌, ◌%◌, ◌≤◌, ◌<◌, Bool, true, false, ◌&&◌, List, [], ◌∷◌, ◌++◌, ◌≡◌, refl,
  if◌then◌else◌, arith, ltb, leb, ◌==◌,
}

-- `EscapedStringPiece16`; the strings are UTF-16 code units, and what is written is characters.
pub record EscapedStringPiece : Type 0 where
  pub text : List ℕ
  pub delimiter : ℕ
  pub max_length : ℕ

-- The entries 8 to 13 of `kEscapes`.
abbrev escape_letter : ℕ → ℕ
escape_letter c =
    if c == 8
    then b'b'
    else if c == 9
    then b't'
    else if c == 10
    then b'n'
    else if c == 11
    then b'v'
    else if c == 12
    then b'f'
    else b'r'

-- An entry of `kHexDigits`.
unfoldable pub hex_digit : ℕ → ℕ
hex_digit n = if ltb n 10 then b'0' + n else b'A' + (n - 10)

-- What one code unit is written as: the body of the loop behind the test of the length.
unfoldable pub write_char : ℕ → ℕ → List ℕ
write_char delimiter c =
    if c == delimiter
    then b'\\' ∷ delimiter ∷ []
    else if c == b'\\'
    then b'\\' ∷ b'\\' ∷ []
    else if leb 8 c && leb c 13
    then b'\\' ∷ escape_letter c ∷ []
    else if leb 32 c && leb c 126
    then c ∷ []
    else b'\\'
      ∷ b'u'
      ∷ hex_digit ((c / 4096) % 16)
      ∷ hex_digit ((c / 256) % 16)
      ∷ hex_digit ((c / 16) % 16)
      ∷ hex_digit (c % 16)
      ∷ []

abbrev dots : List ℕ
dots = b'.' ∷ b'.' ∷ b'.' ∷ []

-- The loop, with its counter.
unfoldable pub write_chars : (delimiter max_length counter : ℕ) → List ℕ → List ℕ
write_chars delimiter max_length counter [] = []
write_chars delimiter max_length counter (c ∷ cs) =
    if counter == max_length
    then dots
    else write_char delimiter c ++ write_chars delimiter max_length (counter + 1) cs

-- `operator<<`.
unfoldable pub write : EscapedStringPiece → List ℕ
write escaped =
    escaped.delimiter ∷ write_chars escaped.delimiter escaped.max_length 0 escaped.text
    ++ (escaped.delimiter ∷ [])

abbrev pub IsPrintable : ℕ → Type 0
IsPrintable c = (32 ≤ c) × (c ≤ 126)

abbrev pub IsPrintableText : List ℕ → Type 0
IsPrintableText [] = Unit {0}
IsPrintableText (c ∷ cs) = IsPrintable c × IsPrintableText cs

hex_digit-IsPrintable : (n : ℕ) → n < 16 → IsPrintable (hex_digit n)
unfolding hex_digit
hex_digit-IsPrintable n h = ground arith

escape_letter-IsPrintable : (c : ℕ) → IsPrintable (escape_letter c)
escape_letter-IsPrintable c = ground arith

IsPrintableText-append :
    (xs ys : List ℕ) → IsPrintableText xs → IsPrintableText ys → IsPrintableText (xs ++ ys)
IsPrintableText-append [] ys h k = k
IsPrintableText-append (x ∷ xs) ys h k = (h.0, IsPrintableText-append xs ys h.1 k)

write_char-IsPrintable :
    (delimiter c : ℕ) → IsPrintable delimiter → IsPrintableText (write_char delimiter c)
unfolding write_char
write_char-IsPrintable delimiter c h =
    choice (c == delimiter) (c == b'\\') (leb 8 c && leb c 13) (leb 32 c && leb c 126)
      (λ e. ground arith)
  where
    choice :
        (same slash control plain : Bool)
        → (plain ≡ true → IsPrintable c)
        → IsPrintableText (
            if same
            then b'\\' ∷ delimiter ∷ []
            else if slash
            then b'\\' ∷ b'\\' ∷ []
            else if control
            then b'\\' ∷ escape_letter c ∷ []
            else if plain
            then c ∷ []
            else b'\\'
              ∷ b'u'
              ∷ hex_digit ((c / 4096) % 16)
              ∷ hex_digit ((c / 256) % 16)
              ∷ hex_digit ((c / 16) % 16)
              ∷ hex_digit (c % 16)
              ∷ [])
    choice true slash control plain k = ((omega arith, omega arith), (h, tt))
    choice false true control plain k =
        ((omega arith, omega arith), ((omega arith, omega arith), tt))
    choice false false true plain k =
        ((omega arith, omega arith), (escape_letter-IsPrintable c, tt))
    choice false false false true k = (k refl, tt)
    choice false false false false k = (
      (omega arith, omega arith),
      (
        (omega arith, omega arith),
        (
          hex_digit-IsPrintable ((c / 4096) % 16) (omega arith),
          (
            hex_digit-IsPrintable ((c / 256) % 16) (omega arith),
            (
              hex_digit-IsPrintable ((c / 16) % 16) (omega arith),
              (hex_digit-IsPrintable (c % 16) (omega arith), tt),
            ),
          ),
        ),
      ),
    )

write_chars-IsPrintable :
    (delimiter max_length counter : ℕ) (text : List ℕ)
    → IsPrintable delimiter
    → IsPrintableText (write_chars delimiter max_length counter text)
unfolding write_chars
write_chars-IsPrintable delimiter max_length counter [] h = tt
write_chars-IsPrintable delimiter max_length counter (c ∷ cs) h = choice (counter == max_length) (
    IsPrintableText-append (write_char delimiter c)
      (write_chars delimiter max_length (counter + 1) cs) (write_char-IsPrintable delimiter c h)
      (write_chars-IsPrintable delimiter max_length (counter + 1) cs h))
  where
    choice :
        (b : Bool)
        → IsPrintableText
            (write_char delimiter c ++ write_chars delimiter max_length (counter + 1) cs)
        → IsPrintableText (
            if b
            then dots
            else write_char delimiter c ++ write_chars delimiter max_length (counter + 1) cs)
    choice true k =
        ((omega arith, omega arith), ((omega arith, omega arith), ((omega arith, omega arith), tt)))
    choice false k = k

-- Whatever code units a string has, it is written in printable ASCII characters, where the
-- delimiter is one.
pub write-IsPrintable :
    (escaped : EscapedStringPiece) → IsPrintable escaped.delimiter → IsPrintableText (write escaped)
unfolding write
write-IsPrintable escaped h = (
  h,
  IsPrintableText-append (write_chars escaped.delimiter escaped.max_length 0 escaped.text)
      (escaped.delimiter ∷ [])
      (write_chars-IsPrintable escaped.delimiter escaped.max_length 0 escaped.text h) (h, tt),
)
