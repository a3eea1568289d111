-- ===== src/Source/Text.antt =====
-- src/source/mod.rs: the operations of `str` and of the number types that the parser of lines uses.
use telda.Prelude.{
  ℕ, ◌+◌, ◌*◌, ◌-◌, ◌/◌, ◌%◌, ◌^◌, List, [], ◌∷◌, ◌++◌, Bool, true, false, ◌&&◌, ◌||◌, Option, none,
  some, ◌==◌, ltb, leb, if◌then◌else◌,
}
use telda.Prelude.Int.{ℤ, pos, negsuc}
use telda.Source.{Text}

-- `strip_prefix` and `strip_suffix`
unfoldable pub strip_prefix : Text → Text → Option Text
strip_prefix [] s = some s
strip_prefix (p ∷ prefix) [] = none
strip_prefix (p ∷ prefix) (c ∷ s) = if p == c then strip_prefix prefix s else none

abbrev pub reversed : Text → Text → Text
reversed done [] = done
reversed done (c ∷ s) = reversed (c ∷ done) s

unfoldable pub strip_suffix : ℕ → Text → Option Text
strip_suffix suffix s = elim (reversed [] s) [
  | [] ↦ none
  | c ∷ front ↦ if c == suffix then some (reversed [] front) else none
]

unfoldable pub starts_with : Text → Text → Bool
starts_with prefix s = elim (strip_prefix prefix s) [ none ↦ false | some _ ↦ true ]

-- `find` of a character: what stands before it, and the rest from it on.
unfoldable pub find : ℕ → Text → Option (Text × Text)
find c [] = none
find c (d ∷ s) =
    let rest = find c s in
    if c == d
    then some ([], d ∷ s)
    else elim rest [ none ↦ none | some (before, after) ↦ some (d ∷ before, after) ]

-- `split` at a character, which has one piece at least: the first one, and the others.
unfoldable pub split : ℕ → Text → Text × List Text
split c [] = ([], [])
split c (d ∷ s) =
    let (piece, pieces) = split c s in if c == d then ([], piece ∷ pieces) else (d ∷ piece, pieces)

-- The characters of the property White_Space.
unfoldable pub is_whitespace : ℕ → Bool
is_whitespace c =
    (leb 0x9 c && leb c 0xd)
    || (c == 0x20)
    || (c == 0x85)
    || (c == 0xa0)
    || (c == 0x1680)
    || (leb 0x2000 c && leb c 0x200a)
    || (c == 0x2028)
    || (c == 0x2029)
    || (c == 0x202f)
    || (c == 0x205f)
    || (c == 0x3000)

unfoldable pub trim_start : Text → Text
trim_start [] = []
trim_start (c ∷ s) = let rest = trim_start s in if is_whitespace c then rest else c ∷ s

unfoldable pub trim : Text → Text
trim s = reversed [] (trim_start (reversed [] (trim_start s)))

-- `as_bytes`: the UTF-8 bytes.
abbrev continuation : ℕ → ℕ
continuation c = 0x80 + c % 2 ^ 6

unfoldable pub char_bytes : ℕ → List ℕ
char_bytes c =
    if ltb c 0x80
    then c ∷ []
    else if ltb c 0x800
    then (0xc0 + c / 2 ^ 6) ∷ continuation c ∷ []
    else if ltb c 0x10000
    then (0xe0 + c / 2 ^ 12) ∷ continuation (c / 2 ^ 6) ∷ continuation c ∷ []
    else (0xf0 + c / 2 ^ 18)
      ∷ continuation (c / 2 ^ 12)
      ∷ continuation (c / 2 ^ 6)
      ∷ continuation c
      ∷ []

unfoldable pub as_bytes : Text → List ℕ
as_bytes [] = []
as_bytes (c ∷ s) = char_bytes c ++ as_bytes s

-- A digit of a radix up to 36.
unfoldable pub to_digit : ℕ → ℕ → Option ℕ
to_digit radix c =
    let value =
      if leb b'0' c && leb c b'9'
      then c - b'0'
      else if leb b'a' c && leb c b'z'
      then c - b'a' + 10
      else if leb b'A' c && leb c b'Z'
      then c - b'A' + 10
      else radix in
    if ltb value radix then some value else none

-- The number that digits stand for, continuing one that is read already.
unfoldable pub digits_from : ℕ → ℕ → Text → Option ℕ
digits_from radix value [] = some value
digits_from radix value (c ∷ s) = elim (to_digit radix c) [
  | none ↦ none
  | some digit ↦ digits_from radix (value * radix + digit) s
]

unfoldable pub digits : ℕ → Text → Option ℕ
digits radix [] = none
digits radix (c ∷ s) = digits_from radix 0 (c ∷ s)

abbrev pub plus : ℕ
plus = b'+'

abbrev pub minus : ℕ
minus = b'-'

-- `from_str_radix` of an unsigned type of `w` bits; a plus sign may stand before the digits.
unfoldable pub unsigned_from_str_radix : ℕ → Text → ℕ → Option ℕ
unsigned_from_str_radix w s radix =
    let magnitude : Option ℕ = elim (strip_prefix (plus ∷ []) s) [
      | none ↦ digits radix s
      | some rest ↦ digits radix rest
    ] in
    elim magnitude [ none ↦ none | some m ↦ if ltb m (2 ^ w) then some m else none ]

-- `from_str_radix` of a signed type of `k + 1` bits.
unfoldable pub signed_from_str_radix : ℕ → Text → ℕ → Option ℤ
signed_from_str_radix k s radix = elim (strip_prefix (minus ∷ []) s) [
  | none ↦ elim (unsigned_from_str_radix k s radix) [ none ↦ none | some m ↦ some (pos m) ]
  | some rest ↦ elim (digits radix rest) [
    | none ↦ none
    | some m ↦
        if m == 0 then some (pos 0) else if leb m (2 ^ k) then some (negsuc (m - 1)) else none
  ]
]
