-- ===== src/Source/Line/Quote.antt =====
-- src/source/mod.rs: the bytes of a `.string`, against a way to write any bytes as one.
use telda.Prelude.{
  ℕ, zero, suc, ◌+◌, ◌/◌, ◌%◌, ◌≤◌, ◌≡◌, refl, ap, ◌∙◌, List, [], ◌∷◌, ◌++◌, Option, none, some,
  Bool, true, false, ◌&&◌, arith, ◌==◌, ==_iff, ltb, leb, if◌then◌else◌, IsByte, All, length,
  all_below, all_below-lt, length-append,
}
use telda.Source.{ok, ◌>>=◌}
use telda.Source.Text.{unsigned_from_str_radix, strip_prefix, digits, digits_from, to_digit}
use telda.Source.Line.{hex_value, hex_escape, parse_escape, escaped, parse_bytechar, parse_string}

abbrev backslash : ℕ
backslash = 0x5c

abbrev hex_digit : ℕ → ℕ
hex_digit n = if ltb n 10 then 0x30 + n else 0x57 + n

abbrev hex_quote : ℕ → List ℕ
hex_quote b = backslash ∷ b'x' ∷ hex_digit (b / 16) ∷ hex_digit (b % 16) ∷ []

-- The letters of the escapes, the printable characters as they are, and all else in hexadecimal.
unfoldable pub quote_byte : ℕ → List ℕ
quote_byte b =
    if b == 0xd
    then backslash ∷ b'r' ∷ []
    else if b == 0x9
    then backslash ∷ b't' ∷ []
    else if b == 0xa
    then backslash ∷ b'n' ∷ []
    else if b == 0
    then backslash ∷ b'0' ∷ []
    else if b == backslash
    then backslash ∷ backslash ∷ []
    else if b == 0x22
    then backslash ∷ 0x22 ∷ []
    else if leb 0x20 b && ltb b 0x7f
    then b ∷ []
    else hex_quote b

unfoldable pub quote : List ℕ → List ℕ
quote [] = []
quote (b ∷ bytes) = quote_byte b ++ quote bytes

-- The two digits of a byte are read as it, at every byte.
abbrev is_value : ℕ → Option ℕ → Bool
is_value b none = false
is_value b (some c) = c == b

reads_back : ℕ → Bool
reads_back b =
    is_value b (unsigned_from_str_radix 8 (hex_digit (b / 16) ∷ hex_digit (b % 16) ∷ []) 16)

is_value-eq : (b : ℕ) (o : Option ℕ) → is_value b o ≡ true → o ≡ some b
is_value-eq b none h = absurd (ground (arith, h))
is_value-eq b (some c) h = ap (λ n. some n) ((==_iff c b).0 h)

all_read_back : all_below 256 reads_back ≡ true
unfolding all_below reads_back unsigned_from_str_radix strip_prefix digits digits_from to_digit
all_read_back = refl

hex_escape-hex_digit :
    (b : ℕ) (rest : List ℕ)
    → IsByte b
    → hex_escape (hex_digit (b / 16) ∷ hex_digit (b % 16) ∷ rest) ≡ ok (b, rest)
unfolding hex_escape hex_value reads_back
hex_escape-hex_digit b rest h =
    ap (hex_value rest) (is_value-eq b _ (all_below-lt reads_back 256 all_read_back b h))

parse_bytechar-quote_byte :
    (b : ℕ) (rest : List ℕ) → IsByte b → parse_bytechar (quote_byte b ++ rest) ≡ ok (b, rest)
unfolding parse_bytechar quote_byte parse_escape escaped
parse_bytechar-quote_byte b rest h = ground (arith, hex_escape-hex_digit b rest h)

quote_byte-length : (b : ℕ) → 1 ≤ length (quote_byte b)
unfolding quote_byte
quote_byte-length b = ground arith

-- A turn of the loop that reads a byte.
parse_string-parse_bytechar :
    (xs rest : List ℕ) (c fuel : ℕ)
    → 1 ≤ length xs
    → parse_bytechar xs ≡ ok (c, rest)
    → parse_string (suc fuel) xs ≡ (parse_string fuel rest >>= λ string. ok (c ∷ string))
unfolding parse_string
parse_string-parse_bytechar [] rest c fuel some_byte e = absurd (omega arith)
parse_string-parse_bytechar (x ∷ xs) rest c fuel some_byte e =
    ap (λ r. r >>= λ (c, rest). parse_string fuel rest >>= λ string. ok (c ∷ string)) e

-- Any bytes that are written with escapes are read back by the loop of .string, which ends within
-- as many turns as there are characters.
pub parse_string-quote :
    (bytes : List ℕ) (fuel : ℕ)
    → All IsByte bytes
    → length (quote bytes) ≤ fuel
    → parse_string fuel (quote bytes) ≡ ok bytes
unfolding parse_string quote
parse_string-quote [] fuel h enough = refl
parse_string-quote (b ∷ bytes) zero h enough =
    absurd (omega (arith, quote_byte-length b, length-append (quote_byte b) (quote bytes)))
parse_string-quote (b ∷ bytes) (suc fuel) h enough =
    let shorter : length (quote bytes) ≤ fuel =
      omega (arith, quote_byte-length b, length-append (quote_byte b) (quote bytes)) in
    let written : 1 ≤ length (quote_byte b ++ quote bytes) =
      omega (arith, quote_byte-length b, length-append (quote_byte b) (quote bytes)) in
    parse_string-parse_bytechar (quote_byte b ++ quote bytes) (quote bytes) b fuel written
      (parse_bytechar-quote_byte b (quote bytes) h.0)
    ∙ ap (λ r. r >>= λ string. ok (b ∷ string)) (parse_string-quote bytes fuel h.1 shorter)
