-- ===== src/Aalv.antt =====
-- src/aalv/mod.rs: the container of the sections of an object file. A file is the list of its bytes,
-- from which the magic is left out, and a position in it a number.
pub mod Bytes
pub mod RoundTrip
pub mod File
use telda.Prelude.{
  ℕ, zero, suc, ◌+◌, ◌-◌, List, [], ◌∷◌, ◌++◌, Option, none, some, length, take, drop, ◌==◌,
  if◌then◌else◌, u16, le_bytes16, wide_of,
}
use telda.Source.{same_text}
use telda.Obj.Sections.{Decoded, ok, invalid_data, unexpected_eof, panics, ◌>>=◌}

-- An entry of `sections`.
pub record Header : Type 0 where
  pub name : List ℕ
  pub pos : ℕ
  pub size : ℕ

-- `read_until` of a zero byte, which is taken off, and what follows.
unfoldable pub until_zero : List ℕ → Decoded (List ℕ × List ℕ)
until_zero [] = invalid_data
until_zero (b ∷ bytes) =
    let rest = until_zero bytes in
    if b == 0 then ok ([], bytes) else (rest >>= λ (name, after). ok (b ∷ name, after))

-- `read_exact` of the two bytes of a length.
unfoldable pub read_length : List ℕ → Decoded (ℕ × List ℕ)
read_length (l ∷ h ∷ bytes) = ok (wide_of l h, bytes)
read_length _ = unexpected_eof

module _ (from_utf8_lossy : List ℕ → List ℕ) where
  -- The loop, on fuel, at a position with the bytes that follow: the headers, and the file's end.
  unfoldable pub read_section_headers : ℕ → ℕ → List ℕ → Decoded (List Header × ℕ)
  read_section_headers zero pos bytes = panics
  read_section_headers (suc fuel) pos bytes = until_zero bytes >>= λ (name_buf, after).
      if length (from_utf8_lossy name_buf) == 0
      then ok ([], pos + length name_buf + 1)
      else (read_length after >>= λ (len, section).
          read_section_headers fuel (pos + length name_buf + 3 + len) (drop len section)
          >>= λ (headers, file_end). ok (
            record { name = from_utf8_lossy name_buf; pos = pos + length name_buf + 3; size = len }
                ∷ headers,
            file_end,
          ))

-- The bytes that a section is read from, and the headers that remain.
unfoldable pub read_window : List ℕ → Header → List ℕ
read_window file h = take h.size (drop h.pos file)

unfoldable pub read_section : List ℕ → List ℕ → List Header → Option (List ℕ × List Header)
read_section file name [] = none
read_section file name (h ∷ headers) =
    let later = read_section file name headers in
    if same_text h.name name
    then some (read_window file h, headers)
    else elim later [ none ↦ none | some (bytes, others) ↦ some (bytes, h ∷ others) ]

-- Two bytes over those at a position.
unfoldable pub overwrite : ℕ → List ℕ → List ℕ → List ℕ
overwrite at bytes file = take at file ++ (bytes ++ drop (length bytes) (drop at file))

-- The name and a length of zero, the section, and then its length in the place of the zero.
unfoldable pub write_section : List ℕ → List ℕ → List ℕ → List ℕ
write_section name section file =
    let written = file ++ (name ++ 0 ∷ 0 ∷ 0 ∷ section) in
    overwrite (length written - length section - 2) (le_bytes16 (u16 (length section))) written

-- The zero byte of `drop`.
unfoldable pub finish : List ℕ → List ℕ
finish file = file ++ 0 ∷ []
