-- ===== src/Tests/AalvExamples.antt =====
-- The theorem on the container of sections applied at a file with two sections.
use telda.Prelude.{ℕ, ◌≡◌, refl, arith, List, [], ◌∷◌, length, drop}
use telda.Source.{chars}
use telda.Obj.Sections.{ok}
use telda.Aalv.{Header, read_section_headers, finish}
use telda.Aalv.Bytes.{Section, write_sections}
use telda.Aalv.RoundTrip.{Windows, end_of, read_section_headers-write_sections}

abbrev first_bytes : List ℕ
first_bytes = 1 ∷ 2 ∷ 3 ∷ []

abbrev two_sections : List Section
two_sections =
    (chars "_entry", 0x20 ∷ 0x80 ∷ 0 ∷ []) ∷ (chars "_seg", 0x80 ∷ 0 ∷ 0x20 ∷ 10 ∷ []) ∷ []

abbrev identity : List ℕ → List ℕ
identity bytes = bytes

read_section_headers-write_sections_example :
    (headers : List Header) × (read_section_headers identity 3
        (length first_bytes)
        (drop (length first_bytes) (finish (write_sections two_sections first_bytes)))
      ≡ ok (headers, end_of (length first_bytes) two_sections))
    × Windows (finish (write_sections two_sections first_bytes)) headers two_sections
read_section_headers-write_sections_example =
    read_section_headers-write_sections identity two_sections first_bytes 3 refl (ground arith)
      (omega arith)
