-- ===== src/Aalv/RoundTrip.antt =====
-- src/aalv/mod.rs: the sections of a file, against what was written.
use telda.Prelude.{
  ℕ, zero, suc, ◌+◌, ◌<◌, ◌≡◌, refl, sym, ap, ◌∙◌, List, [], ◌∷◌, ◌++◌, false, arith, All, length,
  take, drop, length-append, ◌==◌, u16, low_byte, high_byte, wide_of-bytes,
}
use telda.Obj.Sections.{ok, ◌>>=◌}
use telda.Aalv.Bytes.{
  Section, write_sections, plain, append_assoc, take-append, drop-append, IsSection,
  until_zero-append, write_section-append,
}
use telda.Aalv.{
  Header, until_zero, read_length, read_section_headers, read_window, write_section, finish,
}

-- The headers that belong to sections from a position on, and where they end.
abbrev pub headers_of : ℕ → List Section → List Header
headers_of pos [] = []
headers_of pos ((name, section) ∷ sections) =
    record { name = name; pos = pos + length name + 3; size = length section }
    ∷ headers_of (pos + length name + 3 + length section) sections

abbrev pub end_of : ℕ → List Section → ℕ
end_of pos [] = pos + 1
end_of pos ((name, section) ∷ sections) = end_of (pos + length name + 3 + length section) sections

module _ (lossy : List ℕ → List ℕ) where
  -- A header is read as it was written.
  read_header :
      (name section more : List ℕ) (pos fuel : ℕ)
      → IsSection lossy (name, section)
      → read_section_headers lossy
          (suc fuel)
          pos
          (name ++ 0 ∷ low_byte (length section) ∷ high_byte (length section) ∷ (section ++ more))
        ≡ (read_section_headers lossy fuel (pos + length name + 3 + length section) more
            >>= λ (headers, file_end). ok (
              record { name = name; pos = pos + length name + 3; size = length section } ∷ headers,
              file_end,
            ))
  unfolding read_section_headers read_length
  read_header name section more pos fuel h =
      let (is_name, small) = h in
      let filled : (length name == 0) ≡ false = ground (arith, is_name.1) in
      rw
        (
          until_zero-append name
              (low_byte (length section) ∷ high_byte (length section) ∷ (section ++ more))
              is_name.0,
          is_name.2,
          filled,
          wide_of-bytes (length section) small,
          drop-append section more,
        )
        refl

  -- All headers are read as they were written, up to the zero byte at the end.
  read_section_headers-plain :
      (sections : List Section) (pos fuel : ℕ)
      → lossy [] ≡ []
      → All (IsSection lossy) sections
      → length sections < fuel
      → read_section_headers lossy fuel pos (plain sections)
        ≡ ok (headers_of pos sections, end_of pos sections)
  unfolding plain read_section_headers until_zero
  read_section_headers-plain sections pos zero empty h enough = absurd (omega arith)
  read_section_headers-plain [] pos (suc fuel) empty h enough =
      let here : pos + 0 + 1 ≡ pos + 1 = omega arith in rw (empty, here) refl
  read_section_headers-plain ((name, section) ∷ sections) pos (suc fuel) empty h enough =
      let next : ℕ = pos + length name + 3 + length section in
      read_header name section (plain sections) pos fuel h.0
      ∙ ap
          (λ r. r >>= λ (headers, file_end). ok (
            record { name = name; pos = pos + length name + 3; size = length section } ∷ headers,
            file_end,
          ))
          (read_section_headers-plain sections next fuel empty h.1 (omega arith))

-- The writer's file is the plain one.
finish-write_sections :
    (lossy : List ℕ → List ℕ) (sections : List Section) (file : List ℕ)
    → All (IsSection lossy) sections
    → finish (write_sections sections file) ≡ file ++ plain sections
unfolding finish write_sections plain
finish-write_sections lossy [] file h = refl
finish-write_sections lossy ((name, section) ∷ sections) file h =
    let l : ℕ = low_byte (length section) in
    let u : ℕ = high_byte (length section) in
    let small : u16 (length section) ≡ length section = omega (arith, h.0.1) in
    let written : write_section name section file ≡ file ++ (name ++ 0 ∷ l ∷ u ∷ section) =
      write_section-append name section file
      ∙ rw small (
          append_assoc file (name ++ 0 ∷ []) (l ∷ u ∷ section)
          ∙ ap (λ r. file ++ r) (append_assoc name (0 ∷ []) (l ∷ u ∷ section))) in
    finish-write_sections lossy sections (write_section name section file) h.1
    ∙ ap (λ f. f ++ plain sections) written
    ∙ append_assoc file (name ++ 0 ∷ l ∷ u ∷ section) (plain sections)
    ∙ ap (λ r. file ++ r) (append_assoc name (0 ∷ l ∷ u ∷ section) (plain sections))

-- The bytes of each section stand where its header says.
abbrev pub Windows : List ℕ → List Header → List Section → Type 0
Windows file [] [] = Unit
Windows file [] (s ∷ sections) = ⊥
Windows file (h ∷ headers) [] = ⊥
Windows file (h ∷ headers) ((name, section) ∷ sections) =
    ((h.name ≡ name) × (read_window file h ≡ section)) × Windows file headers sections

Windows-headers_of :
    (sections : List Section) (before file : List ℕ) (pos : ℕ)
    → file ≡ before ++ plain sections
    → pos ≡ length before
    → Windows file (headers_of pos sections) sections
unfolding plain read_window
Windows-headers_of [] before file pos e place = tt
Windows-headers_of ((name, section) ∷ sections) before file pos e place =
    let l : ℕ = low_byte (length section) in
    let u : ℕ = high_byte (length section) in
    let header : List ℕ = before ++ (name ++ 0 ∷ l ∷ u ∷ []) in
    let cut : file ≡ header ++ (section ++ plain sections) =
      e
      ∙ ap (λ r. before ++ r) (sym (append_assoc name (0 ∷ l ∷ u ∷ []) (section ++ plain sections)))
      ∙ sym (append_assoc before (name ++ 0 ∷ l ∷ u ∷ []) (section ++ plain sections)) in
    let start : pos + length name + 3 ≡ length header = omega (
      arith,
      place,
      length-append before (name ++ 0 ∷ l ∷ u ∷ []),
      length-append name (0 ∷ l ∷ u ∷ []),
    ) in
    let window : take (length section) (drop (pos + length name + 3) file) ≡ section =
      rw (start, cut, drop-append header (section ++ plain sections))
        (take-append section (plain sections)) in
    (
      (refl, window),
      Windows-headers_of sections (header ++ section) file (pos + length name + 3 + length section)
          (cut ∙ sym (append_assoc header section (plain sections)))
          (omega (arith, start, length-append header section)),
    )

-- Sections with names that are not empty, valid text and without a zero byte, and of less than 2
-- ^ 16 bytes each, that are written after the first bytes of a file are found again, if the fuel
-- exceeds their number: reading the headers from there on gives one for each section, in their
-- order and with their names, and the bytes of each section are those at its header's position.
pub read_section_headers-write_sections :
    (lossy : List ℕ → List ℕ) (sections : List Section) (file : List ℕ) (fuel : ℕ)
    → lossy [] ≡ []
    → All (IsSection lossy) sections
    → length sections < fuel
    → (headers : List Header) × (read_section_headers lossy fuel
          (length file)
          (drop (length file) (finish (write_sections sections file)))
        ≡ ok (headers, end_of (length file) sections))
      × Windows (finish (write_sections sections file)) headers sections
read_section_headers-write_sections lossy sections file fuel empty h enough =
    let written = finish-write_sections lossy sections file h in
    (
      headers_of (length file) sections,
      ap (read_section_headers lossy fuel (length file))
            (ap (drop (length file)) written ∙ drop-append file (plain sections))
          ∙ read_section_headers-plain lossy sections (length file) fuel empty h enough,
      Windows-headers_of sections file (finish (write_sections sections file)) (length file) written
          refl,
    )
