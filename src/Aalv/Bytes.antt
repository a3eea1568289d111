-- ===== src/Aalv/Bytes.antt =====
-- src/aalv/mod.rs: the bytes that the writer of sections leaves.
use telda.Prelude.{
  ℕ, ◌-◌, ◌<◌, ◌≡◌, ◌≢◌, refl, sym, ap, ◌∙◌, List, [], ◌∷◌, ◌++◌, arith, All, length, take, drop,
  length-append, ==_ne, u16, IsWide, low_byte, high_byte,
}
use telda.Obj.Sections.{ok}
use telda.Aalv.{until_zero, overwrite, write_section}

abbrev pub Section : Type 0
Section = List ℕ × List ℕ

unfoldable pub write_sections : List Section → List ℕ → List ℕ
write_sections [] file = file
write_sections ((name, section) ∷ sections) file =
    write_sections sections (write_section name section file)

-- The bytes of the sections, without the detour of the writer, and the zero at the end.
unfoldable pub plain : List Section → List ℕ
plain [] = 0 ∷ []
plain ((name, section) ∷ sections) =
    name ++ 0 ∷ low_byte (length section) ∷ high_byte (length section) ∷ (section ++ plain sections)

module _ {A : Type 0} where
  pub append_assoc : (xs ys zs : List A) → (xs ++ ys) ++ zs ≡ xs ++ (ys ++ zs)
  append_assoc [] ys zs = refl
  append_assoc (x ∷ xs) ys zs = ap (λ l. x ∷ l) (append_assoc xs ys zs)

  pub take-append : (xs ys : List A) → take (length xs) (xs ++ ys) ≡ xs
  take-append [] ys = refl
  take-append (x ∷ xs) ys = ap (λ l. x ∷ l) (take-append xs ys)

  pub drop-append : (xs ys : List A) → drop (length xs) (xs ++ ys) ≡ ys
  drop-append [] ys = refl
  drop-append (x ∷ xs) ys = drop-append xs ys

overwrite-append :
    (xs : List ℕ) (a b c d : ℕ) (ys : List ℕ)
    → overwrite (length xs) (a ∷ b ∷ []) (xs ++ c ∷ d ∷ ys) ≡ xs ++ a ∷ b ∷ ys
unfolding overwrite
overwrite-append xs a b c d ys = rw (take-append xs (c ∷ d ∷ ys), drop-append xs (c ∷ d ∷ ys)) refl

-- A section name: not empty, without a zero byte, and valid text.
abbrev pub IsName : (List ℕ → List ℕ) → List ℕ → Type 0
IsName lossy name = All (λ b. b ≢ 0) name × (0 < length name) × (lossy name ≡ name)

abbrev pub IsSection : (List ℕ → List ℕ) → Section → Type 0
IsSection lossy (name, section) = IsName lossy name × IsWide (length section)

pub until_zero-append :
    (name after : List ℕ)
    → All (λ b. b ≢ 0) name
    → until_zero (name ++ 0 ∷ after) ≡ ok (name, after)
unfolding until_zero
until_zero-append [] after h = refl
until_zero-append (b ∷ name) after h = rw (==_ne b 0 h.0, until_zero-append name after h.1) refl

-- What the writer's detour comes to.
pub write_section-append :
    (name section file : List ℕ)
    → write_section name section file
      ≡ (file ++ (name ++ 0 ∷ []))
        ++ low_byte (u16 (length section)) ∷ high_byte (u16 (length section)) ∷ section
unfolding write_section
write_section-append name section file =
    let before : List ℕ = file ++ (name ++ 0 ∷ []) in
    let same : file ++ (name ++ 0 ∷ 0 ∷ 0 ∷ section) ≡ before ++ 0 ∷ 0 ∷ section =
      ap (λ l. file ++ l) (sym (append_assoc name (0 ∷ []) (0 ∷ 0 ∷ section)))
      ∙ sym (append_assoc file (name ++ 0 ∷ []) (0 ∷ 0 ∷ section)) in
    let place : length (before ++ 0 ∷ 0 ∷ section) - length section - 2 ≡ length before =
      omega (arith, length-append before (0 ∷ 0 ∷ section)) in
    rw (same, place) (overwrite-append before _ _ 0 0 section)
