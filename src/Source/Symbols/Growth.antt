-- ===== src/Source/Symbols/Growth.antt =====
-- src/source/symbols.rs: what is kept of the symbols, and their number.
use mathlib.Core.Path.{subst}
use telda.Prelude.{
  ℕ, zero, suc, ◌+◌, ◌≤◌, ◌<◌, ◌≡◌, refl, sym, ap, ◌∙◌, ◌⊎◌, inl, inr, List, [], ◌∷◌, ◌++◌, some,
  Bool, true, false, length, All, Option-cases, length-append, arith, Bool-cases,
}
use telda.Source.{Text, same_text, Address, SourceLocation}
use telda.Source.Symbols.{
  Symbols, Position, defined, used, position, modify_at, located, find_id, set_label, get_label,
  set_global, set_reference, add_use, size,
}

-- A label without an address is used somewhere.
abbrev pub is_used : Position → Bool
is_used (defined a) = true
is_used (used []) = false
is_used (used (loc ∷ uses)) = true

abbrev pub Used : Position → Type 0
Used p = is_used p ≡ true

unfoldable pub IsSymbols : Symbols → Type 0
IsSymbols s = (length s.id_to_pos ≡ length s.labels) × All Used s.id_to_pos

abbrev pub Grown : Symbols → Symbols → Type 0
Grown s t = IsSymbols t × (size s ≤ size t)

module _ {A : Type 0} where
  pub length-modify_at : (f : A → A) (i : ℕ) (xs : List A) → length (modify_at f i xs) ≡ length xs
  unfolding modify_at
  length-modify_at f i [] = refl
  length-modify_at f zero (x ∷ xs) = refl
  length-modify_at f (suc i) (x ∷ xs) = ap suc (length-modify_at f i xs)

  pub All-modify_at :
      (P : A → Type 0) (f : A → A) (kept : (a : A) → P a → P (f a)) (i : ℕ) (xs : List A)
      → All P xs
      → All P (modify_at f i xs)
  unfolding modify_at
  All-modify_at P f kept i [] h = tt
  All-modify_at P f kept zero (x ∷ xs) h = (kept x h.0, h.1)
  All-modify_at P f kept (suc i) (x ∷ xs) h = (h.0, All-modify_at P f kept i xs h.1)

  All-modify_at_end :
      (P : A → Type 0) (f : A → A) (a : A) (xs : List A)
      → All P xs
      → P (f a)
      → All P (modify_at f (length xs) (xs ++ a ∷ []))
  unfolding modify_at
  All-modify_at_end P f a [] h last = (last, tt)
  All-modify_at_end P f a (x ∷ xs) h last = (h.0, All-modify_at_end P f a xs h.1 last)

pub position-lt :
    (lbl : Text) (labels : List Text) (i : ℕ) → position lbl labels ≡ some i → i < length labels
unfolding position
position-lt lbl [] i e = absurd (ground (arith, e))
position-lt lbl (l ∷ labels) i e = elim (Bool-cases (same_text l lbl)) [
  | inl same ↦ ground (arith, same, e)
  | inr other ↦ elim (Option-cases (position lbl labels)) [
    | inl missing ↦ absurd (ground (arith, missing, other, e))
    | inr (j, found) ↦
        let below : j < length labels = position-lt lbl labels j found in
        ground (arith, found, other, e, below)
  ]
]

-- A new label, at the end.
abbrev with_label : Text → Symbols → ℕ × Symbols
with_label lbl s = (
  length s.labels,
  record s { labels = s.labels ++ lbl ∷ []; id_to_pos = s.id_to_pos ++ used [] ∷ [] },
)

-- A label is found, or it comes last.
pub find_id-cases :
    (lbl : Text) (s : Symbols)
    → ((i : ℕ) × (i < length s.labels) × (find_id lbl s ≡ (i, s)))
      ⊎ (find_id lbl s ≡ with_label lbl s)
unfolding find_id
find_id-cases lbl s = elim (Option-cases (position lbl s.labels)) [
  | inl missing ↦ inr (ap (λ o. located o lbl s) missing)
  | inr (i, found) ↦ inl (i, position-lt lbl s.labels i found, ap (λ o. located o lbl s) found)
]

-- The symbols with another position for a label, in range, when its id is.
abbrev moved : (Position → Position) → ℕ × Symbols → Symbols
moved f (id, s) = record s { id_to_pos = modify_at f id s.id_to_pos }

abbrev Moved : (Position → Position) → Symbols → ℕ × Symbols → Type 0
Moved f s r = Grown s (moved f r) × (r.0 < size (moved f r))

Moved-old :
    (f : Position → Position) (kept : (p : Position) → Used p → Used (f p)) (s : Symbols) (i : ℕ)
    → IsSymbols s
    → i < length s.labels
    → Moved f s (i, s)
unfolding size IsSymbols
Moved-old f kept s i h below = (
  (
    (length-modify_at f i s.id_to_pos ∙ h.0, All-modify_at Used f kept i s.id_to_pos h.1),
    omega arith,
  ),
  below,
)

Moved-new :
    (f : Position → Position) (first : Used (f (used []))) (lbl : Text) (s : Symbols)
    → IsSymbols s
    → Moved f s (with_label lbl s)
unfolding size IsSymbols
Moved-new f first lbl s h =
    let n : ℕ = length s.labels in
    let positions : List Position = s.id_to_pos ++ used [] ∷ [] in
    let all_used : All Used (modify_at f n positions) =
      subst (λ m. All Used (modify_at f m positions)) h.0
        (All-modify_at_end Used f (used []) s.id_to_pos h.1 first) in
    let positions_length : length (modify_at f n positions) ≡ length s.id_to_pos + 1 =
      omega (arith, length-modify_at f n positions, length-append s.id_to_pos (used [] ∷ [])) in
    let labels_length : length (s.labels ++ lbl ∷ []) ≡ n + 1 =
      omega (arith, length-append s.labels (lbl ∷ [])) in
    (
      (
        (omega (arith, h.0, positions_length, labels_length), all_used),
        omega (arith, labels_length),
      ),
      omega (arith, labels_length),
    )

-- What is done to the position of a label, new or not, keeps the symbols.
find_id-Moved :
    (f : Position → Position) (kept : (p : Position) → Used p → Used (f p))
    (first : Used (f (used []))) (lbl : Text) (s : Symbols)
    → IsSymbols s
    → Moved f s (find_id lbl s)
find_id-Moved f kept first lbl s h = elim (find_id-cases lbl s) [
  | inl (i, below, e) ↦ subst (Moved f s) (sym e) (Moved-old f kept s i h below)
  | inr e ↦ subst (Moved f s) (sym e) (Moved-new f first lbl s h)
]

pub set_label-Grown :
    (lbl : Text) (addr : Address) (loc : SourceLocation) (s : Symbols)
    → IsSymbols s
    → Grown s (set_label lbl addr loc s).1
unfolding set_label
set_label-Grown lbl addr loc s h = (find_id-Moved (λ _. defined addr) (λ p u. refl) refl lbl s h).0

add_use-Used : (loc : SourceLocation) (p : Position) → Used (add_use loc p)
add_use-Used loc (defined a) = refl
add_use-Used loc (used []) = refl
add_use-Used loc (used (l ∷ uses)) = refl

pub get_label-Grown :
    (lbl : Text) (loc : SourceLocation) (s : Symbols)
    → IsSymbols s
    → Grown s (get_label lbl loc s).1 × ((get_label lbl loc s).0 < size (get_label lbl loc s).1)
unfolding get_label
get_label-Grown lbl loc s h = find_id-Moved (add_use loc) (λ p u. add_use-Used loc p) refl lbl s h

pub set_global-Grown : (id : ℕ) (s : Symbols) → IsSymbols s → Grown s (set_global id s)
unfolding set_global size IsSymbols
set_global-Grown id s h = (h, omega arith)

pub set_reference-Grown : (id : ℕ) (s : Symbols) → IsSymbols s → Grown s (set_reference id s)
unfolding set_reference size IsSymbols
set_reference-Grown id s h = (h, omega arith)
