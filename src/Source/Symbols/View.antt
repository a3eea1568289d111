-- ===== src/Source/Symbols/View.antt =====
-- src/source/symbols.rs: the symbols as a map from names to positions, which forgets the ids.
use telda.Prelude.{
  ℕ, zero, suc, ◌+◌, ◌<◌, ◌≡◌, ◌≢◌, refl, sym, ap, ◌∙◌, inl, inr, List, [], ◌∷◌, ◌++◌, Option, none,
  some, true, false, arith, length, length-append, get_elem?, Option-cases, Bool-cases,
  if◌then◌else◌,
}
use telda.Source.{Text, same_text, Address, SourceLocation}
use telda.Source.Symbols.{
  Symbols, Position, defined, used, position, position_at, modify_at, located, find_id, set_label,
  get_label, add_use,
}
use telda.Source.Symbols.Growth.{IsSymbols, position-lt}
use telda.Source.Symbols.Names.{
  same_text_refl, same_text-eq, position-get_elem?, position-append, position_at-modify_at,
}

abbrev at_index : List Position → Option ℕ → Option Position
at_index positions none = none
at_index positions (some i) = some (position_at i positions)

-- The position of a name, if there is a label of it.
unfoldable pub view : Symbols → Text → Option Position
view s l = at_index s.id_to_pos (position l s.labels)

-- A new label has no use yet.
abbrev pub or_new : Option Position → Position
or_new none = used []
or_new (some p) = p

position_at-other :
    (f : Position → Position) (i j : ℕ) (positions : List Position)
    → i ≢ j
    → position_at j (modify_at f i positions) ≡ position_at j positions
unfolding position_at modify_at
position_at-other f i j [] ne = refl
position_at-other f zero zero (p ∷ positions) ne = absurd (ne refl)
position_at-other f zero (suc j) (p ∷ positions) ne = refl
position_at-other f (suc i) zero (p ∷ positions) ne = refl
position_at-other f (suc i) (suc j) (p ∷ positions) ne =
    position_at-other f i j positions (λ e. ne (ap suc e))

position_at-append :
    (positions : List Position) (p : Position) (j : ℕ)
    → j < length positions
    → position_at j (positions ++ p ∷ []) ≡ position_at j positions
unfolding position_at
position_at-append [] p j below = absurd (omega arith)
position_at-append (q ∷ positions) p zero below = refl
position_at-append (q ∷ positions) p (suc j) below = position_at-append positions p j (omega arith)

position_at-last :
    (positions : List Position) (p : Position)
    → position_at (length positions) (positions ++ p ∷ []) ≡ p
unfolding position_at
position_at-last [] p = refl
position_at-last (q ∷ positions) p = position_at-last positions p

position-append_other :
    (l lbl : Text) (labels : List Text)
    → same_text lbl l ≡ false
    → position l (labels ++ lbl ∷ []) ≡ position l labels
unfolding position
position-append_other l lbl [] differs = rw differs refl
position-append_other l lbl (m ∷ labels) differs =
    rw (position-append_other l lbl labels differs) refl

-- Different names have different ids.
position-ne :
    (l lbl : Text) (labels : List Text) (i j : ℕ)
    → same_text lbl l ≡ false
    → position lbl labels ≡ some i
    → position l labels ≡ some j
    → i ≢ j
position-ne l lbl labels i j differs found found' e =
    let here : get_elem? labels i ≡ some lbl = position-get_elem? lbl labels i found in
    let there : get_elem? labels j ≡ some l = position-get_elem? l labels j found' in
    let same : lbl ≡ l = cc (e, here, there) in
    let equal : same_text lbl l ≡ true = ap (same_text lbl) (sym same) ∙ same_text_refl lbl in
    ground (arith, equal, differs)

-- What a change at a label's position makes of the view.
abbrev Changed : (Position → Position) → Text → Symbols → Text → ℕ × Symbols → Type 0
Changed f lbl s l (id, t) =
    at_index (modify_at f id t.id_to_pos) (position l t.labels)
    ≡ (if same_text lbl l then some (f (or_new (view s lbl))) else view s l)

-- At a label that is there, in its own place and in others.
Changed-located :
    (f : Position → Position) (lbl l : Text) (s : Symbols) (i : ℕ)
    → IsSymbols s
    → position lbl s.labels ≡ some i
    → Changed f lbl s l (i, s)
unfolding view IsSymbols
Changed-located f lbl l s i h found = elim (Bool-cases (same_text lbl l)) [
  | inl same ↦
      let equal : lbl ≡ l = same_text-eq lbl l same in
      let here : position l s.labels ≡ some i = ap (λ n. position n s.labels) (sym equal) ∙ found in
      let below : i < length s.id_to_pos = omega (arith, h.0, position-lt lbl s.labels i found) in
      rw (same, here, found, position_at-modify_at f i s.id_to_pos below) refl
  | inr differs ↦ elim (Option-cases (position l s.labels)) [
    | inl missing ↦ rw (differs, missing) refl
    | inr (j, there) ↦
        let moved =
          position_at-other f i j s.id_to_pos
            (position-ne l lbl s.labels i j differs found there) in
        rw (differs, there, moved) refl
  ]
]

abbrev with_label : Text → Symbols → ℕ × Symbols
with_label lbl s = located none lbl s

-- At a new label, in its own place and in others.
Changed-with_label :
    (f : Position → Position) (lbl l : Text) (s : Symbols)
    → IsSymbols s
    → position lbl s.labels ≡ none
    → Changed f lbl s l (with_label lbl s)
unfolding view IsSymbols located
Changed-with_label f lbl l s h missing =
    let n : ℕ = length s.labels in
    let positions : List Position = s.id_to_pos ++ used [] ∷ [] in
    let longer : length positions ≡ length s.id_to_pos + 1 =
      length-append s.id_to_pos (used [] ∷ []) in
    elim (Bool-cases (same_text lbl l)) [
      | inl same ↦
          let equal : lbl ≡ l = same_text-eq lbl l same in
          let here : position l (s.labels ++ lbl ∷ []) ≡ some n =
            ap (λ m. position m (s.labels ++ lbl ∷ [])) (sym equal)
            ∙ position-append lbl s.labels missing in
          let below : n < length positions = omega (arith, h.0, longer) in
          let last : position_at n positions ≡ used [] =
            ap (λ m. position_at m positions) (sym h.0) ∙ position_at-last s.id_to_pos (used []) in
          let moved : position_at n (modify_at f n positions) ≡ f (used []) =
            position_at-modify_at f n positions below ∙ ap f last in
          rw (same, here, missing, moved) refl
      | inr differs ↦
          let kept : position l (s.labels ++ lbl ∷ []) ≡ position l s.labels =
            position-append_other l lbl s.labels differs in
          elim (Option-cases (position l s.labels)) [
            | inl none_left ↦ rw (differs, kept, none_left) refl
            | inr (j, there) ↦
                let below : j < length s.labels = position-lt l s.labels j there in
                let ne : n ≢ j = λ e. omega (arith, e, below) in
                let moved : position_at j (modify_at f n positions) ≡ position_at j s.id_to_pos =
                  position_at-other f n j positions ne
                  ∙ position_at-append s.id_to_pos (used []) j (omega (arith, h.0, below)) in
                rw (differs, kept, there, moved) refl
          ]
    ]

Changed-position :
    (f : Position → Position) (lbl l : Text) (s : Symbols) (o : Option ℕ)
    → IsSymbols s
    → position lbl s.labels ≡ o
    → Changed f lbl s l (located o lbl s)
unfolding located
Changed-position f lbl l s none h e = Changed-with_label f lbl l s h e
Changed-position f lbl l s (some i) h e = Changed-located f lbl l s i h e

-- In symbols with as many positions as labels, of which each is used or defined, the symbols
-- implement a map from names to positions: defining a label sets the position of its name to the
-- address, using it adds the use to those of its name, which has none at first, and neither
-- changes what other names have.
pub view_lem :
    (lbl l : Text) (addr : Address) (loc : SourceLocation) (s : Symbols)
    → IsSymbols s
    → (view (set_label lbl addr loc s).1 l
        ≡ (if same_text lbl l then some (defined addr) else view s l))
      × (view (get_label lbl loc s).1 l
          ≡ (if same_text lbl l then some (add_use loc (or_new (view s lbl))) else view s l))
unfolding view set_label get_label find_id
view_lem lbl l addr loc s h = (
  Changed-position (λ _. defined addr) lbl l s (position lbl s.labels) h refl,
  Changed-position (add_use loc) lbl l s (position lbl s.labels) h refl,
)
