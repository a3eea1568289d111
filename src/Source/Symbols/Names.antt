-- ===== src/Source/Symbols/Names.antt =====
-- src/source/symbols.rs: the names of labels and their ids.
use telda.Prelude.{
  ℕ, zero, suc, ◌<◌, ◌≡◌, ◌↔◌, refl, sym, ap, ◌∙◌, inl, inr, List, [], ◌∷◌, ◌++◌, Option, none,
  some, true, ==_refl, arith, length, get_elem?, Option-cases, Bool-cases,
}
use telda.Source.{Text, same_text, Address, SourceLocation, already_set, other}
use telda.Source.Symbols.{
  Symbols, Position, defined, position, position_at, modify_at, located, find_id, set_result,
  set_label, get_label, size,
}
use telda.Source.Symbols.Growth.{IsSymbols, Grown, position-lt, set_label-Grown, length-modify_at}

pub same_text_refl : (s : Text) → same_text s s ≡ true
same_text_refl [] = refl
same_text_refl (c ∷ s) = ground (arith, ==_refl c, same_text_refl s)

pub same_text-eq : (s t : Text) → same_text s t ≡ true → s ≡ t
same_text-eq [] [] e = refl
same_text-eq [] (d ∷ t) e = absurd (ground (arith, e))
same_text-eq (c ∷ s) [] e = absurd (ground (arith, e))
same_text-eq (c ∷ s) (d ∷ t) e =
    let both : (c ≡ d) × (same_text s t ≡ true) = ground (arith, e) in
    cc (both.0, same_text-eq s t both.1)

-- The label stands at the index that is found.
pub position-get_elem? :
    (lbl : Text) (labels : List Text) (i : ℕ)
    → position lbl labels ≡ some i
    → get_elem? labels i ≡ some lbl
unfolding position
position-get_elem? lbl [] i e = absurd (ground (arith, e))
position-get_elem? lbl (l ∷ labels) i e = elim (Bool-cases (same_text l lbl)) [
  | inl same ↦
      let first : i ≡ 0 = ground (arith, same, e) in
      rw first (ap (λ n. some n) (same_text-eq l lbl same))
  | inr differs ↦ elim (Option-cases (position lbl labels)) [
    | inl missing ↦ absurd (ground (arith, missing, differs, e))
    | inr (j, found) ↦
        let later : i ≡ suc j = ground (arith, found, differs, e) in
        rw later (position-get_elem? lbl labels j found)
  ]
]

pub position-append :
    (lbl : Text) (labels : List Text)
    → position lbl labels ≡ none
    → position lbl (labels ++ lbl ∷ []) ≡ some (length labels)
unfolding position
position-append lbl [] missing = rw (same_text_refl lbl) refl
position-append lbl (l ∷ labels) missing = elim (Bool-cases (same_text l lbl)) [
  | inl same ↦ absurd (ground (arith, same, missing))
  | inr differs ↦ elim (Option-cases (position lbl labels)) [
    | inl none_left ↦ rw (differs, position-append lbl labels none_left) refl
    | inr (j, found) ↦ absurd (ground (arith, found, differs, missing))
  ]
]

get_elem?-append :
    {A : Type 0} (xs ys : List A) (i : ℕ) → i < length xs → get_elem? (xs ++ ys) i ≡ get_elem? xs i
get_elem?-append [] ys i below = absurd (omega arith)
get_elem?-append (x ∷ xs) ys zero below = refl
get_elem?-append (x ∷ xs) ys (suc i) below = get_elem?-append xs ys i (omega arith)

-- What `find_id` gives: the id under which the label is found from then on, labels that keep their ids.
abbrev Found : Text → Symbols → ℕ × Symbols → Type 0
Found lbl s (id, t) =
    (position lbl t.labels ≡ some id)
    × ((i : ℕ) → i < length s.labels → get_elem? t.labels i ≡ get_elem? s.labels i)

located-Found :
    (lbl : Text) (s : Symbols) (o : Option ℕ)
    → position lbl s.labels ≡ o
    → Found lbl s (located o lbl s)
unfolding located
located-Found lbl s (some i) e = (e, λ i below. refl)
located-Found lbl s none e =
    (position-append lbl s.labels e, λ i below. get_elem?-append s.labels (lbl ∷ []) i below)

find_id-Found : (lbl : Text) (s : Symbols) → Found lbl s (find_id lbl s)
unfolding find_id
find_id-Found lbl s = located-Found lbl s (position lbl s.labels) refl

-- Two labels that are looked up one after the other have the same id exactly when they have the
-- same name.
pub get_label-get_label :
    (a b : Text) (la lb : SourceLocation) (s : Symbols)
    → ((get_label b lb (get_label a la s).1).0 ≡ (get_label a la s).0) ↔ (a ≡ b)
unfolding get_label find_id
get_label-get_label a b la lb s =
    let r : ℕ × Symbols = find_id a s in
    let (found, stable) = find_id-Found a s in
    let t : Symbols = (get_label a la s).1 in
    let (found', stable') = find_id-Found b t in
    let below : r.0 < length t.labels = position-lt a t.labels r.0 found in
    let here : get_elem? t.labels r.0 ≡ some a = position-get_elem? a t.labels r.0 found in
    let there : get_elem? (find_id b t).1.labels (find_id b t).0 ≡ some b =
      position-get_elem? b (find_id b t).1.labels (find_id b t).0 found' in
    let kept : get_elem? (find_id b t).1.labels r.0 ≡ get_elem? t.labels r.0 = stable' r.0 below in
    (
      λ e. cc (e, here, there, kept),
      λ e. ap (λ o. (located o b t).0) (ap (λ l. position l t.labels) (sym e) ∙ found),
    )

pub position_at-modify_at :
    (f : Position → Position) (i : ℕ) (positions : List Position)
    → i < length positions
    → position_at i (modify_at f i positions) ≡ f (position_at i positions)
unfolding position_at modify_at
position_at-modify_at f i [] below = absurd (omega arith)
position_at-modify_at f zero (p ∷ positions) below = refl
position_at-modify_at f (suc i) (p ∷ positions) below =
    position_at-modify_at f i positions (omega arith)

-- In symbols with as many positions as labels, of which each is used or defined, defining a label
-- that is defined already is an error that names both addresses.
pub set_label-set_label :
    (lbl : Text) (addr addr' : Address) (loc loc' : SourceLocation) (s : Symbols)
    → IsSymbols s
    → (set_label lbl addr' loc' (set_label lbl addr loc s).1).0
      ≡ some (record {
        source = loc'.source;
        ln = loc'.line_number;
        error = other (already_set lbl addr addr');
      })
unfolding set_label set_result find_id IsSymbols size
set_label-set_label lbl addr addr' loc loc' s h =
    let r : ℕ × Symbols = find_id lbl s in
    let t : Symbols = (set_label lbl addr loc s).1 in
    let found : position lbl t.labels ≡ some r.0 = (find_id-Found lbl s).0 in
    let f : Position → Position = λ _. defined addr in
    let grown : Grown s t = set_label-Grown lbl addr loc s h in
    let below : r.0 < length r.1.id_to_pos = omega (
      arith,
      position-lt lbl t.labels r.0 found,
      grown.0.0,
      length-modify_at f r.0 r.1.id_to_pos,
    ) in
    ap
      (λ o.
        set_result lbl addr' loc' (position_at (located o lbl t).0 (located o lbl t).1.id_to_pos))
      found
    ∙ ap (set_result lbl addr' loc') (position_at-modify_at f r.0 r.1.id_to_pos below)
