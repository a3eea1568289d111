-- ===== src/Linker/Archive/Loop.antt =====
-- src/bin/tl.rs: the loop of `read_archives`.
use mathlib.Core.Path.{subst}
use telda.Prelude.{
  ℕ, zero, suc, ◌<◌, ◌≡◌, refl, ap, List, [], ◌∷◌, ◌++◌, Option, none, some, arith, All, length,
  length-append, Bool-cases, inl, inr,
}
use telda.Linker.Archive.Globals.{
  IsWanted, IsSettled, Extends, wanted-IsWanted, wanted-IsSettled, says-extend_undefineds,
}
use telda.Linker.Archive.{
  DefinedMap, Member, Included, extend_undefineds, wanted, keeping, find_wanted, include_found,
  either_way, include_objects,
}

abbrev pub AllSettled : DefinedMap → List Member → Type 0
AllSettled cur left = All (λ (m : Member). IsSettled cur m.1) left

-- How the loop ends. It stops when no object that is left differs from the globals; else it takes
-- the first one that does.
pub data Ended : Included → Included → Type 0 where
  stops : {s : Included} → AllSettled s.cur_globals s.left → Ended s s
  takes :
      {s t : Included} {cur : DefinedMap} (before after : List Member) (m : Member)
      → s.left ≡ before ++ m ∷ after
      → AllSettled s.cur_globals before
      → IsWanted s.cur_globals m.1
      → Extends m.1 s.cur_globals cur
      → Ended (record { cur_globals = cur; objs = s.objs ++ m.0 ∷ []; left = before ++ after }) t
      → Ended s t

-- The first object that differs is found, or there is none.
abbrev Search : DefinedMap → List Member → Option (Member × List Member) → Type 0
Search cur left none = AllSettled cur left
Search cur left (some (found, others)) =
    (before : List Member) × (after : List Member) × (left ≡ before ++ found ∷ after)
    × (others ≡ before ++ after)
    × AllSettled cur before
    × IsWanted cur found.1

keeping-Search :
    (cur : DefinedMap) (m : Member) (left : List Member) (o : Option (Member × List Member))
    → IsSettled cur m.1
    → Search cur left o
    → Search cur (m ∷ left) (keeping m o)
keeping-Search cur m left none settled h = (settled, h)
keeping-Search cur m left (some (found, others)) settled (before, after, e, f, all, here) =
    (m ∷ before, after, ap (λ l. m ∷ l) e, ap (λ l. m ∷ l) f, (settled, all), here)

find_wanted-Search :
    (cur : DefinedMap) (left : List Member) → Search cur left (find_wanted cur left)
unfolding find_wanted
find_wanted-Search cur [] = tt
find_wanted-Search cur (m ∷ left) = elim (Bool-cases (wanted cur m.1)) [
  | inl e ↦ rw e ([], left, refl, refl, tt, wanted-IsWanted cur m.1 e)
  | inr e ↦ rw e (
      keeping-Search cur m left (find_wanted cur left) (wanted-IsSettled cur m.1 e)
        (find_wanted-Search cur left))
]

either_way-Ended :
    (s : Included) (o : Option (Member × List Member))
    (next : Member × List Member → Option Included)
    → Search s.cur_globals s.left o
    → ((r : Member × List Member)
        → Search s.cur_globals s.left (some r)
        → (t : Included) × (next r ≡ some t) × Ended s t)
    → (t : Included) × (either_way o (some s) next ≡ some t) × Ended s t
either_way-Ended s none next found h = (s, refl, stops found)
either_way-Ended s (some r) next found h = h r found

shorter :
    (left before : List Member) (m : Member) (after others : List Member)
    → left ≡ before ++ m ∷ after
    → others ≡ before ++ after
    → length left ≡ suc (length others)
shorter left before m after others e f =
    omega (
      arith,
      ap length e,
      ap length f,
      length-append before (m ∷ after),
      length-append before after,
    )

-- With more turns than objects the loop over archived objects ends. Each turn takes the first
-- object with a symbol that is defined in it and only referenced by the globals, or the reverse,
-- adds it to those that are linked, keeps the others in their order, and adds to the globals the
-- names that it only refers to, as undefined, where the globals lack them; it stops when no
-- object that is left has such a symbol.
pub include_objects-Ended :
    (fuel : ℕ) (s : Included)
    → length s.left < fuel
    → (t : Included) × (include_objects fuel s ≡ some t) × Ended s t
unfolding include_objects include_found
include_objects-Ended zero s enough = absurd (omega arith)
include_objects-Ended (suc fuel) s enough =
    either_way-Ended s (find_wanted s.cur_globals s.left) _
      (find_wanted-Search s.cur_globals s.left)
      λ (m, others) (before, after, e, f, settled, here).
        let less = shorter s.left before m after others e f in
        let cur = extend_undefineds m.1 s.cur_globals in
        let (t, done, ended) =
          include_objects-Ended fuel (include_found m others s) (omega (arith, less)) in
        (
          t,
          done,
          takes before after m e settled here (says-extend_undefineds m.1 s.cur_globals) (
              subst
                (λ l. Ended (record { cur_globals = cur; objs = s.objs ++ m.0 ∷ []; left = l }) t) f
                ended),
        )
