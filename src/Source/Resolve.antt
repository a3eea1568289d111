-- ===== src/Source/Resolve.antt =====
-- src/source/mod.rs: `process`, the labels and the entry of a source file.
pub mod Counted
pub mod Total
use telda.Prelude.{ℕ, List, [], ◌∷◌, ◌++◌, Option, none, some, add16}
use telda.Align.{page_size}
use telda.Obj.{SegmentType, unknown, Entry}
use telda.Source.{
  Text, Address, SourceLocation, Error, other, defined_reference, never_defined, Checked, ok, err,
  panics,
}
use telda.Source.Partial.{◌>>=◌}
use telda.Source.Symbols.{
  Symbols, SymbolType, internal, global, reference, Position, defined, used, no_symbols, into_iter,
}
use telda.Source.Segments.{Segments, new_state, layout, start_of}
use telda.Source.Process.Files.{Lines, include_file, inner_process_with}

-- `(Box<str>, SymbolType, SegmentType, u16)`
pub record Label : Type 0 where
  pub name : Text
  pub symbol_type : SymbolType
  pub segment_type : SegmentType
  pub location : ℕ

pub record ProcessedSource : Type 0 where
  pub labels : List Label
  pub dls : Segments
  pub entry : Option Entry

abbrev pub never_defined_at : Text → SourceLocation → Error
never_defined_at l loc = record {
  source = loc.source;
  ln = loc.line_number;
  error = other (never_defined l);
}

-- The last use comes first.
unfoldable pub use_errors : Text → List SourceLocation → List Error
use_errors l [] = []
use_errors l (loc ∷ uses) = use_errors l uses ++ never_defined_at l loc ∷ []

-- What the loop over the symbols makes of one of them: a label, or errors. A label that is neither
-- defined nor used is the panic of `expect`.
unfoldable pub resolve_symbol :
    Text → Segments → Text × SymbolType × Position → Checked (List Error) Label
resolve_symbol src dls (l, reference, defined addr) =
    err (record { source = src; ln = 0; error = other (defined_reference l addr) } ∷ [])
resolve_symbol src dls (l, internal, defined addr) = ok (record {
  name = l;
  symbol_type = internal;
  segment_type = addr.segment;
  location = add16 addr.offset (start_of addr.segment dls);
})
resolve_symbol src dls (l, global, defined addr) = ok (record {
  name = l;
  symbol_type = global;
  segment_type = addr.segment;
  location = add16 addr.offset (start_of addr.segment dls);
})
resolve_symbol src dls (l, internal, used []) = panics
resolve_symbol src dls (l, internal, used (loc ∷ uses)) = err (use_errors l (loc ∷ uses))
resolve_symbol src dls (l, reference, used uses) =
    ok (record { name = l; symbol_type = reference; segment_type = unknown; location = 0xfaff })
resolve_symbol src dls (l, global, used uses) =
    ok (record { name = l; symbol_type = reference; segment_type = unknown; location = 0xfaff })

unfoldable pub resolved :
    Checked (List Error) Label → List Label → List Error → Option (List Label × List Error)
resolved (ok label) labels errors = some (labels ++ label ∷ [], errors)
resolved (err more) labels errors = some (labels, errors ++ more)
resolved panics labels errors = none

-- The loop: the labels and the errors so far; `none` is the panic.
unfoldable pub resolve :
    Text
    → Segments
    → List (Text × SymbolType × Position)
    → List Label
    → List Error
    → Option (List Label × List Error)
resolve src dls [] labels errors = some (labels, errors)
resolve src dls (symbol ∷ symbols) labels errors =
    resolved (resolve_symbol src dls symbol) labels errors >>= λ (labels, errors).
    resolve src dls symbols labels errors

-- The end of `process`: the entry's address, or the errors.
unfoldable pub conclude :
    Segments → Option Address → List Label → List Error → Checked (List Error) ProcessedSource
conclude dls entry labels (e ∷ errors) = err (e ∷ errors)
conclude dls none labels [] = ok (record { labels = labels; dls = dls; entry = none })
conclude dls (some addr) labels [] = ok (record {
  labels = labels;
  dls = dls;
  entry =
      some (record {
        segment = addr.segment;
        location = add16 addr.offset (start_of addr.segment dls);
      });
})

-- A panic on the way is a panic.
abbrev pub checked : {A E B : Type 0} → Option A → (A → Checked E B) → Checked E B
checked none f = panics
checked (some a) f = f a

-- What follows the lines.
unfoldable pub finish :
    Text → List Error → Segments → Option Address → Symbols → Checked (List Error) ProcessedSource
finish src errors segments entry symbols =
    let dls = layout page_size segments in
    checked (resolve src dls (into_iter symbols) [] errors)
      λ (labels, errors). conclude dls entry labels errors

module _ (open_file : Text → Option Lines) (sibling : Text → Text → Text) where
  -- The fuel is the depth of inclusions that are allowed.
  unfoldable pub process : ℕ → Text → Lines → Checked (List Error) ProcessedSource
  process depth src lines =
      checked
        (inner_process_with (include_file open_file sibling depth) src lines new_state no_symbols)
        λ (errors, state, symbols). finish src errors state.dls state.entry symbols
