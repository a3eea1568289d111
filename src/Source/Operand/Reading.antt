-- ===== src/Source/Operand/Reading.antt =====
-- src/source/mod.rs: readers of operands, step by step.
use mathlib.Core.Path.{subst}
use telda.Prelude.{ℕ, ◌≤◌, ◌≡◌, refl, sym, List, [], ◌∷◌, Option, none, some, arith}
use telda.Source.{SourceOperand, byte, wide, byte_reg, wide_reg, Wide, SourceLocation, DataOperand}
use telda.Source.Symbols.{Symbols, get_label, size}
use telda.Source.Symbols.Growth.{IsSymbols, Grown, get_label-Grown}
use telda.Source.Operand.{Reader, continue, next, required, imm_wide, parse_nothing}
use telda.Source.Operand.Format.{Form, bare, form, Fits, WideFits}

-- The symbols grew, and what was read is as said, under the symbols there are.
abbrev pub Holds :
    {A : Type 0} (P : ℕ → A → Type 0) → Symbols → Option (A × List SourceOperand) × Symbols → Type 0
Holds P sym (none, t) = Grown sym t
Holds P sym (some (a, ops), t) = Grown sym t × P (size t) a

pub Holds-after :
    {A : Type 0} (P : ℕ → A → Type 0) (s t : Symbols)
    (r : Option (A × List SourceOperand) × Symbols)
    → size s ≤ size t
    → Holds P t r
    → Holds P s r
Holds-after P s t (none, u) h k = (k.0, omega arith)
Holds-after P s t (some (a, ops), u) h k = ((k.0.0, omega arith), k.1)

-- A reader that leaves the symbols.
abbrev pub Silent : {A : Type 0} → Reader A → Type 0
Silent m = (ops : List SourceOperand) (s : Symbols) → (m ops s).1 ≡ s

pub next-Silent : Silent next
next-Silent [] s = refl
next-Silent (op ∷ ops) s = refl

pub required-Silent : {A : Type 0} (o : Option A) → Silent (required o)
required-Silent none ops s = refl
required-Silent (some a) ops s = refl

pub parse_nothing-Silent : Silent parse_nothing
unfolding parse_nothing
parse_nothing-Silent [] s = refl
parse_nothing-Silent (op ∷ ops) s = refl

-- What an instruction's operand is read as: of a form, with its label in range.
abbrev pub Formed : Form → ℕ → DataOperand → Type 0
Formed shape n d = Fits n d × (form d ≡ shape)

-- A reader that keeps the symbols and yields operands of a form.
abbrev pub Forms : Form → Reader DataOperand → Type 0
Forms shape m =
    (ops : List SourceOperand) (s : Symbols) → IsSymbols s → Holds (Formed shape) s (m ops s)

pub Grown-refl : (s : Symbols) → IsSymbols s → Grown s s
unfolding size
Grown-refl s kept = (kept, omega arith)

continue-same :
    {A : Type 0} (shape : Form) (f : A → Reader DataOperand) (s : Symbols)
    (r : Option (A × List SourceOperand) × Symbols)
    → IsSymbols s
    → r.1 ≡ s
    → ((a : A) (ops : List SourceOperand) → Holds (Formed shape) s (f a ops s))
    → Holds (Formed shape) s (continue f r)
continue-same shape f s (none, t) kept e h = subst (Grown s) (sym e) (Grown-refl s kept)
continue-same shape f s (some (a, ops), t) kept e h =
    subst (λ u. Holds (Formed shape) s (f a ops u)) (sym e) (h a ops)

-- What follows a reader that leaves the symbols.
pub silently :
    {A : Type 0} (shape : Form) (f : A → Reader DataOperand) (s : Symbols)
    → IsSymbols s
    → (m : Reader A) → Silent m
    → (ops : List SourceOperand)
    → ((a : A) (left : List SourceOperand) → Holds (Formed shape) s (f a left s))
    → Holds (Formed shape) s (continue f (m ops s))
silently shape f s kept m silent ops h = continue-same shape f s (m ops s) kept (silent ops s) h

-- What follows an immediate, which may have entered a label.
pub labelling :
    (shape : Form) (f : Wide → Reader DataOperand) (s : Symbols)
    → IsSymbols s
    → (op : SourceOperand) (sl : SourceLocation) (ops : List SourceOperand)
    → ((w : Wide) (t : Symbols)
        → IsSymbols t
        → WideFits (size t) w
        → Holds (Formed shape) t (f w ops t))
    → Holds (Formed shape) s (continue f (imm_wide op sl ops s))
unfolding imm_wide
labelling shape f s kept (SourceOperand.number n) sl ops h = h (Wide.number _) s kept tt
labelling shape f s kept (wide n) sl ops h = h (Wide.number n) s kept tt
labelling shape f s kept (SourceOperand.label lbl) sl ops h =
    let r : ℕ × Symbols = get_label lbl sl s in
    let (grown, below) = get_label-Grown lbl sl s kept in
    Holds-after (Formed shape) s r.1 (f (Wide.label r.0) ops r.1) grown.1
      (h (Wide.label r.0) r.1 grown.0 below)
labelling shape f s kept (byte n) sl ops h = Grown-refl s kept
labelling shape f s kept (byte_reg r) sl ops h = Grown-refl s kept
labelling shape f s kept (wide_reg r) sl ops h = Grown-refl s kept

pub parse_nothing-Forms : Forms bare parse_nothing
unfolding parse_nothing form
parse_nothing-Forms [] s kept = (Grown-refl s kept, (tt, refl))
parse_nothing-Forms (op ∷ ops) s kept = Grown-refl s kept

-- `ops.next()?`, `?` on a register or a byte, and the test for the end.
abbrev pub after_next :
    (shape : Form) (f : SourceOperand → Reader DataOperand) (s : Symbols)
    → IsSymbols s
    → (ops : List SourceOperand)
    → ((op : SourceOperand) (left : List SourceOperand) → Holds (Formed shape) s (f op left s))
    → Holds (Formed shape) s (continue f (next ops s))
after_next shape f s kept ops h = silently shape f s kept next next-Silent ops h

abbrev pub after_required :
    {A : Type 0} (shape : Form) (f : A → Reader DataOperand) (s : Symbols)
    → IsSymbols s
    → (o : Option A) (ops : List SourceOperand)
    → ((a : A) (left : List SourceOperand) → Holds (Formed shape) s (f a left s))
    → Holds (Formed shape) s (continue f (required o ops s))
after_required shape f s kept o ops h =
    silently shape f s kept (required o) (required-Silent o) ops h

abbrev pub after_nothing :
    (shape : Form) (f : DataOperand → Reader DataOperand) (s : Symbols)
    → IsSymbols s
    → (ops : List SourceOperand)
    → ((d : DataOperand) (left : List SourceOperand) → Holds (Formed shape) s (f d left s))
    → Holds (Formed shape) s (continue f (parse_nothing ops s))
after_nothing shape f s kept ops h =
    silently shape f s kept parse_nothing parse_nothing-Silent ops h
