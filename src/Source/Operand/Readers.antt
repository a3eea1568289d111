-- ===== src/Source/Operand/Readers.antt =====
-- src/source/mod.rs: the form of what each reader of operands yields.
use telda.Prelude.{ℕ, refl, List, [], ◌∷◌}
use telda.Source.{SourceOperand, Wide, SourceLocation, DataOperand}
use telda.Source.Symbols.{Symbols, size}
use telda.Source.Symbols.Growth.{IsSymbols}
use telda.Source.Operand.{
  Reader, continue, as_byte, as_wide, imm_byte, parse_nothing, parse_breg, parse_wreg,
  parse_imm_byte, parse_imm_wide, parse_byte_imm, parse_wide_imm,
}
use telda.Source.Operand.Forms.{
  next_byte, next_wide, next_imm, dropped, parse_three_byte, parse_three_wide, parse_wide_imm_byte,
  parse_wide_imm_wide, parse_two_wide_one_byte, parse_byte_wide_imm, parse_two_wide_imm,
  parse_byte_two_wide, parse_four_byte, parse_four_wide,
}
use telda.Source.Operand.Format.{
  Form, form, one, pair, pair_with, two_pairs, byte_field, wide_field, unused, byte_number,
  wide_number, three_bytes, three_wides, four_bytes, four_wides, WideFits,
}
use telda.Source.Operand.Reading.{
  Silent, Holds, Formed, Forms, Grown-refl, silently, labelling, after_next, after_required,
  after_nothing, required-Silent,
}

next_byte-Silent : Silent next_byte
next_byte-Silent [] s = refl
next_byte-Silent (op ∷ ops) s = required-Silent (as_byte op) ops s

next_wide-Silent : Silent next_wide
next_wide-Silent [] s = refl
next_wide-Silent (op ∷ ops) s = required-Silent (as_wide op) ops s

dropped_nothing-Silent : Silent (dropped parse_nothing)
unfolding parse_nothing
dropped_nothing-Silent [] s = refl
dropped_nothing-Silent (op ∷ ops) s = refl

abbrev after_byte :
    (shape : Form) (f : ℕ → Reader DataOperand) (s : Symbols)
    → IsSymbols s
    → (ops : List SourceOperand)
    → ((a : ℕ) (left : List SourceOperand) → Holds (Formed shape) s (f a left s))
    → Holds (Formed shape) s (continue f (next_byte ops s))
after_byte shape f s kept ops h = silently shape f s kept (next_byte) next_byte-Silent ops h

abbrev after_wide :
    (shape : Form) (f : ℕ → Reader DataOperand) (s : Symbols)
    → IsSymbols s
    → (ops : List SourceOperand)
    → ((a : ℕ) (left : List SourceOperand) → Holds (Formed shape) s (f a left s))
    → Holds (Formed shape) s (continue f (next_wide ops s))
after_wide shape f s kept ops h = silently shape f s kept (next_wide) next_wide-Silent ops h

abbrev after_dropped :
    (shape : Form) (f : Unit → Reader DataOperand) (s : Symbols)
    → IsSymbols s
    → (ops : List SourceOperand)
    → ((a : Unit) (left : List SourceOperand) → Holds (Formed shape) s (f a left s))
    → Holds (Formed shape) s (continue f (dropped parse_nothing ops s))
after_dropped shape f s kept ops h =
    silently shape f s kept (dropped parse_nothing) dropped_nothing-Silent ops h

after_imm :
    (shape : Form) (f : Wide → Reader DataOperand) (s : Symbols)
    → IsSymbols s
    → (ops : List SourceOperand) (sl : SourceLocation)
    → ((w : Wide) (left : List SourceOperand) (t : Symbols)
        → IsSymbols t
        → WideFits (size t) w
        → Holds (Formed shape) t (f w left t))
    → Holds (Formed shape) s (continue f (next_imm sl ops s))
after_imm shape f s kept [] sl h = Grown-refl s kept
after_imm shape f s kept (op ∷ ops) sl h = labelling shape f s kept op sl ops λ w t. h w ops t

pub parse_breg-Forms : Forms (pair byte_field unused) parse_breg
unfolding parse_breg form
parse_breg-Forms ops s kept =
    let F : Form = pair byte_field unused in
    after_next F _ s kept ops λ op left.
      after_required F _ s kept (as_byte op) left
        λ r left. after_nothing F _ s kept left λ z left. (Grown-refl s kept, (tt, refl))

pub parse_wreg-Forms : Forms (pair wide_field unused) parse_wreg
unfolding parse_wreg form
parse_wreg-Forms ops s kept =
    let F : Form = pair wide_field unused in
    after_next F _ s kept ops λ op left.
      after_required F _ s kept (as_wide op) left
        λ r left. after_nothing F _ s kept left λ z left. (Grown-refl s kept, (tt, refl))

pub parse_imm_byte-Forms : Forms (one byte_number) parse_imm_byte
unfolding parse_imm_byte form
parse_imm_byte-Forms ops s kept =
    let F : Form = one byte_number in
    after_next F _ s kept ops λ op left.
      after_required F _ s kept (imm_byte op) left
        λ r left. after_nothing F _ s kept left λ z left. (Grown-refl s kept, (tt, refl))

pub parse_imm_wide-Forms : (sl : SourceLocation) → Forms (one wide_number) (parse_imm_wide sl)
unfolding parse_imm_wide form
parse_imm_wide-Forms sl ops s kept =
    let F : Form = one wide_number in
    after_next F _ s kept ops λ op left.
      labelling F _ s kept op sl left λ w t grown fits.
        after_nothing F _ t grown left λ z left. (Grown-refl t grown, (fits, refl))

pub parse_byte_imm-Forms : Forms (pair_with byte_field unused byte_number) parse_byte_imm
unfolding parse_byte_imm form
parse_byte_imm-Forms ops s kept =
    let F : Form = pair_with byte_field unused byte_number in
    after_next F _ s kept ops λ reg1 left. after_next F _ s kept left λ imm left.
      after_required F _ s kept (as_byte reg1) left λ r left.
        after_required F _ s kept (imm_byte imm) left λ r left. (Grown-refl s kept, (tt, refl))

pub parse_wide_imm-Forms :
    (sl : SourceLocation) → Forms (pair_with wide_field unused wide_number) (parse_wide_imm sl)
unfolding parse_wide_imm form
parse_wide_imm-Forms sl ops s kept =
    let F : Form = pair_with wide_field unused wide_number in
    after_next F _ s kept ops λ reg1 left. after_next F _ s kept left λ imm left.
      after_required F _ s kept (as_wide reg1) left λ r left.
        labelling F _ s kept imm sl left λ w t grown fits. (Grown-refl t grown, (fits, refl))

pub parse_three_byte-Forms : Forms (three_bytes) parse_three_byte
unfolding parse_three_byte form
parse_three_byte-Forms ops s kept =
    let F : Form = three_bytes in
    after_next F _ s kept ops λ reg1 left. after_next F _ s kept left λ reg2 left.
      after_next F _ s kept left λ reg3 left.
        after_required F _ s kept (as_byte reg1) left λ r left.
          after_required F _ s kept (as_byte reg2) left λ r left.
            after_required F _ s kept (as_byte reg3) left λ r left. (Grown-refl s kept, (tt, refl))

pub parse_three_wide-Forms : Forms (three_wides) parse_three_wide
unfolding parse_three_wide form
parse_three_wide-Forms ops s kept =
    let F : Form = three_wides in
    after_next F _ s kept ops λ reg1 left. after_next F _ s kept left λ reg2 left.
      after_next F _ s kept left λ reg3 left.
        after_required F _ s kept (as_wide reg1) left λ r left.
          after_required F _ s kept (as_wide reg2) left λ r left.
            after_required F _ s kept (as_wide reg3) left λ r left. (Grown-refl s kept, (tt, refl))

pub parse_wide_imm_byte-Forms :
    (sl : SourceLocation)
    → Forms (pair_with wide_field byte_field wide_number) (parse_wide_imm_byte sl)
unfolding parse_wide_imm_byte form
parse_wide_imm_byte-Forms sl ops s kept =
    let F : Form = pair_with wide_field byte_field wide_number in
    after_wide F _ s kept ops λ r left. after_imm F _ s kept left sl λ w left t grown fits.
      after_byte F _ t grown left λ r left. (Grown-refl t grown, (fits, refl))

pub parse_wide_imm_wide-Forms :
    (sl : SourceLocation)
    → Forms (pair_with wide_field wide_field wide_number) (parse_wide_imm_wide sl)
unfolding parse_wide_imm_wide form
parse_wide_imm_wide-Forms sl ops s kept =
    let F : Form = pair_with wide_field wide_field wide_number in
    after_wide F _ s kept ops λ r left. after_imm F _ s kept left sl λ w left t grown fits.
      after_wide F _ t grown left λ r left. (Grown-refl t grown, (fits, refl))

pub parse_two_wide_one_byte-Forms :
    Forms (two_pairs wide_field wide_field byte_field unused) parse_two_wide_one_byte
unfolding parse_two_wide_one_byte form
parse_two_wide_one_byte-Forms ops s kept =
    let F : Form = two_pairs wide_field wide_field byte_field unused in
    after_wide F _ s kept ops λ r left.
      after_wide F _ s kept left
        λ r left. after_byte F _ s kept left λ r left. (Grown-refl s kept, (tt, refl))

pub parse_byte_wide_imm-Forms :
    (sl : SourceLocation)
    → Forms (pair_with byte_field wide_field wide_number) (parse_byte_wide_imm sl)
unfolding parse_byte_wide_imm form
parse_byte_wide_imm-Forms sl ops s kept =
    let F : Form = pair_with byte_field wide_field wide_number in
    after_byte F _ s kept ops λ r left. after_wide F _ s kept left λ r left.
      after_imm F _ s kept left sl λ w left t grown fits. (Grown-refl t grown, (fits, refl))

pub parse_two_wide_imm-Forms :
    (sl : SourceLocation)
    → Forms (pair_with wide_field wide_field wide_number) (parse_two_wide_imm sl)
unfolding parse_two_wide_imm form
parse_two_wide_imm-Forms sl ops s kept =
    let F : Form = pair_with wide_field wide_field wide_number in
    after_wide F _ s kept ops λ r left. after_wide F _ s kept left λ r left.
      after_imm F _ s kept left sl λ w left t grown fits. (Grown-refl t grown, (fits, refl))

pub parse_byte_two_wide-Forms :
    Forms (two_pairs byte_field wide_field wide_field unused) parse_byte_two_wide
unfolding parse_byte_two_wide form
parse_byte_two_wide-Forms ops s kept =
    let F : Form = two_pairs byte_field wide_field wide_field unused in
    after_byte F _ s kept ops λ r left.
      after_wide F _ s kept left
        λ r left. after_wide F _ s kept left λ r left. (Grown-refl s kept, (tt, refl))

pub parse_four_byte-Forms : Forms (four_bytes) parse_four_byte
unfolding parse_four_byte form
parse_four_byte-Forms ops s kept =
    let F : Form = four_bytes in
    after_next F _ s kept ops λ reg1 left. after_next F _ s kept left λ reg2 left.
      after_next F _ s kept left λ reg3 left. after_next F _ s kept left λ reg4 left.
        after_dropped F _ s kept left λ z left.
          after_required F _ s kept (as_byte reg1) left λ r left.
            after_required F _ s kept (as_byte reg2) left λ r left.
              after_required F _ s kept (as_byte reg3) left λ r left.
                after_required F _ s kept (as_byte reg4) left
                  λ r left. (Grown-refl s kept, (tt, refl))

pub parse_four_wide-Forms : Forms (four_wides) parse_four_wide
unfolding parse_four_wide form
parse_four_wide-Forms ops s kept =
    let F : Form = four_wides in
    after_next F _ s kept ops λ reg1 left. after_next F _ s kept left λ reg2 left.
      after_next F _ s kept left λ reg3 left. after_next F _ s kept left λ reg4 left.
        after_dropped F _ s kept left λ z left.
          after_required F _ s kept (as_wide reg1) left λ r left.
            after_required F _ s kept (as_wide reg2) left λ r left.
              after_required F _ s kept (as_wide reg3) left λ r left.
                after_required F _ s kept (as_wide reg4) left
                  λ r left. (Grown-refl s kept, (tt, refl))
