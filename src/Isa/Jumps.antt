-- ===== src/Isa/Jumps.antt =====
-- src/blf4/isa/handlers.rs: conditional jumps.
pub mod Compare
use mathlib.Core.Bool.{beq}
use telda.Prelude.{Bool, not, ◌&&◌, ◌||◌, if◌then◌else◌}
use telda.Mem.{MainMemory}
use telda.Blf4.Action.{pure, ◌>>=◌, ◌>>◌}
use telda.Blf4.Flags.{Blf4Flags}
use telda.Blf4.Context.{the_flags, set_program_counter}
use telda.Isa.Args.{arg_imm_wide}
use telda.Isa.System.{Handler}

-- The condition of each jump, on the flags when the instruction starts.
abbrev pub jez_taken : Blf4Flags → Bool
jez_taken f = f.zero

abbrev pub jlt_taken : Blf4Flags → Bool
jlt_taken f = not (beq f.sign f.overflow)

abbrev pub jle_taken : Blf4Flags → Bool
jle_taken f = not (beq f.sign f.overflow) && f.zero

abbrev pub jgt_taken : Blf4Flags → Bool
jgt_taken f = beq f.sign f.overflow && not f.zero

abbrev pub jge_taken : Blf4Flags → Bool
jge_taken f = beq f.sign f.overflow

abbrev pub jnz_taken : Blf4Flags → Bool
jnz_taken f = not f.zero

abbrev pub jo_taken : Blf4Flags → Bool
jo_taken f = f.overflow

abbrev pub jno_taken : Blf4Flags → Bool
jno_taken f = not f.overflow

abbrev pub ja_taken : Blf4Flags → Bool
ja_taken f = not f.carry && not f.zero

abbrev pub jae_taken : Blf4Flags → Bool
jae_taken f = not f.carry

abbrev pub jb_taken : Blf4Flags → Bool
jb_taken f = f.carry

abbrev pub jbe_taken : Blf4Flags → Bool
jbe_taken f = f.carry || f.zero

module _ {M : Type 0} ⦃mm : MainMemory M⦄ where
  unfoldable pub jif : Bool → Handler M
  jif taken = do location ← arg_imm_wide; if taken then set_program_counter location else pure tt

  unfoldable pub jez : Handler M
  unfolding jif
  jez = do flags ← the_flags; jif (jez_taken flags)

  unfoldable pub jlt : Handler M
  unfolding jif
  jlt = do flags ← the_flags; jif (jlt_taken flags)

  unfoldable pub jle : Handler M
  unfolding jif
  jle = do flags ← the_flags; jif (jle_taken flags)

  unfoldable pub jgt : Handler M
  unfolding jif
  jgt = do flags ← the_flags; jif (jgt_taken flags)

  unfoldable pub jge : Handler M
  unfolding jif
  jge = do flags ← the_flags; jif (jge_taken flags)

  unfoldable pub jnz : Handler M
  unfolding jif
  jnz = do flags ← the_flags; jif (jnz_taken flags)

  unfoldable pub jo : Handler M
  unfolding jif
  jo = do flags ← the_flags; jif (jo_taken flags)

  unfoldable pub jno : Handler M
  unfolding jif
  jno = do flags ← the_flags; jif (jno_taken flags)

  unfoldable pub ja : Handler M
  unfolding jif
  ja = do flags ← the_flags; jif (ja_taken flags)

  unfoldable pub jae : Handler M
  unfolding jif
  jae = do flags ← the_flags; jif (jae_taken flags)

  unfoldable pub jb : Handler M
  unfolding jif
  jb = do flags ← the_flags; jif (jb_taken flags)

  unfoldable pub jbe : Handler M
  unfolding jif
  jbe = do flags ← the_flags; jif (jbe_taken flags)
