-- ===== src/Mem/Io.antt =====
-- src/mem.rs: the port interface `Io` and its two implementations. `none` is a panic.
use telda.Prelude.{ℕ, Option, none, some, List, [], ◌∷◌, ◌++◌}

pub record Io (P : Type 0) : Type 0 where
  pub read : ℕ → P → Option (ℕ × P)
  pub write : ℕ → ℕ → P → Option P

pub data PanickingIo : Type 0 where
  panicking_io : PanickingIo

unfoldable pub panicking_read : ℕ → PanickingIo → Option (ℕ × PanickingIo)
panicking_read addr p = none

unfoldable pub panicking_write : ℕ → ℕ → PanickingIo → Option PanickingIo
unfolding panicking_read
panicking_write addr val p = elim (panicking_read addr p) [ none ↦ none | some r ↦ some r.1 ]

-- The bytes that standard input still has, and those written to standard output so far.
pub record StdIo : Type 0 where
  pub stdin : List ℕ
  pub stdout : List ℕ

take_byte : List ℕ → List ℕ → Option (ℕ × StdIo)
take_byte [] out = none
take_byte (b ∷ bs) out = some (b, record { stdin = bs; stdout = out })

-- `read_exact` of one byte panics at the end of the input; the address is not used.
unfoldable pub std_read : ℕ → StdIo → Option (ℕ × StdIo)
unfolding take_byte
std_read addr p = take_byte p.stdin p.stdout

unfoldable pub std_write : ℕ → ℕ → StdIo → Option StdIo
std_write addr val p = some (record p { stdout = p.stdout ++ val ∷ [] })

instance abbrev pub panicking_io_instance : Io PanickingIo
panicking_io_instance = record { read = panicking_read; write = panicking_write }

instance abbrev pub std_io_instance : Io StdIo
std_io_instance = record { read = std_read; write = std_write }
