-- ===== src/Mem.antt =====
-- src/mem.rs: the interface of a memory. `none` is a panic: a read may change the memory's state,
-- since a port may.
pub mod Io
pub mod Lazy
pub mod Total
pub mod Ram
use telda.Prelude.{
  ℕ, suc, ◌+◌, ◌^◌, ◌<◌, ◌≡◌, Option, none, some, List, [], ◌∷◌, IsByte, add32, of_le_bytes32,
}

pub record MainMemory (M : Type 0) : Type 0 where
  pub read : ℕ → M → Option (ℕ × M)
  pub write : ℕ → ℕ → M → Option M

-- What a client may rely on: on a valid memory every access below 2 ^ 24 returns, gives a byte
-- and leaves a valid memory.
pub record MemoryLaws {M : Type 0} (mm : MainMemory M) : Type 1 where
  pub IsValid : M → Type 0
  pub read-total :
      (addr : ℕ) (m : M)
      → addr < 2 ^ 24
      → IsValid m
      → (v : ℕ) × (m' : M) × (mm.read addr m ≡ some (v, m')) × IsByte v × IsValid m'
  pub write-total :
      (addr v : ℕ) (m : M)
      → addr < 2 ^ 24
      → IsByte v
      → IsValid m
      → (m' : M) × (mm.write addr v m ≡ some m') × IsValid m'

infixl 5 ◌>>=◌
abbrev pub ◌>>=◌ : {A B : Type 0} → Option A → (A → Option B) → Option B
none >>= f = none
some a >>= f = f a

module _ {M : Type 0} ⦃mm : MainMemory M⦄ where
  -- `read_n::<4>` and `u32::from_le_bytes` of its bytes
  unfoldable pub read_u32 : ℕ → M → Option (ℕ × M)
  read_u32 addr m = do
    (a, m) ← mm.read addr m
    (b, m) ← mm.read (add32 addr 1) m
    (c, m) ← mm.read (add32 addr 2) m
    (d, m) ← mm.read (add32 addr 3) m
    some (of_le_bytes32 a b c d, m)

  -- `write_n`: the bytes of `data` at consecutive addresses, from the `i`-th on
  unfoldable pub write_from : ℕ → ℕ → List ℕ → M → Option M
  write_from addr i [] m = some m
  write_from addr i (b ∷ bytes) m = mm.write (add32 addr i) b m >>= write_from addr (suc i) bytes

  unfoldable pub write_n : ℕ → List ℕ → M → Option M
  unfolding write_from
  write_n addr bytes m = write_from addr 0 bytes m
