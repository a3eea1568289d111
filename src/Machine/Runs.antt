-- ===== src/Machine/Runs.antt =====
-- src/machine/mod.rs: the loop of `run_until_abort` against the chains of instructions.
use telda.Prelude.{ℕ, zero, suc, ◌<◌, ◌≡◌, refl, ap, ◌∙◌, arith, some}
use telda.Mem.{MainMemory}
use telda.Blf4.Trap.{TrapMode}
use telda.Blf4.Action.{Outcome, done, trap, panic}
use telda.Machine.{Machine, EmulatedKernel, loop_on, execute_once, run_until_abort}

module _ {M K : Type 0} ⦃mm : MainMemory M⦄ ⦃ek : EmulatedKernel M K⦄ where
  -- `n` rounds that end without a trap lead from a machine to another.
  pub data Chain : ℕ → Machine M K → Machine M K → Type 0 where
    here : {m : Machine M K} → Chain 0 m m
    next :
        {n : ℕ} {m m' m'' : Machine M K}
        → execute_once m ≡ done tt m'
        → Chain n m' m''
        → Chain (suc n) m m''

  -- A machine that meets an unhandled trap after `n` rounds aborts with this trap, in the state that
  -- the trap left, whenever more than `n` rounds are allowed.
  pub run_until_abort-Chain :
      (fuel : ℕ) {n : ℕ} {m m' m'' : Machine M K} {tm : TrapMode}
      → Chain n m m'
      → execute_once m' ≡ trap tm m''
      → n < fuel
      → run_until_abort fuel m ≡ some (trap tm m'')
  unfolding run_until_abort
  run_until_abort-Chain zero c e h = absurd (omega arith)
  run_until_abort-Chain (suc fuel) here e h = ap (λ o. loop_on o (run_until_abort fuel)) e
  run_until_abort-Chain (suc fuel) (next e₁ c) e h =
      ap (λ o. loop_on o (run_until_abort fuel)) e₁ ∙ run_until_abort-Chain fuel c e (omega arith)

  Reaches : ℕ → Machine M K → TrapMode → Machine M K → Type 0
  Reaches fuel m tm m'' =
      (n : ℕ) × (m' : Machine M K) × (n < fuel) × Chain n m m' × (execute_once m' ≡ trap tm m'')

  loop_on-Reaches :
      (fuel : ℕ) (m : Machine M K) {m'' : Machine M K} {tm : TrapMode}
      (o : Outcome (Machine M K) (Unit {0}))
      → execute_once m ≡ o
      → loop_on o (run_until_abort fuel) ≡ some (trap tm m'')
      → ((m' : Machine M K) → run_until_abort fuel m' ≡ some (trap tm m'') → Reaches fuel m' tm m'')
      → Reaches (suc fuel) m tm m''
  unfolding Reaches
  loop_on-Reaches fuel m (done u m') eq e rest =
      let (n, last, lt, c, e') = rest m' e in (suc n, last, omega arith, next eq c, e')
  loop_on-Reaches fuel m (trap tm m') eq e rest = (0, m, omega arith, here, cc)
  loop_on-Reaches fuel m panic eq e rest = absurd (ground arith)

  -- A machine that aborts has met the trap after a chain of rounds without one, which is shorter
  -- than what is allowed.
  pub Chain-run_until_abort :
      (fuel : ℕ) (m : Machine M K) {m'' : Machine M K} {tm : TrapMode}
      → run_until_abort fuel m ≡ some (trap tm m'')
      → (n : ℕ) × (m' : Machine M K) × (n < fuel) × Chain n m m' × (execute_once m' ≡ trap tm m'')
  unfolding run_until_abort Reaches
  Chain-run_until_abort zero m e = absurd (ground arith)
  Chain-run_until_abort (suc fuel) m e =
      loop_on-Reaches fuel m (execute_once m) refl e λ m' e'. Chain-run_until_abort fuel m' e'
