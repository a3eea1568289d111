-- ===== src/Blf4/Action.antt =====
-- The shape of the emulator's operations: they take a mutable state and return a value or a trap.
-- What was written before a trap stays written, so a trap carries the state too.
use telda.Prelude.{◌≡◌, refl, Bool, true, false, if◌then◌else◌}
use telda.Blf4.Trap.{TrapMode}

pub data Outcome (S A : Type 0) : Type 0 where
  done : A → S → Outcome S A
  trap : TrapMode → S → Outcome S A
  panic : Outcome S A

abbrev pub Action : Type 0 → Type 0 → Type 0
Action S A = S → Outcome S A

abbrev pub pure : {S A : Type 0} → A → Action S A
pure a s = done a s

abbrev pub and_then : {S A B : Type 0} → Outcome S A → (A → Action S B) → Outcome S B
and_then (done a s) f = f a s
and_then (trap tm s) f = trap tm s
and_then panic f = panic

infixl 5 ◌>>=◌ ◌>>◌
abbrev pub ◌>>=◌ : {S A B : Type 0} → Action S A → (A → Action S B) → Action S B
◌>>=◌ m f s = and_then (m s) f

abbrev pub ◌>>◌ : {S B : Type 0} → Action S (Unit {0}) → Action S B → Action S B
m >> k = m >>= λ _. k

abbrev pub raise : {S A : Type 0} → TrapMode → Action S A
raise tm s = trap tm s

abbrev pub raise_if : {S : Type 0} → Bool → TrapMode → Action S (Unit {0})
raise_if b tm = if b then raise tm else pure tt

abbrev pub gets : {S A : Type 0} → (S → A) → Action S A
gets f s = done (f s) s

abbrev pub modify : {S : Type 0} → (S → S) → Action S (Unit {0})
modify f s = done tt (f s)

-- Postconditions. `Ensures I R` says of an outcome that it is no panic, that its state satisfies
-- `I`, also after a trap, and that a returned value satisfies `R`.
pub data Ensures {S A : Type 0} (I : S → Type 0) (R : A → Type 0) : Outcome S A → Type 0 where
  returns : {a : A} {s : S} → R a → I s → Ensures I R (done a s)
  traps : {tm : TrapMode} {s : S} → I s → Ensures I R (trap tm s)

-- `Keeps I R m`: the invariant `I` survives the action `m`.
abbrev pub Keeps : {S A : Type 0} → (S → Type 0) → (A → Type 0) → Action S A → Type 0
Keeps {S} I R m = (s : S) → I s → Ensures I R (m s)

-- No condition on the value.
abbrev pub Any : {A : Type 0} → A → Type 0
Any a = Unit {0}

module _ {S A B : Type 0} {I : S → Type 0} {R : A → Type 0} {Q : B → Type 0} where
  Ensures-and_then :
      {r : Outcome S A} {f : A → Action S B}
      → Ensures I R r
      → ((a : A) → R a → Keeps I Q (f a))
      → Ensures I Q (and_then r f)
  Ensures-and_then (returns h i) k = k _ h _ i
  Ensures-and_then (traps i) k = traps i

  -- An invariant survives a sequence if it survives the parts.
  pub bind :
      {m : Action S A} {f : A → Action S B}
      → Keeps I R m
      → ((a : A) → R a → Keeps I Q (f a))
      → Keeps I Q (m >>= f)
  bind h k = λ s i. Ensures-and_then (h s i) k

module _ {S A B : Type 0} {I : S → Type 0} {R : A → Type 0} where
  -- What follows an action, seen from its two kinds of outcome.
  pub after :
      (D : Outcome S B → Type 0) (r : Outcome S A) (f : A → Action S B)
      → Ensures I R r
      → ((a : A) (s : S) → R a → I s → D (f a s))
      → ((tm : TrapMode) (s : S) → I s → D (trap tm s))
      → D (and_then r f)
  after D _ f (returns h i) k t = k _ _ h i
  after D _ f (traps i) k t = t _ _ i

module _ {S B : Type 0} {I : S → Type 0} {Q : B → Type 0} where
  pub bind_const :
      {m : Action S (Unit {0})} {k : Action S B} → Keeps I Any m → Keeps I Q k → Keeps I Q (m >> k)
  bind_const h k = bind h (λ _ _. k)

  pub Keeps-pure : {b : B} → Q b → Keeps I Q (pure b)
  Keeps-pure h = λ s i. returns h i

  pub Keeps-raise : {tm : TrapMode} → Keeps I Q (raise tm)
  Keeps-raise = λ s i. traps i

  pub Keeps-if :
      (b : Bool) {m n : Action S B} → Keeps I Q m → Keeps I Q n → Keeps I Q (if b then m else n)
  Keeps-if true h k = h
  Keeps-if false h k = k

module _ {S : Type 0} {I : S → Type 0} where
  pub Keeps-raise_if : (b : Bool) (tm : TrapMode) → Keeps I Any (raise_if b tm)
  Keeps-raise_if b tm = Keeps-if b Keeps-raise (Keeps-pure tt)

module _ {S A : Type 0} {I : S → Type 0} {R : A → Type 0} where
  -- A branch, each side with the test's outcome at hand.
  pub Ensures-if :
      (b : Bool) {x y : Outcome S A}
      → (b ≡ true → Ensures I R x)
      → (b ≡ false → Ensures I R y)
      → Ensures I R (if b then x else y)
  Ensures-if true h k = h refl
  Ensures-if false h k = k refl
