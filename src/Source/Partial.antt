-- ===== src/Source/Partial.antt =====
-- A panic of the sources under src/source and src/bin, as an absent value.
use telda.Prelude.{◌≡◌, refl, Bool, true, false, Option, none, some, if◌then◌else◌}

infixl 5 ◌>>=◌
abbrev pub ◌>>=◌ : {A B : Type 0} → Option A → (A → Option B) → Option B
none >>= f = none
some a >>= f = f a

-- A property of what there is.
abbrev pub Given : {A : Type 0} → (A → Type 0) → Option A → Type 0
Given P none = Unit
Given P (some a) = P a

pub Given-bind :
    {A B : Type 0} (P : A → Type 0) (Q : B → Type 0) (f : A → Option B) (o : Option A)
    → Given P o
    → ((a : A) → P a → Given Q (f a))
    → Given Q (o >>= f)
Given-bind P Q f none h k = tt
Given-bind P Q f (some a) h k = k a h

-- There is something, with a property.
abbrev pub There : {A : Type 0} → (A → Type 0) → Option A → Type 0
There P none = ⊥
There P (some a) = P a

pub There-bind :
    {A B : Type 0} (P : A → Type 0) (Q : B → Type 0) (f : A → Option B) (o : Option A)
    → There P o
    → ((a : A) → P a → There Q (f a))
    → There Q (o >>= f)
There-bind P Q f none h k = h
There-bind P Q f (some a) h k = k a h

pub There-map :
    {A : Type 0} (P Q : A → Type 0) (o : Option A) → There P o → ((a : A) → P a → Q a) → There Q o
There-map P Q none h k = h
There-map P Q (some a) h k = k a h

pub There-if :
    {A : Type 0} (P : A → Type 0) (b : Bool) (x y : Option A)
    → (b ≡ true → There P x)
    → (b ≡ false → There P y)
    → There P (if b then x else y)
There-if P true x y h k = h refl
There-if P false x y h k = k refl
