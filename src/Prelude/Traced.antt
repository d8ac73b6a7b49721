-- ===== src/Prelude/Traced.antt =====
-- A computation that does effects in an order and may raise: the list of its effects with its
-- value, or with none when an exception leaves it.
use mathlib.Core.Path.{◌≡◌, refl, ap}
use mathlib.Core.Bool.{Bool, true, false}
use mathlib.Core.Option.{Option, none, some}
use mathlib.Core.List.{List, [], ◌∷◌, ◌++◌, append_assoc}

abbrev pub Traced {ℓ} : Type 0 → Type ℓ → Type ℓ
Traced E A = List E × Option A

module _ {ℓ} {E : Type 0} {A : Type ℓ} where
  abbrev pub pure : A → Traced E A
  pure a = ([], some a)

  abbrev pub raised : Traced E A
  raised = ([], none)

  -- An effect, and then the answer to it.
  abbrev pub ask : E → Option A → Traced E A
  ask e answer = (e ∷ [], answer)

abbrev pub continue_with {ℓ κ} :
    {E : Type 0} {A : Type ℓ} {B : Type κ} → List E → Option A → (A → Traced E B) → Traced E B
continue_with es none f = (es, none)
continue_with es (some a) f = let rest = f a in (es ++ rest.0, rest.1)

infixl 20 ◌>>=◌
abbrev pub ◌>>=◌ {ℓ κ} :
    {E : Type 0} {A : Type ℓ} {B : Type κ} → Traced E A → (A → Traced E B) → Traced E B
m >>= f = continue_with m.0 m.1 f

-- The answer to a call that returns nothing: whether it returns or raises.
abbrev pub done : Bool → Option (Unit {0})
done true = some tt
done false = none

-- What a computation returns, if it returns.
abbrev pub Returns : {A : Type 0} → (A → Type 0) → Option A → Type 0
Returns P none = Unit
Returns P (some a) = P a

pub Returns-tt : {A : Type 0} (o : Option A) → Returns (λ a. Unit) o
Returns-tt none = tt
Returns-tt (some a) = tt

-- A bind where the first part returns what it should.
pub Returns-then :
    {E A B : Type 0} (Q : A → Type 0) (P : B → Type 0) (m : Traced E A) (f : A → Traced E B)
    → Returns Q m.1
    → ((a : A) → Q a → Returns P (f a).1)
    → Returns P (m >>= f).1
Returns-then Q P (es, none) f q h = tt
Returns-then Q P (es, some a) f q h = h a q

pub Returns-bind :
    {E A B : Type 0} (P : B → Type 0) (m : Traced E A) (f : A → Traced E B)
    → ((a : A) → Returns P (f a).1)
    → Returns P (m >>= f).1
Returns-bind P (es, none) f h = tt
Returns-bind P (es, some a) f h = h a

-- Two ways to go on that agree where the first part leads.
pub bind-same :
    {E A B : Type 0} (Q : A → Type 0) (m : Traced E A) (f g : A → Traced E B)
    → Returns Q m.1
    → ((a : A) → Q a → f a ≡ g a)
    → (m >>= f) ≡ (m >>= g)
bind-same Q (es, none) f g q h = refl
bind-same Q (es, some a) f g q h = ap (λ r. (es ++ r.0, r.1)) (h a q)

continue_assoc :
    {E B C : Type 0} (es ds : List E) (o : Option B) (g : B → Traced E C)
    → continue_with (es ++ ds) o g ≡ (es ++ (continue_with ds o g).0, (continue_with ds o g).1)
continue_assoc es ds none g = refl
continue_assoc es ds (some b) g = ap (λ xs. (xs, (g b).1)) (append_assoc es ds (g b).0)

pub bind_assoc :
    {E A B C : Type 0} (m : Traced E A) (f : A → Traced E B) (g : B → Traced E C)
    → (m >>= f >>= g) ≡ (m >>= λ a. f a >>= g)
bind_assoc (es, none) f g = refl
bind_assoc (es, some a) f g = continue_assoc es (f a).0 (f a).1 g

pub Returns-same :
    {E A : Type 0} (P : A → Type 0) (m m' : Traced E A) → m ≡ m' → Returns P m'.1 → Returns P m.1
Returns-same P m m' e h = rw e h
