-- ===== src/Parser/Result.antt =====
-- Results of the parser: a value, the error -1, or a loop that the model cut off for lack of fuel.
use petrush.Base.{Bool, true, false, Option, none, some, ◌≡◌, ◌≢◌, refl, subst}

pub data Result {ℓ} (X : Type ℓ) : Type ℓ where
  error : Result X
  out_of_fuel : Result X
  ok : X → Result X

infixl 5 ◌>>=◌
abbrev pub ◌>>=◌ {ℓ κ} : {X : Type ℓ} {Y : Type κ} → Result X → (X → Result Y) → Result Y
error >>= next = error
out_of_fuel >>= next = out_of_fuel
ok x >>= next = next x

-- Two branches that wait for the test.
unfoldable pub branch {ℓ} :
    {X : Type ℓ} → Bool → (Unit {0} → Result X) → (Unit {0} → Result X) → Result X
branch true x y = x tt
branch false x y = y tt

-- Two branches that wait for an answer.
unfoldable pub answer {ℓ κ} :
    {A : Type ℓ} {X : Type κ} → Option A → (Unit {0} → Result X) → (A → Result X) → Result X
answer none x y = x tt
answer (some a) x y = y a

module _ {ℓ κ} {X : Type ℓ} {Y : Type κ} (r : Result X) (next : X → Result Y) where
  -- A chain that succeeds has a first part that does.
  pub bind-ok : {y : Y} → (r >>= next) ≡ ok y → (x : X) × (r ≡ ok x) × (next x ≡ ok y)
  bind-ok e = first r refl e
    where
      first :
          {y : Y} (q : Result X)
          → r ≡ q
          → (q >>= next) ≡ ok y
          → (x : X) × (r ≡ ok x) × (next x ≡ ok y)
      first error h e = cc
      first out_of_fuel h e = cc
      first (ok x) h e = (x, h, e)

  -- A chain has enough fuel where each part of it has.
  pub bind-ne-fuel :
      r ≢ out_of_fuel → ((x : X) → r ≡ ok x → next x ≢ out_of_fuel) → (r >>= next) ≢ out_of_fuel
  bind-ne-fuel h k = second r refl
    where
      second : (q : Result X) → r ≡ q → (q >>= next) ≢ out_of_fuel
      second error e = λ x. cc
      second out_of_fuel e = λ _. h e
      second (ok x) e = k x e

ok-inj {ℓ} : {X : Type ℓ} {x y : X} → ok x ≡ ok y → x ≡ y
ok-inj e = cc

-- The result is the error, or a value for which `P` holds; the fuel did not run out.
pub data Yields {ℓ} {X : Type ℓ} (P : X → Type 0) : Result X → Type ℓ where
  yields_error : Yields P error
  yields : {x : X} → P x → Yields P (ok x)

pub Yields-bind {ℓ κ} :
    {X : Type ℓ} {Y : Type κ} {P : X → Type 0} {Q : Y → Type 0} {r : Result X} {next : X → Result Y}
    → Yields P r
    → ((x : X) → P x → Yields Q (next x))
    → Yields Q (r >>= next)
Yields-bind yields_error k = yields_error
Yields-bind (yields {x} h) k = k x h

pub Yields-ne-fuel {ℓ} : {X : Type ℓ} {P : X → Type 0} {r : Result X} → Yields P r → r ≢ out_of_fuel
Yields-ne-fuel yields_error = λ e. cc
Yields-ne-fuel (yields h) = λ e. cc

pub Yields-ok {ℓ} :
    {X : Type ℓ} {P : X → Type 0} {r : Result X} {x : X} → Yields P r → r ≡ ok x → P x
Yields-ok yields_error e = absurd cc
Yields-ok {P} (yields h) e = subst P (ok-inj e) h

pub Yields-branch {ℓ} :
    {X : Type ℓ} {P : X → Type 0} (b : Bool) (x y : Unit {0} → Result X)
    → (b ≡ true → Yields P (x tt))
    → (b ≡ false → Yields P (y tt))
    → Yields P (branch b x y)
unfolding branch
Yields-branch true x y h k = h refl
Yields-branch false x y h k = k refl

pub Yields-answer {ℓ κ} :
    {A : Type ℓ} {X : Type κ} {P : X → Type 0} (o : Option A) (x : Unit {0} → Result X)
    (y : A → Result X)
    → (o ≡ none → Yields P (x tt))
    → ((a : A) → o ≡ some a → Yields P (y a))
    → Yields P (answer o x y)
unfolding answer
Yields-answer none x y h k = h refl
Yields-answer (some a) x y h k = k a refl

pub Yields-weaken {ℓ} :
    {X : Type ℓ} {P Q : X → Type 0} {r : Result X} → Yields P r → ((x : X) → P x → Q x) → Yields Q r
Yields-weaken yields_error k = yields_error
Yields-weaken (yields {x} h) k = yields (k x h)
