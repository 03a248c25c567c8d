-- ===== src/Dispatch/Eval/Ensures.antt =====
-- What a run that ends ensures of its result.
use petrush.Base.{◌≡◌, Bool, true, false, Option, none, some, subst}
use petrush.Base.Int.{ℤ}
use petrush.Dispatch.Command.{◌>>=◌, choose, unless_stopped}

pub data Ensures {A : Type 0} (P : A → Type 0) : Option A → Type 0 where
  no_result : Ensures P none
  result : {a : A} → P a → Ensures P (some a)

module _ {A B : Type 0} where
  pub bind-Ensures :
      {P : A → Type 0} {Q : B → Type 0} {o : Option A} {f : A → Option B}
      → Ensures P o
      → ((a : A) → P a → Ensures Q (f a))
      → Ensures Q (o >>= f)
  unfolding ◌>>=◌
  bind-Ensures no_result next = no_result
  bind-Ensures (result {a = a} p) next = next a p

module _ {A : Type 0} where
  pub Ensures-some : {P : A → Type 0} {o : Option A} {a : A} → Ensures P o → o ≡ some a → P a
  Ensures-some {P = P} {o = o} {a = a} e h = out (subst (Ensures P) h e)
    where
      out : Ensures P (some a) → P a
      out (result p) = p

  pub map-Ensures :
      {P Q : A → Type 0} {o : Option A} → ((a : A) → P a → Q a) → Ensures P o → Ensures Q o
  map-Ensures f no_result = no_result
  map-Ensures f (result {a = a} p) = result (f a p)

  pub choose-Ensures :
      {P : A → Type 0} (b : Bool) (x y : Unit {0} → Option A)
      → Ensures P (x tt)
      → Ensures P (y tt)
      → Ensures P (choose b x y)
  unfolding choose
  choose-Ensures true x y px py = px
  choose-Ensures false x y px py = py

  pub unless_stopped-Ensures :
      {P : A → Type 0} (o : Option ℤ) (stop : ℤ → Option A) (next : Unit {0} → Option A)
      → ((r : ℤ) → Ensures P (stop r))
      → Ensures P (next tt)
      → Ensures P (unless_stopped o stop next)
  unfolding unless_stopped
  unless_stopped-Ensures none stop next ps pn = pn
  unless_stopped-Ensures (some r) stop next ps pn = ps r
