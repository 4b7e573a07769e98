-- ===== src/Machine/Keeps.antt =====
-- Properties of the machine that an action keeps, however it ends: a rule for each way to build an
-- action.
use solenoid.Base.{Bool, true, false, Option, arith, if◌then◌else◌}
use solenoid.Base.Int.{ℤ}
use solenoid.Outcome.{Outcome, ok, err, panic, unfinished, ExecutorError}
use solenoid.Machine.{Machine, Action, Handler, ◌>>=◌, pure, raise, gets, unwrap, need_gas}

pub record Keeps {A : Type 0} (P : Machine → Type 0) (m : Action A) : Type 0 where
  pub at : (s : Machine) → P s → P (m s).1

module _ {A : Type 0} {P : Machine → Type 0} where
  pub Keeps-pure : (a : A) → Keeps P (pure a)
  Keeps-pure a = record { at = λ s h. h }

  pub Keeps-raise : (e : ExecutorError) → Keeps P (raise {A = A} e)
  Keeps-raise e = record { at = λ s h. h }

  pub Keeps-gets : (f : Machine → A) → Keeps P (gets f)
  Keeps-gets f = record { at = λ s h. h }

  pub Keeps-unwrap : (o : Option A) → Keeps P (unwrap o)
  unfolding unwrap
  Keeps-unwrap o = record { at = λ s h. h }

  pub Keeps-if : (b : Bool) (m n : Action A) → Keeps P m → Keeps P n → Keeps P (if b then m else n)
  Keeps-if true m n km kn = km
  Keeps-if false m n km kn = kn

module _ {A B : Type 0} {P : Machine → Type 0} where
  bind_at :
      (r : Outcome A) (f : A → Action B) (s : Machine)
      → ((a : A) → Keeps P (f a))
      → P s
      → P (((λ _. (r, s)) >>= f) s).1
  bind_at (ok a) f s kf h = (kf a).at s h
  bind_at (err e) f s kf h = h
  bind_at panic f s kf h = h
  bind_at unfinished f s kf h = h

  pub Keeps-bind :
      (m : Action A) (f : A → Action B) → Keeps P m → ((a : A) → Keeps P (f a)) → Keeps P (m >>= f)
  Keeps-bind m f km kf = record { at = λ s h. bind_at (m s).0 f (m s).1 kf (km.at s h) }

pub Keeps-need_gas :
    {P : Machine → Type 0} (gas : ℤ) (rest : Handler) → Keeps P rest → Keeps P (need_gas gas rest)
unfolding need_gas
Keeps-need_gas gas rest k = record { at = λ s h. ground (arith, k.at s h) }

pub ruleset keeps_rules =
    (Keeps-pure, Keeps-raise, Keeps-gets, Keeps-unwrap, Keeps-if, Keeps-bind, Keeps-need_gas)
