-- ===== src/Step/Progress.antt =====
-- What an instruction of src/executor.rs does to the gas: nothing, since the loop charges for it.
-- The rules for the actions that a handler is made of.
pub mod World
pub mod Arith
pub mod Bits
pub mod Block
pub mod Env
pub mod Storage
pub mod Stack
pub mod Flow
pub mod Stops
pub mod Exp
pub mod Plain
use solenoid.Base.{
  ℕ, zero, suc, ◌+◌, ◌≡◌, refl, sym, ◌∙◌, ◌⊎◌, inl, inr, Bool, true, false, Option, none, some,
  Bool-cases, leb, ltb, List, [], ◌∷◌, ap, ◌≢◌, arith, length, if◌then◌else◌,
}
use solenoid.Base.Int.{ℤ, pos, ◌<ℤ◌, ltb_ℤ}
use solenoid.Primitives.{Primitives}
use solenoid.Outcome.{Outcome, ok, err, panic, unfinished, Report, Done, ExecutorError}
use solenoid.Types.{Address, AccountTouch}
use solenoid.Event.{Event}
use solenoid.Gas
use solenoid.Ext.{Ext, Access, balance, nonce, code, pull}
use solenoid.Evm
use solenoid.Evm.{Evm, error}
use solenoid.Machine.{
  Machine, Action, Handler, StepResult, ◌>>=◌, ◌>>◌, pure, raise, gets, unwrap, on_evm, on_ext,
  modify_evm, modify_ext, touch, trace, set_ret, pop, push, need_gas, next,
}
use solenoid.Instr.Frame.{pop_usize}

-- The same gas is left: the limit and what is used of it.
pub record Same (s t : Machine) : Type 0 where
  pub limit : t.evm.gas.limit ≡ s.evm.gas.limit
  pub used : t.evm.gas.used ≡ s.evm.gas.used

-- An action that ends, and leaves the gas alone when it succeeds.
abbrev pub Kept : {A : Type 0} → Machine → Outcome A × Machine → Type 0
Kept s (ok a, t) = Same s t
Kept s (err e, t) = Unit {0}
Kept s (panic, t) = Unit {0}
Kept s (unfinished, t) = ⊥

pub record KeepsGas {A : Type 0} (m : Action A) : Type 0 where
  pub at : (s : Machine) → Kept s (m s)

abbrev pub IsPositive : ℤ → Type 0
IsPositive z = pos 0 <ℤ z

-- A handler that ends, and leaves the gas alone when it succeeds: it then asks for a charge of more
-- than 0, halts the frame, or has stopped it.
abbrev pub Asked : Machine → Outcome StepResult × Machine → Type 0
Asked s (ok (StepResult.done cost), t) = Same s t × (IsPositive cost ⊎ (t.evm.stopped ≡ true))
Asked s (ok (StepResult.halt cost), t) = Same s t
Asked s (err e, t) = Unit {0}
Asked s (panic, t) = Unit {0}
Asked s (unfinished, t) = ⊥

pub record AsksGas (h : Handler) : Type 0 where
  pub at : (s : Machine) → Asked s (h s)

pub Same-refl : (s : Machine) → Same s s
Same-refl s = record { limit = refl; used = refl }

pub Same-trans : (s t u : Machine) → Same s t → Same t u → Same s u
Same-trans s t u p q = record { limit = q.limit ∙ p.limit; used = q.used ∙ p.used }

kept_after : {B : Type 0} (s t : Machine) (r : Outcome B × Machine) → Same s t → Kept t r → Kept s r
kept_after s t (ok b, u) p q = Same-trans s t u p q
kept_after s t (err e, u) p q = tt
kept_after s t (panic, u) p q = tt
kept_after s t (unfinished, u) p q = q

module _ {A B : Type 0} where
  kept_bind :
      (s : Machine) (r : Outcome A × Machine) (f : A → Action B)
      → Kept s r
      → ((a : A) → KeepsGas (f a))
      → Kept s (((λ _. r) >>= f) s)
  kept_bind s (ok a, t) f p k = kept_after s t (f a t) p ((k a).at t)
  kept_bind s (err e, t) f p k = tt
  kept_bind s (panic, t) f p k = tt
  kept_bind s (unfinished, t) f p k = p

  pub KeepsGas-bind :
      (m : Action A) (f : A → Action B)
      → KeepsGas m
      → ((a : A) → KeepsGas (f a))
      → KeepsGas (m >>= f)
  KeepsGas-bind m f km kf = record { at = λ s. kept_bind s (m s) f (km.at s) kf }

asked_after : (s t : Machine) (r : Outcome StepResult × Machine) → Same s t → Asked t r → Asked s r
asked_after s t (ok (StepResult.done cost), u) p q = (Same-trans s t u p q.0, q.1)
asked_after s t (ok (StepResult.halt cost), u) p q = Same-trans s t u p q
asked_after s t (err e, u) p q = tt
asked_after s t (panic, u) p q = tt
asked_after s t (unfinished, u) p q = q

module _ {A : Type 0} where
  asked_bind :
      (s : Machine) (r : Outcome A × Machine) (f : A → Handler)
      → Kept s r
      → ((a : A) → AsksGas (f a))
      → Asked s (((λ _. r) >>= f) s)
  asked_bind s (ok a, t) f p k = asked_after s t (f a t) p ((k a).at t)
  asked_bind s (err e, t) f p k = tt
  asked_bind s (panic, t) f p k = tt
  asked_bind s (unfinished, t) f p k = p

  pub AsksGas-bind :
      (m : Action A) (f : A → Handler) → KeepsGas m → ((a : A) → AsksGas (f a)) → AsksGas (m >>= f)
  AsksGas-bind m f km kf = record { at = λ s. asked_bind s (m s) f (km.at s) kf }

  pub KeepsGas-pure : (a : A) → KeepsGas (pure a)
  KeepsGas-pure a = record { at = λ s. Same-refl s }

  pub KeepsGas-raise : (e : ExecutorError) → KeepsGas (raise {A = A} e)
  KeepsGas-raise e = record { at = λ s. tt }

  pub KeepsGas-gets : (f : Machine → A) → KeepsGas (gets f)
  KeepsGas-gets f = record { at = λ s. Same-refl s }

  pub KeepsGas-unwrap : (o : Option A) → KeepsGas (unwrap o)
  unfolding unwrap
  KeepsGas-unwrap none = record { at = λ s. tt }
  KeepsGas-unwrap (some a) = record { at = λ s. Same-refl s }

  pub KeepsGas-if :
      (b : Bool) (m n : Action A) → KeepsGas m → KeepsGas n → KeepsGas (if b then m else n)
  KeepsGas-if true m n km kn = km
  KeepsGas-if false m n km kn = kn

  pub error-KeepsGas : (e : Report) → KeepsGas (on_evm (error {A = A} e))
  unfolding on_evm error
  error-KeepsGas e = record { at = λ s. tt }

pub AsksGas-raise : (e : ExecutorError) → AsksGas (raise e)
AsksGas-raise e = record { at = λ s. tt }

pub AsksGas-if : (b : Bool) (m n : Handler) → AsksGas m → AsksGas n → AsksGas (if b then m else n)
AsksGas-if true m n km kn = km
AsksGas-if false m n km kn = kn

pub AsksGas-halt : (gas : ℤ) → AsksGas (pure (StepResult.halt gas))
AsksGas-halt gas = record { at = λ s. Same-refl s }

need_at :
    (b : Bool) (gas : ℤ) (rest : Handler) (s : Machine)
    → Asked s (rest s)
    → Asked s (if b then (ok (StepResult.halt gas), s) else rest s)
need_at true gas rest s k = Same-refl s
need_at false gas rest s k = k

pub AsksGas-need_gas : (gas : ℤ) (rest : Handler) → AsksGas rest → AsksGas (need_gas gas rest)
unfolding need_gas
AsksGas-need_gas gas rest k = record {
  at = λ s. need_at (ltb_ℤ (Gas.remaining s.evm.gas) gas) gas rest s (k.at s);
}

pub AsksGas-next : (gas : ℤ) → IsPositive gas → AsksGas (next gas)
unfolding next
AsksGas-next gas p = record { at = λ s. (record { limit = refl; used = refl }, inl p) }

pub AsksGas-done : (gas : ℤ) → IsPositive gas → AsksGas (pure (StepResult.done gas))
AsksGas-done gas p = record { at = λ s. (Same-refl s, inl p) }

pub IsPositive-pos : (n : ℕ) → IsPositive (pos (suc n))
IsPositive-pos n = omega arith

pub IsPositive-if :
    (b : Bool) (y z : ℤ) → IsPositive y → IsPositive z → IsPositive (if b then y else z)
IsPositive-if true y z p q = p
IsPositive-if false y z p q = q

-- The methods of the frame.
abbrev KeptEvm : {A : Type 0} → Evm → Outcome A × Evm → Type 0
KeptEvm evm (ok a, t) = (t.gas.limit ≡ evm.gas.limit) × (t.gas.used ≡ evm.gas.used)
KeptEvm evm (err e, t) = Unit {0}
KeptEvm evm (panic, t) = Unit {0}
KeptEvm evm (unfinished, t) = ⊥

on_evm_at :
    {A : Type 0} (s : Machine) (r : Outcome A × Evm) → KeptEvm s.evm r → Kept s (on_evm (λ _. r) s)
unfolding on_evm
on_evm_at s (ok a, t) p = record { limit = p.0; used = p.1 }
on_evm_at s (err e, t) p = tt
on_evm_at s (panic, t) p = tt
on_evm_at s (unfinished, t) p = p

on_evm-KeepsGas :
    {A : Type 0} (m : Evm.Method A) → ((evm : Evm) → KeptEvm evm (m evm)) → KeepsGas (on_evm m)
unfolding on_evm
on_evm-KeepsGas m k = record { at = λ s. on_evm_at s (m s.evm) (k s.evm) }

pop_at : (l : List ℕ) (evm : Evm) → evm.stack ≡ l → KeptEvm evm (Evm.pop evm)
unfolding Evm.pop error
pop_at [] evm e = rw e tt
pop_at (w ∷ l) evm e = rw e (refl, refl)

pub pop-KeepsGas : KeepsGas pop
unfolding pop
pop-KeepsGas = on_evm-KeepsGas Evm.pop λ evm. pop_at evm.stack evm refl

pub push-KeepsGas : (w : ℕ) → KeepsGas (push w)
unfolding push Evm.push error
push-KeepsGas w = on_evm-KeepsGas (Evm.push w) λ evm.
    elim (Bool-cases (leb Evm.stack_limit (length evm.stack))) [
      | inl h ↦ rw (Evm.push, h) tt
      | inr h ↦ rw (Evm.push, h) (refl, refl)
    ]

pub peek-KeepsGas : (n : ℕ) → KeepsGas (on_evm (Evm.peek n))
unfolding Evm.peek error
peek-KeepsGas n = on_evm-KeepsGas (Evm.peek n) λ evm. elim (Bool-cases (ltb (length evm.stack) n)) [
  | inl h ↦ rw (Evm.peek, h) tt
  | inr h ↦ rw (Evm.peek, h) (refl, refl)
]

pub modify_ext-KeepsGas : (f : Ext → Ext) → KeepsGas (modify_ext f)
unfolding modify_ext
modify_ext-KeepsGas f = record { at = λ s. record { limit = refl; used = refl } }

pub touch-KeepsGas : (t : AccountTouch) → KeepsGas (touch t)
unfolding touch modify_evm
touch-KeepsGas t = record { at = λ s. record { limit = refl; used = refl } }

pub trace-KeepsGas : (e : Event) → KeepsGas (trace e)
unfolding trace
trace-KeepsGas e = record { at = λ s. record { limit = refl; used = refl } }

pub set_ret-KeepsGas : (bytes : List ℕ) → KeepsGas (set_ret bytes)
unfolding set_ret
set_ret-KeepsGas bytes = record { at = λ s. record { limit = refl; used = refl } }

pub modify_evm-KeepsGas :
    (f : Evm → Evm) → ((evm : Evm) → (f evm).gas ≡ evm.gas) → KeepsGas (modify_evm f)
unfolding modify_evm
modify_evm-KeepsGas f same = record {
  at = λ s. record { limit = ap (λ g. g.limit) (same s.evm); used = ap (λ g. g.used) (same s.evm) };
}

-- An outcome of the program.
abbrev pub Ended : {A : Type 0} → Outcome A → Type 0
Ended (ok a) = Unit {0}
Ended (err e) = Unit {0}
Ended panic = Unit {0}
Ended unfinished = ⊥

-- A call of the world state that ends.
pub record Ends {A : Type 0} (m : Access A) : Type 0 where
  pub at : (ext : Ext) → Ended (m ext).0

on_ext_at :
    {A : Type 0} (s : Machine) (r : Outcome A × Ext) → Ended r.0 → Kept s (on_ext (λ _. r) s)
unfolding on_ext
on_ext_at s (ok a, t) p = record { limit = refl; used = refl }
on_ext_at s (err e, t) p = tt
on_ext_at s (panic, t) p = tt
on_ext_at s (unfinished, t) p = p

pub on_ext-KeepsGas : {A : Type 0} (m : Access A) → Ends m → KeepsGas (on_ext m)
unfolding on_ext
on_ext-KeepsGas m k = record { at = λ s. on_ext_at s (m s.ext) (k.at s.ext) }

pub ruleset gas_rules = (
  KeepsGas-bind, KeepsGas-pure, KeepsGas-raise, KeepsGas-gets, KeepsGas-unwrap, KeepsGas-if,
  AsksGas-bind, AsksGas-raise, AsksGas-if, AsksGas-halt, AsksGas-need_gas, AsksGas-next,
  AsksGas-done, IsPositive-pos, IsPositive-if, error-KeepsGas, pop-KeepsGas, push-KeepsGas,
  peek-KeepsGas, modify_ext-KeepsGas, touch-KeepsGas, trace-KeepsGas, set_ret-KeepsGas,
  on_ext-KeepsGas,
)

module _ ⦃prim : Primitives⦄ where
  pub pop_usize-KeepsGas : KeepsGas pop_usize
  unfolding pop_usize
  pop_usize-KeepsGas = search gas_rules

pub ruleset progress_rules = (gas_rules, pop_usize-KeepsGas)
