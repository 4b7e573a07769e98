-- ===== src/Machine/Run.antt =====
-- The run of an action behind one that succeeds.
use solenoid.Base.{◌≡◌, refl, ap, Option, some}
use solenoid.Outcome.{Outcome, ok, err, panic, unfinished}
use solenoid.Types.{Address}
use solenoid.Primitives.{Primitives}
use solenoid.Ext.{Account, balance, pull}
use solenoid.Ext.Slot.{change_account}
use solenoid.Maps.{insert}
use solenoid.Machine.{Machine, Action, ◌>>=◌, unwrap, on_ext}

abbrev continue : {A B : Type 0} → (A → Action B) → Outcome A × Machine → Outcome B × Machine
continue k (r, s) = elim r [
  | ok a ↦ k a s
  | err e ↦ (err e, s)
  | panic ↦ (panic, s)
  | unfinished ↦ (unfinished, s)
]

pub run_ok :
    {A B : Type 0} (m : Action A) (k : A → Action B) (s s' : Machine) (a : A)
    → m s ≡ (ok a, s')
    → (m >>= k) s ≡ k a s'
run_ok m k s s' a e = ap (continue k) e

pub unwrap_run :
    {A : Type 0} (o : Option A) (s : Machine) (a : A) → o ≡ some a → unwrap o s ≡ (ok a, s)
unfolding unwrap
unwrap_run o s a e = rw e refl

module _ ⦃prim : Primitives⦄ where
  pub balance_run :
      (a : Address) (s : Machine) (account : Account)
      → s.ext.state a ≡ some account
      → on_ext (balance a) s ≡ (ok account.value, s)
  unfolding on_ext balance pull
  balance_run a s account e = rw (on_ext, balance, pull, e) refl

abbrev pub with_account : Address → Account → Machine → Machine
with_account a account s = record s { ext = record s.ext { state = insert a account s.ext.state } }

pub change_run :
    (a : Address) (f : Account → Account) (s : Machine) (account : Account)
    → s.ext.state a ≡ some account
    → on_ext (change_account a f) s ≡ (ok tt, with_account a (f account) s)
unfolding on_ext change_account
change_run a f s account e = rw (on_ext, change_account, e) refl
