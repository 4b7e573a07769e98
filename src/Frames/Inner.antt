-- ===== src/Frames/Inner.antt =====
-- The run of an inner frame by `call` and `create` of src/executor.rs: a new executor with a fork
-- of the tracer, a new `Evm` with the gas that is forwarded, and the world state of the caller.
use solenoid.Base.{ℕ, ◌+◌, List, [], ◌∷◌, ◌++◌, if◌then◌else◌}
use solenoid.Base.Int.{ℤ}
use solenoid.Outcome.{Outcome, ok, err, panic, unfinished, Done}
use solenoid.Gas
use solenoid.Types.{Call, Context, AccountTouch, survives_revert}
use solenoid.Event.{Tracer, join}
use solenoid.Decoder.{Bytecode}
use solenoid.Evm
use solenoid.Evm.{Evm}
use solenoid.Machine.{Machine, Action, modify_evm}

-- `execute_with_context`: it returns the return data, and works on the machine of its frame.
abbrev pub Runner : Type 0
Runner = Bytecode → Call → Context → Action (List ℕ)

-- One level deeper than `depth`.
abbrev pub enter : ℕ → Runner → Runner
enter depth run code call ctx = run code call (record ctx { depth = depth + 1 })

-- What is left of an inner frame: its return data, its `Evm` and its trace.
pub record Inner : Type 0 where
  pub ret : List ℕ
  pub evm : Evm
  pub tracer : Tracer

abbrev pub inner_machine : ℤ → Machine → Machine
inner_machine gas s = record {
  exec = record { header = s.exec.header; tracer = []; ret = [] };
  evm = Evm.new (Gas.new gas);
  ext = s.ext;
}

abbrev pub inner_result : Outcome (List ℕ) → Machine → Outcome Inner
inner_result (ok ret) t = ok (record { ret = ret; evm = t.evm; tracer = t.exec.tracer })
inner_result (err e) t = err e
inner_result panic t = panic
inner_result unfinished t = unfinished

unfoldable pub run_inner : Runner → Bytecode → Call → Context → ℤ → Action Inner
run_inner run code call ctx gas s =
    let (r, t) = run code call ctx (inner_machine gas s) in
    (inner_result r t, record s { ext = t.ext })

-- `self.tracer.join(tracer, reverted)`
unfoldable pub join_trace : Inner → Action Done
join_trace inner s = (
  ok tt,
  record s { exec = record s.exec { tracer = join s.exec.tracer inner.tracer inner.evm.reverted } },
)

-- `evm.touches.extend(…)`
unfoldable pub extend_touches : List AccountTouch → Action Done
unfolding modify_evm
extend_touches ts = modify_evm (λ evm. record evm { touches = evm.touches ++ ts })

-- `touches.into_iter().filter(|t| t.survives_revert())`
unfoldable pub surviving : List AccountTouch → List AccountTouch
surviving [] = []
surviving (t ∷ ts) = if survives_revert t then t ∷ surviving ts else surviving ts
