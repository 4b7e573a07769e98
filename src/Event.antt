-- ===== src/Event.antt =====
-- evm-event/src/lib.rs: the events that the executor reports, and `LoggingTracer` of
-- src/tracer.rs as the list of what was pushed. The debug values and the text of an error, which
-- only the report shows, are left out.
use solenoid.Base.{ℕ, Bool, Option, List, [], ◌∷◌, ◌++◌, map}
use solenoid.Base.Int.{ℤ}
use solenoid.Word.{Word}
use solenoid.Types.{Address, CallType}

pub data StateEvent : Type 0 where
  get : Address → Word → Word → StateEvent
  put : Address → Word → Word → Word → ℤ → StateEvent

pub data AccountEvent : Type 0 where
  get_code : Address → Word → List ℕ → AccountEvent
  create : Address → Address → Word → Word → Word → List ℕ → AccountEvent
  set_nonce : Address → ℕ → ℕ → AccountEvent
  set_value : Address → Word → Word → AccountEvent

pub data HaltReason : Type 0 where
  invalid_opcode out_of_gas : HaltReason

pub record OpCode : Type 0 where
  pub pc : ℕ
  pub op : ℕ
  pub argument : Option (List ℕ)
  pub gas_cost : ℤ
  pub gas_used : ℤ
  pub gas_left : ℤ
  pub gas_back : ℤ
  pub stack : List Word
  pub memory : List ℕ

pub data EventData : Type 0 where
  halt : HaltReason → EventData
  op_code : OpCode → EventData
  hash : List ℕ → List ℕ → EventData
  state : StateEvent → EventData
  account : AccountEvent → EventData
  call : List ℕ → Word → Address → Address → Word → CallType → EventData
  returned : Bool → List ℕ → ℤ → EventData
  fee : Word → Word → Word → EventData

pub record Event : Type 0 where
  pub content : EventData
  pub depth : ℕ
  pub reverted : Bool

abbrev pub event : EventData → ℕ → Bool → Event
event content depth reverted = record { content = content; depth = depth; reverted = reverted }

abbrev pub Tracer : Type 0
Tracer = List Event

-- `LoggingTracer::push`
unfoldable pub push_event : Event → Tracer → Tracer
push_event e t = t ++ e ∷ []

-- `EventTracer::join`: the events of a fork, marked with the fate of its frame.
unfoldable pub join : Tracer → Tracer → Bool → Tracer
join t other reverted = t ++ map (λ (e : Event). record e { reverted = reverted }) other
