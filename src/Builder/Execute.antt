-- ===== src/Builder/Execute.antt =====
-- `ExecuteBuilder` of src/solenoid.rs.
use solenoid.Base.{ℕ, List, []}
use solenoid.Primitives.{Primitives}
use solenoid.Word.{Word}
use solenoid.Types.{Address, Header}
use solenoid.Builder.{Builder, Runner, no_header, call_data}

pub record ExecuteBuilder : Type 0 where
  pub header : Header
  pub sender : Address
  pub to : Address
  pub input : List ℕ
  pub value : Word
  pub gas : Word

-- `execute` of `Solenoid`.
module _ ⦃prim : Primitives⦄ where
  unfoldable pub execute : Address → List ℕ → List ℕ → ExecuteBuilder
  unfolding call_data
  execute to method args = record {
    header = no_header;
    sender = 0;
    to = to;
    input = call_data method args;
    value = 0;
    gas = 0;
  }

unfoldable pub with_header : Header → ExecuteBuilder → ExecuteBuilder
with_header h b = record b { header = h }

unfoldable pub with_sender : Address → ExecuteBuilder → ExecuteBuilder
with_sender a b = record b { sender = a }

unfoldable pub with_value : Word → ExecuteBuilder → ExecuteBuilder
with_value v b = record b { value = v }

unfoldable pub with_gas : Word → ExecuteBuilder → ExecuteBuilder
with_gas g b = record b { gas = g }

unfoldable pub ready : ExecuteBuilder → Runner
ready b = record {
  header = b.header;
  call = record { input = b.input; value = b.value; sender = b.sender; to = b.to; gas = b.gas };
  code = [];
}

instance abbrev pub builder : Builder ExecuteBuilder
builder = record {
  with_header = with_header;
  with_sender = with_sender;
  with_value = with_value;
  with_gas = with_gas;
  ready = ready;
}
