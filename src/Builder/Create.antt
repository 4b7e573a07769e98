-- ===== src/Builder/Create.antt =====
-- `CreateBuilder` of src/solenoid.rs.
use solenoid.Base.{ℕ, List, []}
use solenoid.Word.{Word}
use solenoid.Types.{Address, Header}
use solenoid.Builder.{Builder, Runner, no_header}

pub record CreateBuilder : Type 0 where
  pub header : Header
  pub sender : Address
  pub code : List ℕ
  pub value : Word
  pub gas : Word

-- `create` of `Solenoid`.
abbrev pub create : List ℕ → CreateBuilder
create code = record { header = no_header; sender = 0; code = code; value = 0; gas = 0 }

unfoldable pub with_header : Header → CreateBuilder → CreateBuilder
with_header h b = record b { header = h }

unfoldable pub with_sender : Address → CreateBuilder → CreateBuilder
with_sender a b = record b { sender = a }

unfoldable pub with_value : Word → CreateBuilder → CreateBuilder
with_value v b = record b { value = v }

unfoldable pub with_gas : Word → CreateBuilder → CreateBuilder
with_gas g b = record b { gas = g }

unfoldable pub ready : CreateBuilder → Runner
ready b = record {
  header = b.header;
  call = record { input = []; value = b.value; sender = b.sender; to = 0; gas = b.gas };
  code = b.code;
}

instance abbrev pub builder : Builder CreateBuilder
builder = record {
  with_header = with_header;
  with_sender = with_sender;
  with_value = with_value;
  with_gas = with_gas;
  ready = ready;
}
