-- ===== src/Builder/Transfer.antt =====
-- `TransferBuilder` of src/solenoid.rs.
use solenoid.Base.{[]}
use solenoid.Word.{Word}
use solenoid.Types.{Address, Header}
use solenoid.Builder.{Builder, Runner, no_header}

pub record TransferBuilder : Type 0 where
  pub header : Header
  pub sender : Address
  pub to : Address
  pub value : Word
  pub gas : Word

-- `transfer` of `Solenoid`.
abbrev pub transfer : Address → Word → TransferBuilder
transfer to value = record { header = no_header; sender = 0; to = to; value = value; gas = 0 }

unfoldable pub with_header : Header → TransferBuilder → TransferBuilder
with_header h b = record b { header = h }

unfoldable pub with_sender : Address → TransferBuilder → TransferBuilder
with_sender a b = record b { sender = a }

unfoldable pub with_value : Word → TransferBuilder → TransferBuilder
with_value v b = record b { value = v }

unfoldable pub with_gas : Word → TransferBuilder → TransferBuilder
with_gas g b = record b { gas = g }

unfoldable pub ready : TransferBuilder → Runner
ready b = record {
  header = b.header;
  call = record { input = []; value = b.value; sender = b.sender; to = b.to; gas = b.gas };
  code = [];
}

instance abbrev pub builder : Builder TransferBuilder
builder = record {
  with_header = with_header;
  with_sender = with_sender;
  with_value = with_value;
  with_gas = with_gas;
  ready = ready;
}
