-- ===== src/Types.antt =====
-- evm-common: `Address`, `Header`, `Call`, the access list; evm-event: `CallType`; and `Context`,
-- `Log` and `AccountTouch` of src/executor.rs. An address stands as the number of its 20 bytes.
use solenoid.Base.{ℕ, ◌%◌, ◌^◌, ◌==◌, ◌||◌, Bool, true, false, List}
use solenoid.Word.{Word}

abbrev pub Address : Type 0
Address = ℕ

abbrev pub is_zero_address : Address → Bool
is_zero_address a = a == 0

-- `Word::from(&address)` puts the 20 bytes behind 12 zeros: the number stays.
abbrev pub word_of_address : Address → Word
word_of_address a = a

-- `Address::from(&word)` keeps the last 20 bytes.
abbrev pub address_of_word : Word → Address
address_of_word w = w % 2 ^ 160

pub record Header : Type 0 where
  pub number : Word
  pub hash : Word
  pub timestamp : Word
  pub base_fee : Word
  pub gas_limit : Word
  pub gas_used : Word
  pub blob_gas_used : Word
  pub excess_blob_gas : Word
  pub miner : Address

-- The call of a frame; `input` is the field `data`.
pub record Call : Type 0 where
  pub input : List ℕ
  pub value : Word
  pub sender : Address
  pub to : Address
  pub gas : Word

pub data CallType : Type 0 where
  call create create2 static delegate callcode : CallType
  precompile : Address → CallType

abbrev pub is_static : CallType → Bool
is_static CallType.static = true
is_static _ = false

pub record Context : Type 0 where
  pub created : Address
  pub origin : Address
  pub depth : ℕ
  pub call_type : CallType
  pub is_static_call : Bool

pub record Log : Type 0 where
  pub address : Address
  pub topics : List Word
  pub payload : List ℕ

-- What a frame notes of each access to the state, for `revert` and for the report.
pub data AccountTouch : Type 0 where
  noop : AccountTouch
  warm_up : Address → AccountTouch
  fee_pay : Address → Word → Word → AccountTouch
  get_nonce : Address → ℕ → AccountTouch
  get_value : Address → Word → AccountTouch
  get_code : Address → Word → List ℕ → AccountTouch
  get_state : Address → Word → Word → Bool → AccountTouch
  set_nonce : Address → ℕ → ℕ → AccountTouch
  set_value : Address → Word → Word → AccountTouch
  set_state : Address → Word → Word → Word → Bool → AccountTouch
  set_transient_state : Address → Word → Word → Word → AccountTouch
  create : Address → Word → Word → List ℕ → Word → AccountTouch

unfoldable pub is_read_only : AccountTouch → Bool
is_read_only (AccountTouch.get_code _ _ _) = true
is_read_only (AccountTouch.get_state _ _ _ _) = true
is_read_only (AccountTouch.get_nonce _ _) = true
is_read_only (AccountTouch.get_value _ _) = true
is_read_only _ = false

unfoldable pub is_fee_pay : AccountTouch → Bool
is_fee_pay (AccountTouch.fee_pay _ _ _) = true
is_fee_pay _ = false

unfoldable pub is_create : AccountTouch → Bool
is_create (AccountTouch.create _ _ _ _ _) = true
is_create _ = false

unfoldable pub survives_revert : AccountTouch → Bool
unfolding is_read_only is_fee_pay is_create
survives_revert t = is_read_only t || is_fee_pay t || is_create t
