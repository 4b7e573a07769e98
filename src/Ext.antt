-- ===== src/Ext.antt =====
-- src/ext.rs: the accounts of the world state, cached from a remote node, and the sets that
-- EIP-2929 and EIP-1153 keep for the length of a transaction.
pub mod Slot
pub mod AccessList
use mathlib.Core.Option
use solenoid.Base.{
  ℕ, ◌+◌, ◌*◌, ◌==◌, ◌&&◌, Bool, true, false, not, Option, none, some, List, [], ◌∷◌, ◌++◌, length,
  if◌then◌else◌,
}
use solenoid.Base.Int.{ℤ, pos}
use solenoid.Base.I64.{as_i64, add_i64, mul_i64}
use solenoid.Primitives.{Primitives}
use solenoid.Outcome.{
  Report, Outcome, ok, err, panic, unfinished, pull_failed, remote_failed, or_remote_failed, Done,
}
use solenoid.Word.{Word, zero_word, from_bytes, is_zero}
use solenoid.Maps.{
  Map, empty_map, insert, remove, PairMap, insert_pair, or_insert_pair, Set, add, PairSet, add_pair,
}
use solenoid.Types.{Address}

pub record Account : Type 0 where
  pub value : Word
  pub nonce : Word
  pub root : Word
  pub code : List ℕ × Word
  pub storage : Map Word

-- `Account::default()`
abbrev pub new_account : Account
new_account = record { value = 0; nonce = 0; root = 0; code = ([], 0); storage = empty_map }

-- The answers of the node at one block, `EthClient` at a block hash: `none` is a failed request.
pub record Remote : Type 0 where
  pub get_balance : Address → Option Word
  pub get_nonce : Address → Option Word
  pub get_code : Address → Option (List ℕ)
  pub get_storage_at : Address → Word → Option Word
  pub get_block_hash : Word → Option Word

pub record AccessListItem : Type 0 where
  pub address : Address
  pub storage_keys : List Word

pub record TxContext : Type 0 where
  pub gas_price : Word
  pub gas_max_fee : Word
  pub blob_max_fee : Word
  pub gas_max_priority_fee : Word
  pub blob_gas_used : ℕ
  pub access_list : List AccessListItem

pub record Ext : Type 0 where
  pub remote : Option Remote
  pub state : Map Account
  pub original : PairMap Word
  pub transient : PairMap Word
  pub accessed_addresses : Set
  pub accessed_storage : PairSet
  pub created_accounts : List Address
  pub destroyed_accounts : List Address
  pub tx_ctx : TxContext

access_cost_from : ℤ → List AccessListItem → ℤ
access_cost_from cost [] = cost
access_cost_from cost (item ∷ items) =
    access_cost_from
      (add_i64 (add_i64 cost (pos 2400)) (mul_i64 (pos 1900) (as_i64 (length item.storage_keys))))
      items

unfoldable pub access_list_cost : TxContext → ℤ
unfolding access_cost_from
access_list_cost ctx = access_cost_from (pos 0) ctx.access_list

abbrev pub is_address_warm : Address → Ext → Bool
is_address_warm a ext = ext.accessed_addresses a

-- The flag says whether the address is new to the set.
unfoldable pub warm_address : Address → Ext → Bool × Ext
warm_address a ext = (
  not (ext.accessed_addresses a),
  record ext { accessed_addresses = add a ext.accessed_addresses },
)

abbrev pub is_storage_warm : Address → Word → Ext → Bool
is_storage_warm a k ext = ext.accessed_storage a k

unfoldable pub warm_storage : Address → Word → Ext → Ext
warm_storage a k ext = record ext { accessed_storage = add_pair a k ext.accessed_storage }

warm_keys : Address → List Word → Ext → Ext
warm_keys a [] ext = ext
warm_keys a (k ∷ keys) ext = warm_keys a keys (warm_storage a k ext)

warm_items : List AccessListItem → Ext → Ext
warm_items [] ext = ext
warm_items (item ∷ items) ext =
    warm_items items (warm_keys item.address item.storage_keys (warm_address item.address ext).1)

unfoldable pub apply_access_list : Ext → Ext
unfolding warm_items warm_keys warm_address warm_storage
apply_access_list ext = warm_items ext.tx_ctx.access_list ext

remove_all : List Address → Map Account → Map Account
remove_all [] accounts = accounts
remove_all (a ∷ rest) accounts = remove_all rest (remove a accounts)

-- The start of a transaction.
unfoldable pub reset : TxContext → Ext → Ext
unfolding remove_all
reset tx_ctx ext = record ext {
  tx_ctx = tx_ctx;
  original = λ _ _. none;
  transient = λ _ _. none;
  accessed_addresses = λ _. false;
  accessed_storage = λ _ _. false;
  created_accounts = [];
  destroyed_accounts = [];
  state = remove_all ext.destroyed_accounts ext.state;
}

-- A call that may change the cache, and may fail.
abbrev pub Access : Type 0 → Type 0
Access A = Ext → Outcome A × Ext

-- `entry(a).or_default()`, and a write of its storage.
unfoldable pub store_slot : Address → Word → Word → Ext → Ext
store_slot a k v ext =
    let account = Option.get_or (ext.state a) new_account in
    record ext {
      state = insert a (record account { storage = insert k v account.storage }) ext.state;
    }

module _ ⦃prim : Primitives⦄ where
  pub fetch : Address → Remote → Option Account
  fetch a eth = elim (eth.get_balance a) [
    | none ↦ none
    | some value ↦ elim (eth.get_nonce a) [
      | none ↦ none
      | some nonce ↦
          Option.map
            (λ code. record {
              value = value;
              nonce = nonce;
              root = zero_word;
              code = (code, from_bytes (prim.keccak code));
              storage = empty_map;
            })
            (eth.get_code a)
    ]
  ]

  unfoldable pub pull : Address → Access Account
  unfolding fetch
  pull a ext = elim (ext.state a) [
    | some account ↦ (ok account, ext)
    | none ↦ elim ext.remote [
      | none ↦ (err (pull_failed a), ext)
      | some eth ↦ elim (fetch a eth) [
        | none ↦ (err remote_failed, ext)
        | some account ↦ (ok account, record ext { state = insert a account ext.state })
      ]
    ]
  ]

  -- The three readers look the account up first, and pull it when it is missing: `pull` itself
  -- begins with that look.
  unfoldable pub code : Address → Access (List ℕ × Word)
  code a ext =
      let (r, ext') = pull a ext in
      (
        elim r [
          | ok account ↦ ok account.code
          | err e ↦ err e
          | panic ↦ panic
          | unfinished ↦ unfinished
        ],
        ext',
      )

  unfoldable pub balance : Address → Access Word
  balance a ext =
      let (r, ext') = pull a ext in
      (
        elim r [
          | ok account ↦ ok account.value
          | err e ↦ err e
          | panic ↦ panic
          | unfinished ↦ unfinished
        ],
        ext',
      )

  unfoldable pub nonce : Address → Access Word
  nonce a ext =
      let (r, ext') = pull a ext in
      (
        elim r [
          | ok account ↦ ok account.nonce
          | err e ↦ err e
          | panic ↦ panic
          | unfinished ↦ unfinished
        ],
        ext',
      )
