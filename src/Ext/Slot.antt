-- ===== src/Ext/Slot.antt =====
-- The storage, the emptiness test and the account writes of src/ext.rs, in a build with the default
-- features: with `tracing`, `put` reads the slot back for its log line.
pub mod Stored
use solenoid.Base.{◌&&◌, Bool, Option, none, some, length, ◌==◌}
use mathlib.Core.Option
use solenoid.Primitives.{Primitives}
use solenoid.Outcome.{ok, err, panic, unfinished, remote_failed, or_remote_failed, Done}
use solenoid.Word.{Word, is_zero, zero_word}
use solenoid.Maps.{insert, or_insert_pair}
use solenoid.Types.{Address}
use solenoid.Ext.{Account, Ext, Access, new_account, pull, code, balance, nonce, store_slot}

infixl 5 ◌>>=◌ ◌>>◌
abbrev pub ◌>>=◌ : {A B : Type 0} → Access A → (A → Access B) → Access B
◌>>=◌ m f ext =
    let (r, ext') = m ext in
    elim r [
      | ok a ↦ f a ext'
      | err e ↦ (err e, ext')
      | panic ↦ (panic, ext')
      | unfinished ↦ (unfinished, ext')
    ]

abbrev pub ◌>>◌ : {A B : Type 0} → Access A → Access B → Access B
m >> k = m >>= λ _. k

abbrev pub pure : {A : Type 0} → A → Access A
pure a ext = (ok a, ext)

-- The value that the cache holds for the slot.
abbrev pub cached : Address → Word → Ext → Option Word
cached a k ext = elim (ext.state a) [ none ↦ none | some account ↦ account.storage k ]

-- `original.entry((a, k)).or_insert(v)`
abbrev pub note_original : Address → Word → Word → Ext → Ext
note_original a k v ext = record ext { original = or_insert_pair a k v ext.original }

-- `get` once the account is there.
unfoldable pub read_slot : Address → Word → Access Word
read_slot a k ext = elim (cached a k ext) [
  | some v ↦ (ok v, note_original a k v ext)
  | none ↦ elim ext.remote [
    | none ↦ (ok zero_word, ext)
    | some eth ↦ elim (eth.get_storage_at a k) [
      | none ↦ (err remote_failed, ext)
      | some v ↦ (ok v, note_original a k v (store_slot a k v ext))
    ]
  ]
]

module _ ⦃prim : Primitives⦄ where
  unfoldable pub get : Address → Word → Access Word
  unfolding read_slot
  get a k = do pull a; read_slot a k

  unfoldable pub put : Address → Word → Word → Access Done
  unfolding get
  put a k v ext = (do _ ← get a k; pure tt) (store_slot a k v ext)

  unfoldable pub is_empty : Address → Access Bool
  is_empty a = do
    value ← balance a
    n ← nonce a
    (bytes, _) ← code a
    pure (is_zero value && is_zero n && length bytes == 0)

-- The hash of an older block.
unfoldable pub get_block_hash : Word → Access Word
get_block_hash number ext = elim ext.remote [
  | none ↦ (ok zero_word, ext)
  | some eth ↦ (or_remote_failed (eth.get_block_hash number), ext)
]

-- A write through `account_mut`, which panics when the account is missing.
unfoldable pub change_account : Address → (Account → Account) → Access Done
change_account a f ext = elim (ext.state a) [
  | none ↦ (panic, ext)
  | some account ↦ (ok tt, record ext { state = insert a (f account) ext.state })
]

-- `state.entry(a).or_default()`
unfoldable pub ensure_account : Address → Ext → Ext
ensure_account a ext = record ext {
  state = insert a (Option.get_or (ext.state a) new_account) ext.state;
}
