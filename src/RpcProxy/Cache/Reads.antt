-- ===== src/RpcProxy/Cache/Reads.antt =====
-- The storage slots that rpc-proxy/src/cache.rs keeps.
use solenoid.Base.{
  ℕ, ◌≡◌, ◌≢◌, refl, ap, sym, ◌∙◌, true, Option, Option-cases, inl, inr, none, some, List, [], ◌∷◌,
  length, arith,
}
use mathlib.Core.Option
use solenoid.Outcome.{Done}
use solenoid.Primitives.Bytes.Bounds.{AreBytes}
use solenoid.Hex.Printed.{printed}
use solenoid.RpcProxy.Crates.{HexCrate, KvStore, FileSystem}
use solenoid.RpcProxy.Encoding.{normalize_hex, storage_key, decode_hex_padded, encode_data32}
use solenoid.RpcProxy.Encoding.Exact.{decode_hex_padded-printed, encode_data32_lem}
use solenoid.RpcProxy.Cache.{
  Cache, with_storage, storage_db, get_storage_at, put_storage_at, open_or_create_kv,
}
use solenoid.RpcProxy.Paths.{same_string}

pub same_string_refl : (s : List ℕ) → same_string s s ≡ true
unfolding same_string
same_string_refl [] = refl
same_string_refl (c ∷ s) = ground (arith, same_string_refl s)

module _ ⦃hex : HexCrate⦄ ⦃kv : KvStore⦄ ⦃fs : FileSystem⦄ where
  pub no_result : {x : Done} {r : Option Done} → r ≡ none → r ≢ some x
  no_result e h = cc

  -- A read from the store that the map holds for the address.
  read_held :
      (address slot block v : List ℕ) (db : kv.Kv) (base : Cache)
      → kv.lookup db (storage_key slot block) ≡ some (some v)
      → (get_storage_at address slot block (with_storage (normalize_hex address) db base)).0
        ≡ some (some (encode_data32 v))
  unfolding get_storage_at encode_data32
  read_held address slot block v db base found =
      let same = same_string_refl (normalize_hex address) in
      rw (get_storage_at, storage_db, same, found) refl

  -- A read, by the normal form of the address and the key.
  abbrev find_slot : List ℕ → List ℕ → Cache → Option (Option (List ℕ))
  find_slot addr key c = elim (c.storage_dbs addr) [
    | some db ↦ Option.map (Option.map encode_data32) (kv.lookup db key)
    | none ↦ elim (open_or_create_kv addr) [
      | none ↦ none
      | some db ↦ Option.map (Option.map encode_data32) (kv.lookup db key)
    ]
  ]

  find_slot_lem :
      (address slot block : List ℕ) (c : Cache)
      → (get_storage_at address slot block c).0
        ≡ find_slot (normalize_hex address) (storage_key slot block) c
  unfolding get_storage_at storage_db
  find_slot_lem address slot block c = elim (Option-cases (c.storage_dbs (normalize_hex address))) [
    | inr (db, e) ↦ rw (find_slot, get_storage_at, storage_db, e) refl
    | inl e ↦ elim (Option-cases (open_or_create_kv (normalize_hex address))) [
      | inl e' ↦ rw (find_slot, get_storage_at, storage_db, e, e') refl
      | inr (db, e') ↦ rw (find_slot, get_storage_at, storage_db, e, e') refl
    ]
  ]

  abbrev replace_store : List ℕ → Cache → Option kv.Kv → Option Done × Cache
  replace_store address base inserted = elim inserted [
    | none ↦ (none, base)
    | some db' ↦ (some tt, with_storage (normalize_hex address) db' base)
  ]

  abbrev insert_slot :
      List ℕ → List ℕ → List ℕ → List ℕ → Cache → Option kv.Kv → Option Done × Cache
  insert_slot address slot block v base opened = elim opened [
    | none ↦ (none, base)
    | some db ↦ replace_store address base (kv.insert db (storage_key slot block) v)
  ]

  module _ (address slot block v : List ℕ) (base c' : Cache) where
    inserted_read :
        (db : kv.Kv) (inserted : Option kv.Kv)
        → kv.insert db (storage_key slot block) v ≡ inserted
        → replace_store address base inserted ≡ (some tt, c')
        → (get_storage_at address slot block c').0 ≡ some (some (encode_data32 v))
    inserted_read db none e h = absurd (no_result refl (ap (λ r. r.0) h))
    inserted_read db (some db') e h =
        ap (λ x. (get_storage_at address slot block x).0) (sym (ap (λ r. r.1) h))
        ∙ read_held address slot block v db' base
            (kv.insert_law db db' (storage_key slot block) v e)

    opened_read :
        (opened : Option kv.Kv)
        → insert_slot address slot block v base opened ≡ (some tt, c')
        → (get_storage_at address slot block c').0 ≡ some (some (encode_data32 v))
    opened_read none h = absurd (no_result refl (ap (λ r. r.0) h))
    opened_read (some db) h = inserted_read db (kv.insert db (storage_key slot block) v) refl h

  -- A value that was written under an address, a slot and a block is read under these, in whatever
  -- spelling of the address, the slot and the block.
  pub put_storage_at-get_storage_at :
      (address slot block address' slot' block' v : List ℕ) (c c' : Cache)
      → AreBytes v
      → length v ≡ 32
      → normalize_hex address' ≡ normalize_hex address
      → storage_key slot' block' ≡ storage_key slot block
      → put_storage_at address slot block (printed v) c ≡ (some tt, c')
      → (get_storage_at address' slot' block' c').0 ≡ some (some (printed v))
  unfolding put_storage_at get_storage_at storage_db
  put_storage_at-get_storage_at address slot block address' slot' block' v c c' h e same_address
        same_key put =
      let same : (get_storage_at address' slot' block' c').0
          ≡ (get_storage_at address slot block c').0 =
        find_slot_lem address' slot' block' c'
        ∙ ap (λ a. find_slot a (storage_key slot' block') c') same_address
        ∙ ap (λ k. find_slot (normalize_hex address) k c') same_key
        ∙ sym (find_slot_lem address slot block c') in
      same
      ∙ opened_read address slot block (decode_hex_padded 32 (printed v)) (storage_db address c).1
          c' (storage_db address c).0 put
      ∙ ap (λ l. some (some (encode_data32 l))) (decode_hex_padded-printed 32 v h e)
      ∙ ap (λ l. some (some l)) (encode_data32_lem v h e)
