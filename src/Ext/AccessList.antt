-- ===== src/Ext/AccessList.antt =====
-- `apply_access_list` of src/ext.rs warms up what the access list names.

use solenoid.Base.{ℕ, zero, suc, some, get_elem?, ◌≡◌, true, arith, List, [], ◌∷◌}
use solenoid.Word.{Word}
use solenoid.Types.{Address}
use solenoid.Ext.{
  Ext, AccessListItem, is_address_warm, is_storage_warm, warm_address, warm_storage, warm_keys,
  warm_items, apply_access_list,
}

-- The slot and its account are warm.
abbrev pub IsWarm : Address → Word → Ext → Type 0
IsWarm a k ext = (is_address_warm a ext ≡ true) × (is_storage_warm a k ext ≡ true)

-- What is warm stays warm.
address-warm_keys :
    (a b : Address) (keys : List Word) (ext : Ext)
    → is_address_warm a ext ≡ true
    → is_address_warm a (warm_keys b keys ext) ≡ true
unfolding warm_keys warm_storage
address-warm_keys a b [] ext h = h
address-warm_keys a b (l ∷ keys) ext h = address-warm_keys a b keys (warm_storage b l ext) h

storage-warm_keys :
    (a b : Address) (k : Word) (keys : List Word) (ext : Ext)
    → is_storage_warm a k ext ≡ true
    → is_storage_warm a k (warm_keys b keys ext) ≡ true
unfolding warm_keys warm_storage
storage-warm_keys a b k [] ext h = h
storage-warm_keys a b k (l ∷ keys) ext h =
    storage-warm_keys a b k keys (warm_storage b l ext) (ground arith)

warm_items-IsWarm :
    (a : Address) (k : Word) (items : List AccessListItem) (ext : Ext)
    → IsWarm a k ext
    → IsWarm a k (warm_items items ext)
unfolding warm_items warm_address
warm_items-IsWarm a k [] ext h = h
warm_items-IsWarm a k (item ∷ items) ext h =
    let opened = (warm_address item.address ext).1 in
    warm_items-IsWarm a k items (warm_keys item.address item.storage_keys opened) (
      address-warm_keys a item.address item.storage_keys opened (ground arith),
      storage-warm_keys a item.address k item.storage_keys opened h.1,
    )

warm_keys_listed :
    (a : Address) (k : Word) (keys : List Word) (j : ℕ) (ext : Ext)
    → get_elem? keys j ≡ some k
    → is_storage_warm a k (warm_keys a keys ext) ≡ true
unfolding warm_keys warm_storage
warm_keys_listed a k [] j ext e = cc
warm_keys_listed a k (l ∷ keys) zero ext e =
    storage-warm_keys a a k keys (warm_storage a l ext) (ground arith)
warm_keys_listed a k (l ∷ keys) (suc j) ext e = warm_keys_listed a k keys j (warm_storage a l ext) e

warm_items_listed :
    (items : List AccessListItem) (item : AccessListItem) (n j : ℕ) (k : Word) (ext : Ext)
    → get_elem? items n ≡ some item
    → get_elem? item.storage_keys j ≡ some k
    → IsWarm item.address k (warm_items items ext)
unfolding warm_items warm_address
warm_items_listed [] item n j k ext e listed = cc
warm_items_listed (first ∷ items) item zero j k ext e listed =
    let opened = (warm_address first.address ext).1 in
    let same : first ≡ item = ground arith in
    let listed' : get_elem? first.storage_keys j ≡ some k = rw same listed in
    rw (← same) (
      warm_items-IsWarm first.address k items (warm_keys first.address first.storage_keys opened) (
        address-warm_keys first.address first.address first.storage_keys opened (ground arith),
        warm_keys_listed first.address k first.storage_keys j opened listed',
      ))
warm_items_listed (first ∷ items) item (suc n) j k ext e listed =
    warm_items_listed items item n j k
      (warm_keys first.address first.storage_keys (warm_address first.address ext).1) e listed

-- Each slot that an item of the access list names is warm after `apply_access_list`, and so is its
-- account.
pub apply_access_list-IsWarm :
    (ext : Ext) (item : AccessListItem) (n j : ℕ) (k : Word)
    → get_elem? ext.tx_ctx.access_list n ≡ some item
    → get_elem? item.storage_keys j ≡ some k
    → IsWarm item.address k (apply_access_list ext)
unfolding apply_access_list
apply_access_list-IsWarm ext item n j k e listed =
    warm_items_listed ext.tx_ctx.access_list item n j k ext e listed
