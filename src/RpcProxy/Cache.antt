-- ===== src/RpcProxy/Cache.antt =====
-- `Cache` of rpc-proxy/src/cache.rs. The directory is fixed, and the stores that are open are kept
-- by the address that they belong to.
pub mod Reads
pub mod Files
use solenoid.Base.{
  ℕ, Bool, true, false, Option, none, some, List, [], ◌∷◌, ◌++◌, ◌==◌, ◌&&◌, if◌then◌else◌,
}
use mathlib.Core.Option
use solenoid.Outcome.{Done}
use solenoid.RpcProxy.Crates.{HexCrate, KvStore, FileSystem, Folder, FilePath}
use solenoid.RpcProxy.Encoding.{
  normalize_hex, decode_hex_padded, storage_key, address_block_key, decode_hex_compact,
  encode_quantity, encode_data32,
}
use solenoid.RpcProxy.Paths.{
  same_string, with_tmp, path, code_path, block_path, number_path, tx_path, receipt_path,
}

module _ ⦃hex : HexCrate⦄ ⦃kv : KvStore⦄ ⦃fs : FileSystem⦄ where
  pub record Cache : Type 0 where
    pub balance_db : kv.Kv
    pub nonce_db : kv.Kv
    pub storage_dbs : List ℕ → Option kv.Kv
    pub files : fs.Files

  -- A method: `none` is an error.
  abbrev pub Method : Type 0 → Type 0
  Method A = Cache → Option A × Cache

  unfoldable pub open_or_create_kv : List ℕ → Option kv.Kv
  open_or_create_kv p = if kv.exists p then kv.open_kv p else kv.make_kv p 4096

  abbrev pub with_storage : List ℕ → kv.Kv → Cache → Cache
  with_storage addr db c = record c {
    storage_dbs = λ other. if same_string other addr then some db else c.storage_dbs other;
  }

  -- The store of an address, opened when it is not.
  unfoldable pub storage_db : List ℕ → Method kv.Kv
  unfolding open_or_create_kv
  storage_db address c =
      let addr = normalize_hex address in
      elim (c.storage_dbs addr) [
        | some db ↦ (some db, c)
        | none ↦ elim (open_or_create_kv addr) [
          | none ↦ (none, c)
          | some db ↦ (some db, with_storage addr db c)
        ]
      ]

  unfoldable pub get_storage_at : List ℕ → List ℕ → List ℕ → Method (Option (List ℕ))
  unfolding storage_db
  get_storage_at address slot block c =
      let (opened, c') = storage_db address c in
      elim opened [
        | none ↦ (none, c')
        | some db ↦
            (Option.map (Option.map encode_data32) (kv.lookup db (storage_key slot block)), c')
      ]

  -- A write goes to the store that the map holds.
  unfoldable pub put_storage_at : List ℕ → List ℕ → List ℕ → List ℕ → Method Done
  unfolding storage_db
  put_storage_at address slot block value c =
      let (opened, c') = storage_db address c in
      elim opened [
        | none ↦ (none, c')
        | some db ↦ elim (kv.insert db (storage_key slot block) (decode_hex_padded 32 value)) [
          | none ↦ (none, c')
          | some db' ↦ (some tt, with_storage (normalize_hex address) db' c')
        ]
      ]

  unfoldable pub get_balance : List ℕ → List ℕ → Method (Option (List ℕ))
  get_balance address block c = (
    Option.map (Option.map encode_quantity)
        (kv.lookup c.balance_db (address_block_key address block)),
    c,
  )

  unfoldable pub put_balance : List ℕ → List ℕ → List ℕ → Method Done
  put_balance address block value c =
      elim (kv.insert c.balance_db (address_block_key address block) (decode_hex_compact value)) [
        | none ↦ (none, c)
        | some db ↦ (some tt, record c { balance_db = db })
      ]

  unfoldable pub get_tx_count : List ℕ → List ℕ → Method (Option (List ℕ))
  get_tx_count address block c = (
    Option.map (Option.map encode_quantity)
        (kv.lookup c.nonce_db (address_block_key address block)),
    c,
  )

  unfoldable pub put_tx_count : List ℕ → List ℕ → List ℕ → Method Done
  put_tx_count address block value c =
      elim (kv.insert c.nonce_db (address_block_key address block) (decode_hex_compact value)) [
        | none ↦ (none, c)
        | some db ↦ (some tt, record c { nonce_db = db })
      ]

  -- A file that is not there gives no content.
  unfoldable pub read_gz_string : fs.Files → FilePath → Option (Option (List ℕ))
  read_gz_string files p = elim (fs.read files p) [
    | none ↦ none
    | some found ↦ elim found [
      | none ↦ some none
      | some bytes ↦ Option.map some (fs.gz_decode bytes)
    ]
  ]

  -- The files afterwards, which an error leaves as they are but for the temporary file.
  unfoldable pub write_gz_string : FilePath → List ℕ → fs.Files → Option Done × fs.Files
  unfolding with_tmp
  write_gz_string p content files =
      let tmp = path p.folder (with_tmp p.name) in
      elim (fs.write files tmp (fs.gz_encode content)) [
        | none ↦ (none, files)
        | some written ↦ elim (fs.rename written tmp p) [
          | none ↦ (none, written)
          | some renamed ↦ (some tt, renamed)
        ]
      ]

  abbrev read_file : FilePath → Method (Option (List ℕ))
  read_file p c = (read_gz_string c.files p, c)

  abbrev write_file : FilePath → List ℕ → Method Done
  write_file p content c =
      let (result, files) = write_gz_string p content c.files in
      (result, record c { files = files })

  unfoldable pub get_code : List ℕ → Method (Option (List ℕ))
  unfolding read_gz_string
  get_code address = read_file (code_path address)

  unfoldable pub put_code : List ℕ → List ℕ → Method Done
  unfolding write_gz_string
  put_code address hex_code = write_file (code_path address) hex_code

  unfoldable pub get_block_by_hash : List ℕ → Method (Option (List ℕ))
  unfolding read_gz_string
  get_block_by_hash hash = read_file (block_path hash)

  unfoldable pub get_block_by_number : List ℕ → Method (Option (List ℕ))
  unfolding read_gz_string
  get_block_by_number number = read_file (number_path number)

  -- The block is a file by its hash; its number is a link to it.
  unfoldable pub put_block : List ℕ → List ℕ → List ℕ → Method Done
  unfolding write_gz_string
  put_block hash number json c =
      let (written, files) = write_gz_string (block_path hash) json c.files in
      elim written [
        | none ↦ (none, record c { files = files })
        | some done ↦
            let removed = fs.remove_file files (number_path number) in
            elim (fs.symlink removed (block_path hash) (number_path number)) [
              | none ↦ (none, record c { files = removed })
              | some linked ↦ (some tt, record c { files = linked })
            ]
      ]

  unfoldable pub get_tx : List ℕ → Method (Option (List ℕ))
  unfolding read_gz_string
  get_tx hash = read_file (tx_path hash)

  unfoldable pub put_tx : List ℕ → List ℕ → Method Done
  unfolding write_gz_string
  put_tx hash json = write_file (tx_path hash) json

  unfoldable pub get_receipt : List ℕ → Method (Option (List ℕ))
  unfolding read_gz_string
  get_receipt hash = read_file (receipt_path hash)

  unfoldable pub put_receipt : List ℕ → List ℕ → Method Done
  unfolding write_gz_string
  put_receipt hash json = write_file (receipt_path hash) json
