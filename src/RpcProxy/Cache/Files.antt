-- ===== src/RpcProxy/Cache/Files.antt =====
-- The files and the blocks that rpc-proxy/src/cache.rs keeps.
use solenoid.Base.{ℕ, ◌≡◌, ◌≢◌, refl, ap, sym, subst, false, ◌∙◌, Option, none, some, List, ◌++◌}
use solenoid.Outcome.{Done}
use solenoid.RpcProxy.Crates.{HexCrate, KvStore, FileSystem, FilePath}
use solenoid.RpcProxy.Encoding.{normalize_hex}
use solenoid.RpcProxy.Cache.{
  Cache, read_gz_string, put_tx, get_tx, write_gz_string, put_block, get_block_by_hash,
  get_block_by_number,
}
use solenoid.RpcProxy.Paths.{with_tmp, block_path, number_path, json_tgz, tx_path}
use solenoid.RpcProxy.Cache.Reads.{no_result}

-- The file that the content of a file is first written to.
abbrev pub temporary : FilePath → FilePath
temporary p = record { folder = p.folder; name = with_tmp p.name }

module _ ⦃hex : HexCrate⦄ ⦃kv : KvStore⦄ ⦃fs : FileSystem⦄ where
  abbrev keep_renamed : fs.Files → Option fs.Files → Option Done × fs.Files
  keep_renamed written renamed = elim renamed [
    | none ↦ (none, written)
    | some files ↦ (some tt, files)
  ]

  abbrev rename_written : FilePath → fs.Files → Option fs.Files → Option Done × fs.Files
  rename_written p files written = elim written [
    | none ↦ (none, files)
    | some w ↦ keep_renamed w (fs.rename w (record { folder = p.folder; name = with_tmp p.name }) p)
  ]

  module _ (p : FilePath) (content : List ℕ) (files files' : fs.Files) where
    abbrev tmp : FilePath
    tmp = temporary p

    -- The content of the file, which is no link.
    abbrev Holds : fs.Files → FilePath → Type 0
    Holds x q = (fs.read x q ≡ some (some (fs.gz_encode content))) × (fs.is_link x q ≡ false)

    renamed_Holds :
        (written : fs.Files) (renamed : Option fs.Files)
        → Holds written tmp
        → fs.rename written tmp p ≡ renamed
        → keep_renamed written renamed ≡ (some tt, files')
        → Holds files' p
    renamed_Holds written none there e h = absurd (no_result refl (ap (λ r. r.0) h))
    renamed_Holds written (some renamed) (there, no_link) e h =
        subst (λ x. Holds x p) (ap (λ r. r.1) h)
          (fs.rename_law written renamed tmp p (fs.gz_encode content) no_link there e)

    written_Holds :
        (written : Option fs.Files)
        → fs.is_link files tmp ≡ false
        → fs.write files tmp (fs.gz_encode content) ≡ written
        → rename_written p files written ≡ (some tt, files')
        → Holds files' p
    written_Holds none no_link e h = absurd (no_result refl (ap (λ r. r.0) h))
    written_Holds (some written) no_link e h =
        renamed_Holds written (fs.rename written tmp p)
          (fs.write_law files written tmp (fs.gz_encode content) no_link e) refl h

    -- A write of a file that succeeds leaves its content there, in a file that is no link.
    write_gz_string-Holds :
        fs.is_link files tmp ≡ false
        → write_gz_string p content files ≡ (some tt, files')
        → Holds files' p
    unfolding write_gz_string
    write_gz_string-Holds no_link h =
        written_Holds (fs.write files tmp (fs.gz_encode content)) no_link refl h

  -- A file that holds compressed content reads as that content.
  read_gz_string_lem :
      (p : FilePath) (content : List ℕ) (files : fs.Files)
      → fs.read files p ≡ some (some (fs.gz_encode content))
      → read_gz_string files p ≡ some (some content)
  unfolding read_gz_string
  read_gz_string_lem p content files h = rw (read_gz_string, h, fs.gz_law content) refl

  abbrev keep_linked : Cache → fs.Files → Option fs.Files → Option Done × Cache
  keep_linked c removed linked = elim linked [
    | none ↦ (none, record c { files = removed })
    | some files ↦ (some tt, record c { files = files })
  ]

  abbrev link_block : List ℕ → List ℕ → Cache → Option Done × fs.Files → Option Done × Cache
  link_block hash number c r = elim r.0 [
    | none ↦ (none, record c { files = r.1 })
    | some done ↦ keep_linked c (fs.remove_file r.1 (number_path number)) (
        fs.symlink (fs.remove_file r.1 (number_path number)) (block_path hash) (number_path number))
  ]

  module _ (hash number json : List ℕ) (c c' : Cache) where
    abbrev read_of : FilePath → fs.Files → Option (Option (List ℕ))
    read_of p files = read_gz_string files p

    -- What the reads of a block give, by its hash and by its number.
    pub record IsRead : Type 0 where
      pub by_hash : (get_block_by_hash hash c').0 ≡ some (some json)
      pub by_number : (get_block_by_number number c').0 ≡ some (some json)

    linked_read :
        (files : fs.Files) (linked : Option fs.Files)
        → (normalize_hex hash ++ json_tgz) ≢ normalize_hex number
        → fs.read files (block_path hash) ≡ some (some (fs.gz_encode json))
        → fs.is_link files (block_path hash) ≡ false
        → fs.symlink
            (fs.remove_file files (number_path number))
            (block_path hash)
            (number_path number)
          ≡ linked
        → keep_linked c (fs.remove_file files (number_path number)) linked ≡ (some tt, c')
        → IsRead
    unfolding get_block_by_hash get_block_by_number
    linked_read files none apart there no_link e h = absurd (no_result refl (ap (λ r. r.0) h))
    linked_read files (some linked) apart there no_link e h =
        let removed = fs.remove_file files (number_path number) in
        let (still, still_no_link) =
          fs.remove_law files (number_path number) (block_path hash) apart no_link in
        let (hash_reads, number_reads) =
          fs.symlink_law removed linked (block_path hash) (number_path number) (fs.gz_encode json)
            still_no_link (still ∙ there) e in
        let same : linked ≡ c'.files = ap (λ r. r.1.files) h in
        record {
          by_hash =
              ap (read_of (block_path hash)) (sym same)
              ∙ read_gz_string_lem (block_path hash) json linked hash_reads;
          by_number =
              ap (read_of (number_path number)) (sym same)
              ∙ read_gz_string_lem (number_path number) json linked number_reads;
        }

    block_read :
        (r : Option Done × fs.Files)
        → fs.is_link c.files (temporary (block_path hash)) ≡ false
        → (normalize_hex hash ++ json_tgz) ≢ normalize_hex number
        → write_gz_string (block_path hash) json c.files ≡ r
        → link_block hash number c r ≡ (some tt, c')
        → IsRead
    block_read (none, files) free apart e h = absurd (no_result refl (ap (λ r. r.0) h))
    block_read (some done, files) free apart e h =
        let (there, no_link) = write_gz_string-Holds (block_path hash) json c.files files free e in
        linked_read files
          (fs.symlink (fs.remove_file files (number_path number)) (block_path hash)
            (number_path number))
          apart there no_link refl h

    pub put_block-IsRead :
        fs.is_link c.files (temporary (block_path hash)) ≡ false
        → (normalize_hex hash ++ json_tgz) ≢ normalize_hex number
        → put_block hash number json c ≡ (some tt, c')
        → IsRead
    unfolding put_block
    put_block-IsRead free apart h =
        block_read (write_gz_string (block_path hash) json c.files) free apart refl h

  file_kept :
      (p : FilePath) (content : List ℕ) (files : fs.Files)
      → fs.is_link files (temporary p) ≡ false
      → (write_gz_string p content files).0 ≡ some tt
      → read_gz_string (write_gz_string p content files).1 p ≡ some (some content)
  file_kept p content files free done =
      let after = (write_gz_string p content files).1 in
      read_gz_string_lem p content after
        (write_gz_string-Holds p content files after free (ap (λ r. (r, after)) done)).0

  -- A transaction that was written is read.
  pub put_tx-get_tx :
      (hash json : List ℕ) (c : Cache)
      → fs.is_link c.files (temporary (tx_path hash)) ≡ false
      → (put_tx hash json c).0 ≡ some tt
      → (get_tx hash (put_tx hash json c).1).0 ≡ some (some json)
  unfolding put_tx get_tx
  put_tx-get_tx hash json c free done = file_kept (tx_path hash) json c.files free done
