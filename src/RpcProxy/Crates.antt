-- ===== src/RpcProxy/Crates.antt =====
-- What rpc-proxy/src/cache.rs uses of the crates hex and yakvdb, and of the file system with flate2.
-- A string is the list of its bytes, and `none` is an error.
use solenoid.Base.{ℕ, ◌≡◌, ◌≢◌, Bool, false, Option, some, List, length}
use solenoid.Primitives.Bytes.Bounds.{AreBytes}
use solenoid.Hex.Printed.{digits}

-- `encode` prints two digits in lower case for each byte. `decode_to_slice` of a string and a
-- buffer gives the buffer as it leaves it.
pub record HexCrate : Type 0 where
  pub encode : List ℕ → List ℕ
  pub encode_law : (bytes : List ℕ) → AreBytes bytes → encode bytes ≡ digits bytes
  pub decode : List ℕ → Option (List ℕ)
  pub decode_law : (bytes : List ℕ) → AreBytes bytes → decode (digits bytes) ≡ some bytes
  pub decode_to_slice : List ℕ → List ℕ → List ℕ
  pub decode_to_slice_law :
      (bytes out : List ℕ)
      → AreBytes bytes
      → length out ≡ length bytes
      → decode_to_slice (digits bytes) out ≡ bytes

-- A store of values by keys, in a file that is opened or made with a size of its pages.
pub record KvStore : Type 1 where
  pub Kv : Type 0
  pub exists : List ℕ → Bool
  pub open_kv : List ℕ → Option Kv
  pub make_kv : List ℕ → ℕ → Option Kv
  pub lookup : Kv → List ℕ → Option (Option (List ℕ))
  pub insert : Kv → List ℕ → List ℕ → Option Kv
  pub insert_law :
      (db db' : Kv) (key value : List ℕ)
      → insert db key value ≡ some db'
      → lookup db' key ≡ some (some value)

-- A file below the directory of the cache.
pub data Folder : Type 0 where
  storage code blocks txs : Folder

pub record FilePath : Type 0 where
  pub folder : Folder
  pub name : List ℕ

-- The file system and compression. `read` of a file that does not exist is no error, and `read` and
-- `write` follow links; `write` makes the file and writes all of it. The laws are about names that
-- are no links.
pub record FileSystem : Type 1 where
  pub Files : Type 0
  pub read : Files → FilePath → Option (Option (List ℕ))
  pub is_link : Files → FilePath → Bool
  pub write : Files → FilePath → List ℕ → Option Files
  pub rename : Files → FilePath → FilePath → Option Files
  pub remove_file : Files → FilePath → Files
  pub symlink : Files → FilePath → FilePath → Option Files
  pub gz_encode : List ℕ → List ℕ
  pub gz_decode : List ℕ → Option (List ℕ)
  pub gz_law : (content : List ℕ) → gz_decode (gz_encode content) ≡ some content
  -- A file that is written has its content.
  pub write_law :
      (fs fs' : Files) (p : FilePath) (bytes : List ℕ)
      → is_link fs p ≡ false
      → write fs p bytes ≡ some fs'
      → (read fs' p ≡ some (some bytes)) × (is_link fs' p ≡ false)
  -- A file that is renamed takes its content along, and takes the place of what had the name.
  pub rename_law :
      (fs fs' : Files) (from to : FilePath) (bytes : List ℕ)
      → is_link fs from ≡ false
      → read fs from ≡ some (some bytes)
      → rename fs from to ≡ some fs'
      → (read fs' to ≡ some (some bytes)) × (is_link fs' to ≡ false)
  -- A removal leaves the files with other names.
  pub remove_law :
      (fs : Files) (p q : FilePath)
      → q.name ≢ p.name
      → is_link fs q ≡ false
      → (read (remove_file fs p) q ≡ read fs q) × (is_link (remove_file fs p) q ≡ false)
  -- A new link reads as its target, which it leaves.
  pub symlink_law :
      (fs fs' : Files) (target link : FilePath) (bytes : List ℕ)
      → is_link fs target ≡ false
      → read fs target ≡ some (some bytes)
      → symlink fs target link ≡ some fs'
      → (read fs' target ≡ some (some bytes)) × (read fs' link ≡ some (some bytes))
