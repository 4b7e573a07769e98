-- ===== src/RpcProxy/Paths.antt =====
-- The names of the files of rpc-proxy/src/cache.rs. A string is the list of its bytes.
use solenoid.Base.{
  ℕ, Bool, true, false, Option, none, some, List, [], ◌∷◌, ◌++◌, ◌==◌, ◌&&◌, if◌then◌else◌,
}
use solenoid.RpcProxy.Crates.{Folder, FilePath}
use solenoid.RpcProxy.Encoding.{normalize_hex}

-- Equality of strings.
unfoldable pub same_string : List ℕ → List ℕ → Bool
same_string [] [] = true
same_string [] (c ∷ t) = false
same_string (c ∷ s) [] = false
same_string (c ∷ s) (d ∷ t) = c == d && same_string s t

-- The name without what follows its last dot, when that is not its first character.
unfoldable pub before_dot : List ℕ → Option (List ℕ)
before_dot [] = none
before_dot (c ∷ rest) = elim (before_dot rest) [
  | some s ↦ some (c ∷ s)
  | none ↦ if c == 46 then some [] else none
]

unfoldable pub file_stem : List ℕ → List ℕ
unfolding before_dot
file_stem [] = []
file_stem (c ∷ rest) = elim (before_dot rest) [ none ↦ c ∷ rest | some s ↦ c ∷ s ]

-- `with_extension("tmp")`
unfoldable pub with_tmp : List ℕ → List ℕ
unfolding file_stem
with_tmp s = file_stem s ++ 46 ∷ 116 ∷ 109 ∷ 112 ∷ []

-- `.bin.tgz`, `.json.tgz` and `.receipt.json.tgz`
abbrev pub bin_tgz : List ℕ
bin_tgz = 46 ∷ 98 ∷ 105 ∷ 110 ∷ 46 ∷ 116 ∷ 103 ∷ 122 ∷ []

abbrev pub json_tgz : List ℕ
json_tgz = 46 ∷ 106 ∷ 115 ∷ 111 ∷ 110 ∷ 46 ∷ 116 ∷ 103 ∷ 122 ∷ []

abbrev pub receipt_tgz : List ℕ
receipt_tgz = 46 ∷ 114 ∷ 101 ∷ 99 ∷ 101 ∷ 105 ∷ 112 ∷ 116 ∷ json_tgz

abbrev pub path : Folder → List ℕ → FilePath
path folder name = record { folder = folder; name = name }

abbrev pub code_path : List ℕ → FilePath
code_path address = path Folder.code (normalize_hex address ++ bin_tgz)

abbrev pub block_path : List ℕ → FilePath
block_path hash = path Folder.blocks (normalize_hex hash ++ json_tgz)

abbrev pub number_path : List ℕ → FilePath
number_path number = path Folder.blocks (normalize_hex number)

abbrev pub tx_path : List ℕ → FilePath
tx_path hash = path Folder.txs (normalize_hex hash ++ json_tgz)

abbrev pub receipt_path : List ℕ → FilePath
receipt_path hash = path Folder.txs (normalize_hex hash ++ receipt_tgz)
