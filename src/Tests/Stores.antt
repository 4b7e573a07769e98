-- ===== src/Tests/Stores.antt =====
-- Concrete crates, stores and files for the cache of the proxy. A link to a link cannot be read.
use mathlib.Core.Option
use solenoid.Base.{
  ℕ, zero, suc, ◌+◌, ◌*◌, ◌/◌, ◌%◌, ◌≡◌, ◌≢◌, refl, ap, sym, subst, ◌∙◌, Bool, true, false,
  Bool-cases, inl, inr, Option, none, some, List, [], ◌∷◌, length, ◌==◌, ◌&&◌, arith, if◌then◌else◌,
}
use solenoid.Primitives.Bytes.Bounds.{AreBytes}
use solenoid.Hex.{hex_digit}
use solenoid.Hex.Printed.{digits, hex_digit-digit_char}
use solenoid.RpcProxy.Paths.{same_string}
use solenoid.RpcProxy.Crates.{HexCrate, KvStore, FileSystem, Folder, FilePath}
use solenoid.RpcProxy.Cache.Reads.{same_string_refl}

abbrev read_pair : Option ℕ → Option ℕ → Option (List ℕ) → Option (List ℕ)
read_pair (some h) (some l) (some bytes) = some ((h * 16 + l) ∷ bytes)
read_pair _ _ _ = none

abbrev undigits : List ℕ → Option (List ℕ)
undigits [] = some []
undigits (c ∷ []) = none
undigits (c ∷ d ∷ rest) = read_pair (hex_digit c) (hex_digit d) (undigits rest)

pub undigits-digits : (bytes : List ℕ) → AreBytes bytes → undigits (digits bytes) ≡ some bytes
undigits-digits [] h = refl
undigits-digits (b ∷ bytes) (hb, h) =
    let high = hex_digit-digit_char (b / 16) (omega (arith, hb)) in
    let low = hex_digit-digit_char (b % 16) (omega arith) in
    let whole : b / 16 * 16 + b % 16 ≡ b = omega arith in
    rw (high, low, undigits-digits bytes h, whole) refl

abbrev fill : List ℕ → Option (List ℕ) → List ℕ
fill out none = out
fill out (some bytes) = if length bytes == length out then bytes else out

pub fill-digits :
    (bytes out : List ℕ)
    → AreBytes bytes
    → length out ≡ length bytes
    → fill out (undigits (digits bytes)) ≡ bytes
fill-digits bytes out h e =
    let same : (length bytes == length out) ≡ true = ground (arith, e) in
    rw (undigits-digits bytes h, same) refl

instance abbrev pub plain_hex : HexCrate
plain_hex = record {
  encode = digits;
  encode_law = λ bytes h. refl;
  decode = undigits;
  decode_law = undigits-digits;
  decode_to_slice = λ s out. fill out (undigits s);
  decode_to_slice_law = fill-digits;
}

abbrev Values : Type 0
Values = List ℕ → Option (List ℕ)

abbrev insert_value : Values → List ℕ → List ℕ → Values
insert_value db key value other = if same_string other key then some value else db other

instance abbrev pub plain_store : KvStore
plain_store = record {
  Kv = Values;
  exists = λ p. false;
  open_kv = λ p. none;
  make_kv = λ p page. some (λ key. none);
  lookup = λ db key. some (db key);
  insert = λ db key value. some (insert_value db key value);
  insert_law = λ db db' key value e.
      ap (λ (d : Option Values). some (Option.get_or d db key)) (sym e)
      ∙ (let same = same_string_refl key in rw same refl);
}

abbrev folder_code : Folder → ℕ
folder_code Folder.storage = 0
folder_code Folder.code = 1
folder_code Folder.blocks = 2
folder_code Folder.txs = 3

abbrev same_path : FilePath → FilePath → Bool
same_path p q = folder_code p.folder == folder_code q.folder && same_string p.name q.name

same_path_refl : (p : FilePath) → same_path p p ≡ true
same_path_refl p = ground (arith, same_string_refl p.name)

same_string_eq : (s t : List ℕ) → same_string s t ≡ true → s ≡ t
unfolding same_string
same_string_eq [] [] h = refl
same_string_eq [] (d ∷ t) h = absurd (cc h)
same_string_eq (c ∷ s) [] h = absurd (cc h)
same_string_eq (c ∷ s) (d ∷ t) h =
    let here : c ≡ d = ground arith in
    let there : same_string s t ≡ true = ground arith in
    rw here (ap (λ l. d ∷ l) (same_string_eq s t there))

abbrev folder_of : ℕ → Folder
folder_of zero = Folder.storage
folder_of (suc zero) = Folder.code
folder_of (suc (suc zero)) = Folder.blocks
folder_of _ = Folder.txs

folder_of-folder_code : (f : Folder) → folder_of (folder_code f) ≡ f
folder_of-folder_code Folder.storage = refl
folder_of-folder_code Folder.code = refl
folder_of-folder_code Folder.blocks = refl
folder_of-folder_code Folder.txs = refl

same_path_eq : (p q : FilePath) → same_path p q ≡ true → p ≡ q
same_path_eq p q h =
    let codes : folder_code p.folder ≡ folder_code q.folder = ground arith in
    let named : same_string p.name q.name ≡ true = ground arith in
    let folders =
      sym (folder_of-folder_code p.folder) ∙ ap folder_of codes ∙ folder_of-folder_code q.folder in
    ap (λ f. record { folder = f; name = p.name }) folders
    ∙ ap (λ n. record { folder = q.folder; name = n }) (same_string_eq p.name q.name named)

other_path : (p q : FilePath) → p.name ≢ q.name → same_path p q ≡ false
other_path p q h = elim (Bool-cases (same_string p.name q.name)) [
  | inl same ↦ absurd (h (same_string_eq p.name q.name same))
  | inr other ↦ ground (arith, other)
]

-- A file with its content, or a link to a path.
pub data Entry : Type 0 where
  file : List ℕ → Entry
  link_to : FilePath → Entry

abbrev Stored : Type 0
Stored = FilePath → Option Entry

abbrev keep : Stored → FilePath → Entry → Stored
keep files p e q = if same_path q p then some e else files q

abbrev drop_file : Stored → FilePath → Stored
drop_file files p q = if same_path q p then none else files q

abbrev is_link_to : Option Entry → Bool
is_link_to (some (link_to t)) = true
is_link_to _ = false

-- A link to a link is an error.
abbrev plain_content : Option Entry → Option (Option (List ℕ))
plain_content none = some none
plain_content (some (file b)) = some (some b)
plain_content (some (link_to t)) = none

abbrev content : Stored → Option Entry → Option (Option (List ℕ))
content files (some (link_to t)) = plain_content (files t)
content files e = plain_content e

abbrev resolve : FilePath → Option Entry → FilePath
resolve p (some (link_to t)) = t
resolve p _ = p

abbrev write_file : Stored → FilePath → List ℕ → Option Stored
write_file files p bytes = some (keep files (resolve p (files p)) (file bytes))

abbrev move_entry : Stored → FilePath → FilePath → Option Entry → Option Stored
move_entry files from to none = none
move_entry files from to (some e) = some (keep (drop_file files from) to e)

abbrev make_link : Stored → FilePath → FilePath → Option Entry → Option Stored
make_link files target link none = some (keep files link (link_to target))
make_link files target link (some e) = none

keep_here : (files : Stored) (p : FilePath) (e : Entry) → keep files p e p ≡ some e
keep_here files p e = let same = same_path_refl p in rw same refl

-- What the laws say of a file.
abbrev Holds : Stored → FilePath → List ℕ → Type 0
Holds files p bytes = (content files (files p) ≡ some (some bytes)) × (is_link_to (files p) ≡ false)

file-Holds :
    (files : Stored) (p : FilePath) (bytes : List ℕ)
    → files p ≡ some (file bytes)
    → Holds files p bytes
file-Holds files p bytes e = rw e (refl, refl)

resolve_lem : (p : FilePath) (e : Option Entry) → is_link_to e ≡ false → resolve p e ≡ p
resolve_lem p none h = refl
resolve_lem p (some (file b)) h = refl
resolve_lem p (some (link_to t)) h = absurd (cc h)

is_file :
    (files : Stored) (e : Option Entry) (bytes : List ℕ)
    → is_link_to e ≡ false
    → content files e ≡ some (some bytes)
    → e ≡ some (file bytes)
is_file files none bytes h k = absurd (cc k)
is_file files (some (file b)) bytes h k =
    ap (λ r. some (file (Option.get_or (Option.get_or r none) []))) k
is_file files (some (link_to t)) bytes h k = absurd (cc h)

same_content :
    (files others : Stored) (e : Option Entry)
    → is_link_to e ≡ false
    → content files e ≡ content others e
same_content files others none h = refl
same_content files others (some (file b)) h = refl
same_content files others (some (link_to t)) h = absurd (cc h)

pub written_file :
    (files files' : Stored) (p : FilePath) (bytes : List ℕ)
    → is_link_to (files p) ≡ false
    → write_file files p bytes ≡ some files'
    → Holds files' p bytes
written_file files files' p bytes no_link e =
    subst (λ x. Holds x p bytes) (ap (λ r. Option.get_or r files) e)
      (file-Holds (keep files (resolve p (files p)) (file bytes)) p bytes (
        ap (λ q. keep files q (file bytes) p) (resolve_lem p (files p) no_link)
        ∙ keep_here files p (file bytes)))

pub renamed_file :
    (files files' : Stored) (from to : FilePath) (bytes : List ℕ)
    → is_link_to (files from) ≡ false
    → content files (files from) ≡ some (some bytes)
    → move_entry files from to (files from) ≡ some files'
    → Holds files' to bytes
renamed_file files files' from to bytes no_link there e =
    let moved =
      ap (move_entry files from to) (sym (is_file files (files from) bytes no_link there)) ∙ e in
    subst (λ x. Holds x to bytes) (ap (λ r. Option.get_or r files) moved)
      (file-Holds (keep (drop_file files from) to (file bytes)) to bytes
        (keep_here (drop_file files from) to (file bytes)))

pub removed_file :
    (files : Stored) (p q : FilePath)
    → q.name ≢ p.name
    → is_link_to (files q) ≡ false
    → (content (drop_file files p) (drop_file files p q) ≡ content files (files q))
      × (is_link_to (drop_file files p q) ≡ false)
removed_file files p q apart no_link =
    let other = other_path q p apart in
    rw other (same_content (drop_file files p) files (files q) no_link, no_link)

linked_at :
    (files files' : Stored) (target link : FilePath) (bytes : List ℕ) (e : Option Entry)
    → files link ≡ e
    → files target ≡ some (file bytes)
    → make_link files target link e ≡ some files'
    → (content files' (files' target) ≡ some (some bytes))
      × (content files' (files' link) ≡ some (some bytes))
linked_at files files' target link bytes (some e) free there made = absurd (cc made)
linked_at files files' target link bytes none free there made =
    let linked = keep files link (link_to target) in
    let apart : same_path target link ≡ false = elim (Bool-cases (same_path target link)) [
      | inl same ↦ absurd (cc (sym there ∙ ap files (same_path_eq target link same) ∙ free))
      | inr other ↦ other
    ] in
    let target_file : linked target ≡ some (file bytes) = rw apart there in
    subst
      (λ (x : Stored).
        (content x (x target) ≡ some (some bytes)) × (content x (x link) ≡ some (some bytes)))
      (ap (λ r. Option.get_or r files) made)
      (
        (file-Holds linked target bytes target_file).0,
        ap (content linked) (keep_here files link (link_to target)) ∙ ap plain_content target_file,
      )

pub linked_file :
    (files files' : Stored) (target link : FilePath) (bytes : List ℕ)
    → is_link_to (files target) ≡ false
    → content files (files target) ≡ some (some bytes)
    → make_link files target link (files link) ≡ some files'
    → (content files' (files' target) ≡ some (some bytes))
      × (content files' (files' link) ≡ some (some bytes))
linked_file files files' target link bytes no_link there made =
    linked_at files files' target link bytes (files link) refl
      (is_file files (files target) bytes no_link there) made

abbrev ungz : List ℕ → Option (List ℕ)
ungz [] = none
ungz (c ∷ l) = some l

instance abbrev pub plain_files : FileSystem
plain_files = record {
  Files = Stored;
  read = λ files p. content files (files p);
  is_link = λ files p. is_link_to (files p);
  write = write_file;
  rename = λ files from to. move_entry files from to (files from);
  remove_file = drop_file;
  symlink = λ files target link. make_link files target link (files link);
  gz_encode = λ content. 31 ∷ content;
  gz_decode = ungz;
  gz_law = λ content. refl;
  write_law = written_file;
  rename_law = renamed_file;
  remove_law = removed_file;
  symlink_law = linked_file;
}
