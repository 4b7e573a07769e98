-- ===== src/Tests/Cached.antt =====
-- Tests of the cache of the proxy.
use solenoid.Base.{ℕ, ◌≡◌, ◌≢◌, refl, ap, arith, false, none, some, List, [], ◌∷◌, ◌++◌}
use solenoid.Primitives.Bytes.{be_bytes, length-be_bytes}
use solenoid.Hex.Printed.{AreBytes-be_bytes, printed, digit_char}
use solenoid.Hex.{hex_digit}
use solenoid.RpcProxy.Paths.{same_string, block_path, json_tgz, with_tmp, file_stem, before_dot}
use solenoid.RpcProxy.Encoding.{
  normalize_hex, trim_0x, lower, trim_zeros, decode_hex_compact, encode_quantity, decode_hex_padded,
  storage_key, address_block_key,
}
use solenoid.RpcProxy.Cache.{
  Cache, write_gz_string, storage_db, open_or_create_kv, get_storage_at, put_storage_at, put_block,
  get_balance, put_balance,
}
use solenoid.RpcProxy.Cache.Reads.{put_storage_at-get_storage_at}
use solenoid.RpcProxy.Cache.Files.{temporary, put_block-IsRead, IsRead}
use solenoid.Tests.Stores.{plain_hex, plain_store, plain_files}

-- `0xAb` and `ab`, `0x3` and `0x03`, `0x17599f9`, and `0x1234`.
abbrev address : List ℕ
address = 48 ∷ 120 ∷ 65 ∷ 98 ∷ []

abbrev address_lower : List ℕ
address_lower = 97 ∷ 98 ∷ []

abbrev slot : List ℕ
slot = 48 ∷ 120 ∷ 51 ∷ []

abbrev slot_padded : List ℕ
slot_padded = 48 ∷ 120 ∷ 48 ∷ 51 ∷ []

abbrev number : List ℕ
number = 48 ∷ 120 ∷ 49 ∷ 55 ∷ 53 ∷ 57 ∷ 57 ∷ 102 ∷ 57 ∷ []

abbrev value : List ℕ
value = be_bytes 32 4660

abbrev empty : Cache
empty = record {
  balance_db = λ key. none;
  nonce_db = λ key. none;
  storage_dbs = λ addr. none;
  files = λ p. none;
}

abbrev filled : Cache
filled = (put_storage_at address slot number (printed value) empty).1

filled_lem : put_storage_at address slot number (printed value) empty ≡ (some tt, filled)
unfolding put_storage_at storage_db open_or_create_kv
filled_lem = refl

same_address : normalize_hex address_lower ≡ normalize_hex address
unfolding normalize_hex
same_address = refl

same_key : storage_key slot_padded number ≡ storage_key slot number
unfolding storage_key decode_hex_padded trim_0x
same_key = refl

put_storage_at-get_storage_at_example :
    (get_storage_at address_lower slot_padded number filled).0 ≡ some (some (printed value))
put_storage_at-get_storage_at_example =
    put_storage_at-get_storage_at address slot number address_lower slot_padded number value empty
      filled (AreBytes-be_bytes 32 4660) (length-be_bytes 32 4660) same_address same_key filled_lem

-- A block with the hash `0xAb` by its number, which is a link then, in place of the text 7.
abbrev written : Cache
written = (put_block address number (7 ∷ []) empty).1

abbrev rewritten : Cache
rewritten = (put_block address number (8 ∷ 9 ∷ []) written).1

rewritten_lem : put_block address number (8 ∷ 9 ∷ []) written ≡ (some tt, rewritten)
unfolding put_block write_gz_string with_tmp file_stem before_dot same_string normalize_hex trim_0x
    lower
rewritten_lem = refl

abbrev first : List ℕ → ℕ
first [] = 0
first (c ∷ s) = c

apart : (normalize_hex address ++ json_tgz) ≢ normalize_hex number
unfolding normalize_hex trim_0x lower
apart e = let same : 97 ≡ 49 = ap first e in omega (arith, same)

free : plain_files.is_link written.files (temporary (block_path address)) ≡ false
unfolding put_block write_gz_string with_tmp file_stem before_dot same_string normalize_hex trim_0x
    lower
free = refl

put_block-IsRead_example : IsRead address number (8 ∷ 9 ∷ []) written rewritten
put_block-IsRead_example =
    put_block-IsRead address number (8 ∷ 9 ∷ []) written rewritten free apart rewritten_lem

-- A balance is read back without the zeros in front; an account that is not there has none.
balance_test :
    ((get_balance address number
        (put_balance address_lower number (48 ∷ 120 ∷ 48 ∷ 102 ∷ []) empty).1).0
      ≡ some (some (48 ∷ 120 ∷ 102 ∷ [])))
    × ((get_balance address number empty).0 ≡ some none)
unfolding get_balance put_balance address_block_key decode_hex_padded trim_0x decode_hex_compact
    encode_quantity trim_zeros same_string digit_char hex_digit
balance_test = (refl, refl)
