-- ===== src/Address/Payload.antt =====
-- The RLP list that `Address::create` of evm-common/src/address.rs hashes can be read back.
use solenoid.Base.{
  ℕ, zero, suc, ◌+◌, ◌^◌, ◌<◌, ◌≡◌, refl, ap, ◌∙◌, true, Bool-cases, inl, inr, Option, none, some,
  List, [], ◌∷◌, ◌++◌, length, length-append, take, drop, ltb, ◌==◌, ◌&&◌, arith, if◌then◌else◌,
}
use solenoid.Primitives.Bytes.{
  be_value, be_value_from, be_bytes, length-be_bytes, be_value-be_bytes,
}
use solenoid.Address.{skip_zeros, nonce_encoding_len, nonce_encoding, creation_payload}

-- A string of at most 55 bytes, by the definition of RLP: a byte below 0x80 stands for itself;
-- otherwise the first byte says how many follow.
abbrev pub parse_string : List ℕ → Option (List ℕ)
parse_string [] = none
parse_string (x ∷ rest) =
    if ltb x 0x80
    then if length rest == 0 then some (x ∷ []) else none
    else if x == 0x80 + length rest
    then some rest
    else none

abbrev number_of : Option (List ℕ) → Option ℕ
number_of none = none
number_of (some bytes) = some (be_value bytes)

-- A list of an address and a number: the first byte says how many follow.
abbrev pub parse : List ℕ → Option (ℕ × ℕ)
parse [] = none
parse (p ∷ []) = none
parse (p ∷ q ∷ rest) =
    if p == 0xc1 + length rest && q == 0x94
    then elim (number_of (parse_string (drop 20 rest))) [
      | none ↦ none
      | some nonce ↦ some (be_value (take 20 rest), nonce)
    ]
    else none

take_append : (n : ℕ) (xs ys : List ℕ) → length xs ≡ n → take n (xs ++ ys) ≡ xs
take_append zero [] ys e = refl
take_append zero (x ∷ xs) ys e = absurd (omega (arith, e))
take_append (suc n) [] ys e = absurd (omega (arith, e))
take_append (suc n) (x ∷ xs) ys e = ap (λ l. x ∷ l) (take_append n xs ys (omega (arith, e)))

drop_append : (n : ℕ) (xs ys : List ℕ) → length xs ≡ n → drop n (xs ++ ys) ≡ ys
drop_append zero [] ys e = refl
drop_append zero (x ∷ xs) ys e = absurd (omega (arith, e))
drop_append (suc n) [] ys e = absurd (omega (arith, e))
drop_append (suc n) (x ∷ xs) ys e = drop_append n xs ys (omega (arith, e))

pub be_value-skip_zeros : (bytes : List ℕ) → be_value (skip_zeros bytes) ≡ be_value bytes
unfolding skip_zeros be_value be_value_from
be_value-skip_zeros [] = refl
be_value-skip_zeros (b ∷ bytes) = elim (Bool-cases (b == 0)) [
  | inl h ↦
      let zero_byte : b ≡ 0 = ground arith in
      rw (skip_zeros, h) (be_value-skip_zeros bytes ∙ rw (zero_byte) refl)
  | inr h ↦ rw (skip_zeros, h) refl
]

length-nonce_encoding : (bytes : List ℕ) → length (nonce_encoding bytes) ≡ nonce_encoding_len bytes
unfolding nonce_encoding nonce_encoding_len
length-nonce_encoding bytes = ground arith

parse_string-nonce_encoding : (bytes : List ℕ) → parse_string (nonce_encoding bytes) ≡ some bytes
unfolding nonce_encoding
parse_string-nonce_encoding [] = refl
parse_string-nonce_encoding (b ∷ []) = ground arith
parse_string-nonce_encoding (b ∷ c ∷ bytes) = ground arith

-- Reading a list with a right length.
parse_parts :
    (head tail : List ℕ) (n : ℕ) (bytes : List ℕ)
    → length head ≡ 20
    → n ≡ 0xc1 + length (head ++ tail)
    → parse_string tail ≡ some bytes
    → parse (n ∷ 0x94 ∷ (head ++ tail)) ≡ some (be_value head, be_value bytes)
parse_parts head tail n bytes size first rest =
    let same : (n == 0xc1 + length (head ++ tail)) ≡ true = ground arith in
    rw (same, drop_append 20 head tail size, rest, take_append 20 head tail size) refl

payload_parts :
    (head bytes : List ℕ)
    → length head ≡ 20
    → parse ((0xc0 + (21 + nonce_encoding_len bytes)) ∷ 0x94 ∷ (head ++ nonce_encoding bytes))
      ≡ some (be_value head, be_value bytes)
payload_parts head bytes size =
    parse_parts head (nonce_encoding bytes) (0xc0 + (21 + nonce_encoding_len bytes)) bytes size
      (omega (arith, size, length-append head (nonce_encoding bytes), length-nonce_encoding bytes))
      (parse_string-nonce_encoding bytes)

-- From the list that Address::create hashes for an address of 20 bytes and a nonce of 256 bits, the
-- address and the nonce can be read back.
pub parse-creation_payload :
    (a nonce : ℕ)
    → a < 2 ^ 160
    → nonce < 2 ^ 256
    → parse (creation_payload a (skip_zeros (be_bytes 32 nonce))) ≡ some (a, nonce)
unfolding creation_payload
parse-creation_payload a nonce ha hn =
    payload_parts (be_bytes 20 a) (skip_zeros (be_bytes 32 nonce)) (length-be_bytes 20 a)
    ∙ rw
        (
          be_value-be_bytes 20 a (omega (arith, ha)),
          be_value-skip_zeros (be_bytes 32 nonce),
          be_value-be_bytes 32 nonce (omega (arith, hn)),
        )
        refl
