-- ===== src/Hex/Printed.antt =====
-- What `decode` of evm-common/src/lib.rs makes of a printed sequence of bytes.
use solenoid.Base.{
  ℕ, zero, suc, ◌+◌, ◌-◌, ◌*◌, ◌/◌, ◌%◌, ◌<◌, ◌^◌, ◌≡◌, refl, ap, sym, subst, ◌∙◌, true, false,
  some, List, [], ◌∷◌, ◌++◌, append-nil, length, get_elem?, set, replicate, ltb, leb, ◌==◌, arith,
  if◌then◌else◌,
}
use solenoid.Primitives.Bytes.{be_bytes, length-be_bytes, be_value-be_bytes}
use solenoid.Primitives.Bytes.Bounds.{AreBytes, append-AreBytes}
use solenoid.Hex.{hex_digit, put_digit, digits_loop, prefix_len, decode, value_of, word}

-- The digits in lower case.
unfoldable pub digit_char : ℕ → ℕ
digit_char d = if ltb d 10 then 48 + d else 87 + d

abbrev pub digits : List ℕ → List ℕ
digits [] = []
digits (b ∷ bytes) = digit_char (b / 16) ∷ digit_char (b % 16) ∷ digits bytes

abbrev pub printed : List ℕ → List ℕ
printed bytes = 48 ∷ 120 ∷ digits bytes

pub hex_digit-digit_char : (d : ℕ) → d < 16 → hex_digit (digit_char d) ≡ some d
unfolding hex_digit digit_char
hex_digit-digit_char d h = ground arith

-- The bytes `xs`, last one first, before `ys`.
abbrev onto : List ℕ → List ℕ → List ℕ
onto [] ys = ys
onto (x ∷ xs) ys = onto xs (x ∷ ys)

onto-onto : (xs ys zs : List ℕ) → onto (onto xs ys) zs ≡ onto ys (xs ++ zs)
onto-onto [] ys zs = refl
onto-onto (x ∷ xs) ys zs = onto-onto xs (x ∷ ys) zs

length-onto : (xs ys : List ℕ) → length (onto xs ys) ≡ length xs + length ys
length-onto [] ys = omega arith
length-onto (x ∷ xs) ys = omega (arith, length-onto xs (x ∷ ys))

AreBytes-onto : (xs ys : List ℕ) → AreBytes xs → AreBytes ys → AreBytes (onto xs ys)
AreBytes-onto [] ys hx hy = hy
AreBytes-onto (x ∷ xs) ys hx hy = AreBytes-onto xs (x ∷ ys) hx.1 (hx.0, hy)

abbrev double : ℕ → ℕ
double zero = 0
double (suc n) = suc (suc (double n))

double_lem : (n : ℕ) → double n ≡ 2 * n
double_lem zero = refl
double_lem (suc n) = omega (arith, double_lem n)

length-digits : (bytes : List ℕ) → length (digits bytes) ≡ double (length bytes)
length-digits [] = refl
length-digits (b ∷ bytes) = ap (λ n. suc (suc n)) (length-digits bytes)

-- The digits behind those of `xs`.
get-digits :
    (xs ys : List ℕ) (i : ℕ)
    → get_elem? (digits (onto xs ys)) (double (length xs) + i) ≡ get_elem? (digits ys) i
get-digits [] ys i = ap (get_elem? (digits ys)) (omega arith)
get-digits (x ∷ xs) ys i =
    ap (get_elem? (digits (onto xs (x ∷ ys)))) (omega arith) ∙ get-digits xs (x ∷ ys) (suc (suc i))

set-zeros :
    (n c : ℕ) (v : ℕ) (ys : List ℕ)
    → set (replicate n 0 ++ (c ∷ ys)) n v ≡ replicate n 0 ++ (v ∷ ys)
set-zeros zero c v ys = refl
set-zeros (suc n) c v ys = ap (λ l. 0 ∷ l) (set-zeros n c v ys)

get-zeros : (n c : ℕ) (ys : List ℕ) → get_elem? (replicate n 0 ++ (c ∷ ys)) n ≡ some c
get-zeros zero c ys = refl
get-zeros (suc n) c ys = get-zeros n c ys

zeros_snoc : (n : ℕ) (ys : List ℕ) → replicate (suc n) 0 ++ ys ≡ replicate n 0 ++ (0 ∷ ys)
zeros_snoc zero ys = refl
zeros_snoc (suc n) ys = ap (λ l. 0 ∷ l) (zeros_snoc n ys)

lower :
    (n chr : ℕ) (ys : List ℕ)
    → put_digit true chr (replicate (suc n) 0 ++ ys, suc n)
      ≡ some (replicate n 0 ++ (chr ∷ ys), suc n)
unfolding put_digit
lower n chr ys =
    ap (λ (l : List ℕ). some (l, suc n))
      (ap (λ (l : List ℕ). set l n chr) (zeros_snoc n ys) ∙ set-zeros n 0 chr ys)

upper :
    (n b : ℕ) (ys : List ℕ)
    → b < 256
    → put_digit false (b / 16) (replicate n 0 ++ (b % 16 ∷ ys), suc n)
      ≡ some (replicate n 0 ++ (b ∷ ys), n)
unfolding put_digit
upper n b ys h =
    let joined : (b % 16 + b / 16 * 16 % 256) % 256 ≡ b = omega arith in
    rw (put_digit, get-zeros n (b % 16) ys, joined, set-zeros n (b % 16) b ys) refl

digits_loop_step :
    (chars : List ℕ) (i code chr : ℕ) (done next : List ℕ × ℕ)
    → 2 < suc i
    → get_elem? chars i ≡ some code
    → hex_digit code ≡ some chr
    → put_digit (suc i % 2 == 0) chr done ≡ some next
    → digits_loop chars 2 0 (suc i) done ≡ digits_loop chars 2 0 i next
unfolding digits_loop
digits_loop_step chars i code chr done next far is_code is_digit is_put =
    let behind : leb (suc i) 2 ≡ false = ground arith in
    rw (digits_loop, behind, is_code, is_digit, is_put) refl

-- The loop before the digits of `r` and behind those of `ys`.
digits_loop_lem :
    (r ys : List ℕ)
    → AreBytes r
    → digits_loop
        (printed (onto r ys))
        2
        0
        (suc (suc (double (length r))))
        (replicate (length r) 0 ++ ys, length r)
      ≡ some (onto r ys)
unfolding digits_loop
digits_loop_lem [] ys h = refl
digits_loop_lem (b ∷ r) ys (hb, hr) =
    let n = length r in
    let chars = printed (onto r (b ∷ ys)) in
    let even : (suc (suc (suc (suc (double n)))) % 2 == 0) ≡ true = ground (arith, double_lem n) in
    let odd : (suc (suc (suc (double n))) % 2 == 0) ≡ false = ground (arith, double_lem n) in
    digits_loop_step chars (suc (suc (suc (double n)))) (digit_char (b % 16)) (b % 16)
      (replicate (suc n) 0 ++ ys, suc n) (replicate n 0 ++ (b % 16 ∷ ys), suc n) (omega arith)
      (ap (get_elem? (digits (onto r (b ∷ ys)))) (omega arith) ∙ get-digits r (b ∷ ys) 1)
      (hex_digit-digit_char (b % 16) (omega arith)) (rw (even) (lower n (b % 16) ys))
    ∙ digits_loop_step chars (suc (suc (double n))) (digit_char (b / 16)) (b / 16)
        (replicate n 0 ++ (b % 16 ∷ ys), suc n) (replicate n 0 ++ (b ∷ ys), n) (omega arith)
        (ap (get_elem? (digits (onto r (b ∷ ys)))) (omega arith) ∙ get-digits r (b ∷ ys) 0)
        (hex_digit-digit_char (b / 16) (omega (arith, hb))) (rw (odd) (upper n b ys hb))
    ∙ digits_loop_lem r (b ∷ ys) hr

decode-onto : (r : List ℕ) → AreBytes r → decode (length r) (printed (onto r [])) ≡ some (onto r [])
unfolding decode prefix_len
decode-onto r h =
    let n = length r in
    let chars = printed (onto r []) in
    let long : length chars ≡ suc (suc (double n)) =
      ap (λ (k : ℕ). suc (suc k))
        (length-digits (onto r []) ∙ ap double (omega (arith, length-onto r []))) in
    let fits : ltb (n * 2) (length chars - prefix_len chars) ≡ false =
      ground (arith, long, double_lem n) in
    let even : length chars % 2 ≡ 0 = omega (arith, long, double_lem n) in
    rw (decode, fits) refl
    ∙ ap (λ (p : ℕ). digits_loop chars 2 p (length chars) (replicate n 0, n)) even
    ∙ ap (λ (i : ℕ). digits_loop chars 2 0 i (replicate n 0, n)) long
    ∙ ap (λ (l : List ℕ). digits_loop chars 2 0 (suc (suc (double n))) (l, n))
        (sym (append-nil (replicate n 0)))
    ∙ digits_loop_lem r [] h

-- Bytes printed as `0x` and two digits for each, high half first, are decoded to themselves.
pub decode-printed :
    (bytes : List ℕ) → AreBytes bytes → decode (length bytes) (printed bytes) ≡ some bytes
decode-printed bytes h =
    let r = onto bytes [] in
    let size : length r ≡ length bytes = omega (arith, length-onto bytes []) in
    let back : onto r [] ≡ bytes = onto-onto bytes [] [] ∙ append-nil bytes in
    subst (λ k. decode k (printed bytes) ≡ some bytes) size
      (subst (λ xs. decode (length r) (printed xs) ≡ some xs) back
        (decode-onto r (AreBytes-onto bytes [] h tt)))

pub AreBytes-be_bytes : (n w : ℕ) → AreBytes (be_bytes n w)
unfolding be_bytes
AreBytes-be_bytes zero w = tt
AreBytes-be_bytes (suc n) w =
    append-AreBytes (be_bytes n (w / 256)) ((w % 256) ∷ []) (AreBytes-be_bytes n (w / 256))
      (omega arith, tt)

-- A number below `2 ^ 256`, printed as `0x` and the 64 digits of its 32 bytes, is the word that
-- is read.
pub word-printed : (n : ℕ) → n < 256 ^ 32 → word (printed (be_bytes 32 n)) ≡ some n
unfolding word
word-printed n h =
    let parsed : decode 32 (printed (be_bytes 32 n)) ≡ some (be_bytes 32 n) =
      subst (λ k. decode k (printed (be_bytes 32 n)) ≡ some (be_bytes 32 n)) (length-be_bytes 32 n)
        (decode-printed (be_bytes 32 n) (AreBytes-be_bytes 32 n)) in
    ap value_of parsed ∙ ap some (be_value-be_bytes 32 n h)
