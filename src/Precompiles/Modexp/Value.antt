-- ===== src/Precompiles/Modexp/Value.antt =====
-- What MODEXP of src/precompiles.rs computes.
use solenoid.Base.{
  ℕ, zero, suc, ◌+◌, ◌-◌, ◌%◌, ◌^◌, ◌<◌, ◌≤◌, ◌≡◌, refl, ap, sym, append-nil, ◌∙◌, Bool, true,
  false, Bool-cases, inl, inr, List, [], ◌∷◌, length, length-append, length-take, length-drop,
  length-replicate, drop, ltb, ◌==◌, ◌++◌, take, replicate, arith, if◌then◌else◌,
}
use native.Mathlib.Nat.{mod-lt}
use solenoid.Outcome.{ok}
use solenoid.Base.I64.{two64}
use solenoid.Primitives.Bytes.{
  be_value, be_value_from, be_bytes, length-be_bytes, be_value-be_bytes,
}
use solenoid.Primitives.Bytes.Bounds.{AreBytes, be_value_bound, be_value-zeros}
use solenoid.Precompiles.Interface.{Crates}
use solenoid.Precompiles.Hashes.{part, pad_left, zeros}
use solenoid.Precompiles.Modexp.{
  field_len, base_len, exp_len, mod_len, is_oversized, base_bytes, exp_bytes, mod_bytes, modexp,
}

-- The bytes of a number, on a fixed length.
pub record IsNumber (size value : ℕ) (bytes : List ℕ) : Type 0 where
  pub sized : length bytes ≡ size
  pub valued : be_value bytes ≡ value

length-pad_left : (n : ℕ) (bytes : List ℕ) → length bytes ≤ n → length (pad_left n bytes) ≡ n
length-pad_left n bytes h = omega (
  arith,
  length-append (replicate (n - length bytes) 0) bytes,
  length-replicate {A = ℕ} (n - length bytes) 0,
)

length-part :
    (from till : ℕ) (bytes : List ℕ)
    → from ≤ till
    → till ≤ length bytes
    → length (part from till bytes) ≡ till - from
length-part from till bytes h k =
    omega (arith, length-take (till - from) (drop from bytes), length-drop from bytes)

be_value-none : (bytes : List ℕ) → length bytes ≡ 0 → be_value bytes ≡ 0
unfolding be_value be_value_from
be_value-none [] h = refl
be_value-none (b ∷ bytes) h = absurd (omega (arith, h))

zeros-IsNumber : (n : ℕ) → IsNumber n 0 (zeros n)
unfolding be_value be_value_from
zeros-IsNumber n = record {
  sized = length-replicate n 0;
  valued = ap be_value (sym (append-nil (zeros n))) ∙ be_value-zeros n [];
}

not_less : (a b : ℕ) → b ≤ a → ltb a b ≡ false
not_less a b h = ground arith

not_oversized :
    (input : List ℕ) {b e m : ℕ}
    → base_len input ≡ b
    → exp_len input ≡ e
    → mod_len input ≡ m
    → b ≤ 1024
    → e ≤ 1024
    → m ≤ 1024
    → is_oversized input ≡ false
not_oversized input hb he hm b e m = rw (hb, he, hm) (ground arith)

enough :
    (input : List ℕ) {b e m : ℕ}
    → base_len input ≡ b
    → exp_len input ≡ e
    → mod_len input ≡ m
    → b + e + m + 96 ≤ length input
    → base_len input + exp_len input + mod_len input + 96 ≤ length input
enough input hb he hm h = rw (hb, he, hm) h

past_guards :
    {A : Type 0} (p q r : Bool) (x y z w : A)
    → p ≡ false
    → q ≡ false
    → r ≡ false
    → (if p then x else if q then y else if r then z else w) ≡ w
past_guards p q r x y z w hp hq hr = rw (hp, hq, hr) refl

ok_if : (b : Bool) (x y : List ℕ) → (if b then ok x else ok y) ≡ ok (if b then x else y)
ok_if true x y = refl
ok_if false x y = refl

size_positive : (m size : ℕ) → 0 < m → m < 256 ^ size → 0 < size
size_positive m zero h k = absurd (omega (arith, h, k))
size_positive m (suc size) h k = omega arith

-- The part of a list behind a prefix, and the front of a list.
part-append :
    (p q : List ℕ) (n from till from' till' : ℕ)
    → length p ≡ n
    → from ≡ n + from'
    → till ≡ n + till'
    → part from till (p ++ q) ≡ part from' till' q
part-append [] q n from till from' till' e f g =
    ap (λ k. part k till q) {y = from'} (omega (arith, e, f))
    ∙ ap (λ k. part from' k q) {y = till'} (omega (arith, e, g))
part-append (x ∷ p) q zero from till from' till' e f g = absurd (omega (arith, e))
part-append (x ∷ p) q (suc n) zero till from' till' e f g = absurd (omega (arith, f))
part-append (x ∷ p) q (suc n) (suc from) till from' till' e f g =
    ap (λ k. take k (drop from (p ++ q))) {y = n + till' - from} (omega (arith, f, g))
    ∙ part-append p q n from (n + till') from' till' (omega (arith, e)) (omega (arith, f)) refl

front : (p q : List ℕ) (n : ℕ) → length p ≡ n → part 0 n (p ++ q) ≡ p
front [] q zero e = refl
front [] q (suc n) e = absurd (omega (arith, e))
front (x ∷ p) q zero e = absurd (omega (arith, e))
front (x ∷ p) q (suc n) e =
    ap (λ k. take k (x ∷ (p ++ q))) {y = suc n} (omega arith)
    ∙ ap (λ l. x ∷ l)
        (ap (λ k. take k (p ++ q)) {x = n} {y = n - 0} (omega arith)
          ∙ front p q n (omega (arith, e)))

-- An input: the lengths of the three numbers on 32 bytes each, then the numbers, and more.
abbrev pub encoded : List ℕ → List ℕ → List ℕ → List ℕ → List ℕ
encoded base exponent modulus rest =
    be_bytes 32 (length base)
    ++ (be_bytes 32 (length exponent)
        ++ (be_bytes 32 (length modulus) ++ (base ++ (exponent ++ (modulus ++ rest)))))

field_len_lem : (l : List ℕ) → length l ≤ 1024 → field_len (be_bytes 32 (length l)) ≡ length l
field_len_lem l h =
    let value : be_value (be_bytes 32 (length l)) ≡ length l =
      be_value-be_bytes 32 (length l) (omega (arith, h)) in
    let small : ltb (length l) two64 ≡ true = ground (arith, h) in rw (value, small) refl

module _ (base exponent modulus rest : List ℕ) where
  abbrev input : List ℕ
  input = encoded base exponent modulus rest

  field_base : part 0 32 input ≡ be_bytes 32 (length base)
  field_base = front _ _ 32 (length-be_bytes 32 (length base))

  field_exponent : part 32 64 input ≡ be_bytes 32 (length exponent)
  field_exponent =
      part-append _ _ 32 32 64 0 32 (length-be_bytes 32 (length base)) refl refl
      ∙ front _ _ 32 (length-be_bytes 32 (length exponent))

  field_modulus : part 64 96 input ≡ be_bytes 32 (length modulus)
  field_modulus =
      part-append _ _ 32 64 96 32 64 (length-be_bytes 32 (length base)) refl refl
      ∙ part-append _ _ 32 32 64 0 32 (length-be_bytes 32 (length exponent)) refl refl
      ∙ front _ _ 32 (length-be_bytes 32 (length modulus))

  -- Behind the lengths.
  part-numbers :
      (from till : ℕ)
      → part (96 + from) (96 + till) input
        ≡ part from till (base ++ (exponent ++ (modulus ++ rest)))
  part-numbers from till =
      part-append _ _ 32 (96 + from) (96 + till) (64 + from) (64 + till)
        (length-be_bytes 32 (length base)) (omega arith) (omega arith)
      ∙ part-append _ _ 32 (64 + from) (64 + till) (32 + from) (32 + till)
          (length-be_bytes 32 (length exponent)) (omega arith) (omega arith)
      ∙ part-append _ _ 32 (32 + from) (32 + till) from till (length-be_bytes 32 (length modulus))
          (omega arith) (omega arith)

  -- The three numbers, found by their lengths.
  found_base : (b : ℕ) → b ≡ length base → part 96 (96 + b) input ≡ base
  found_base b e = part-numbers 0 b ∙ front base _ b (sym e)

  found_exponent :
      (b e : ℕ)
      → b ≡ length base
      → e ≡ length exponent
      → part (96 + b) (96 + b + e) input ≡ exponent
  found_exponent b e hb he =
      ap (λ k. part (96 + b) k input) {y = 96 + (b + e)} (omega arith)
      ∙ part-numbers b (b + e)
      ∙ part-append base _ b b (b + e) 0 e (sym hb) (omega arith) (omega arith)
      ∙ front exponent _ e (sym he)

  found_modulus :
      (b e m : ℕ)
      → b ≡ length base
      → e ≡ length exponent
      → m ≡ length modulus
      → part (96 + b + e) (96 + b + e + m) input ≡ modulus
  found_modulus b e m hb he hm =
      ap (λ k. part k (96 + b + e + m) input) {y = 96 + (b + e)} (omega arith)
      ∙ ap (λ k. part (96 + (b + e)) k input) {y = 96 + (b + e + m)} (omega arith)
      ∙ part-numbers (b + e) (b + e + m)
      ∙ part-append base _ b (b + e) (b + e + m) e (e + m) (sym hb) (omega arith) (omega arith)
      ∙ part-append exponent _ e e (e + m) 0 m (sym he) (omega arith) (omega arith)
      ∙ front modulus _ m (sym hm)

  length-encoded : length base + length exponent + length modulus + 96 ≤ length input
  length-encoded = omega (
    arith,
    length-append (be_bytes 32 (length base)) (
        be_bytes 32 (length exponent)
        ++ (be_bytes 32 (length modulus) ++ (base ++ (exponent ++ (modulus ++ rest))))),
    length-append (be_bytes 32 (length exponent))
        (be_bytes 32 (length modulus) ++ (base ++ (exponent ++ (modulus ++ rest)))),
    length-append (be_bytes 32 (length modulus)) (base ++ (exponent ++ (modulus ++ rest))),
    length-append base (exponent ++ (modulus ++ rest)),
    length-append exponent (modulus ++ rest),
    length-append modulus rest,
    length-be_bytes 32 (length base),
    length-be_bytes 32 (length exponent),
    length-be_bytes 32 (length modulus),
  )

  base_len_lem : length base ≤ 1024 → base_len input ≡ length base
  base_len_lem h = ap field_len field_base ∙ field_len_lem base h

  exp_len_lem : length exponent ≤ 1024 → exp_len input ≡ length exponent
  exp_len_lem h = ap field_len field_exponent ∙ field_len_lem exponent h

  mod_len_lem : length modulus ≤ 1024 → mod_len input ≡ length modulus
  mod_len_lem h = ap field_len field_modulus ∙ field_len_lem modulus h

module _ ⦃crates : Crates⦄ where
  padded-IsNumber :
      (n value : ℕ)
      → 0 < n
      → value < 256 ^ n
      → IsNumber n value (pad_left n (crates.to_bytes_be value))
  padded-IsNumber n value positive fits = record {
    sized =
        length-pad_left n (crates.to_bytes_be value)
          (crates.to_bytes_be_size value n positive fits);
    valued =
        be_value-zeros (n - length (crates.to_bytes_be value)) (crates.to_bytes_be value)
        ∙ crates.to_bytes_be_value value;
  }

  -- The last two branches, of the bytes of the three numbers.
  abbrev residue : List ℕ → List ℕ → List ℕ → ℕ → List ℕ
  residue b e m size =
      if be_value m == 0
      then zeros size
      else pad_left size (crates.to_bytes_be (crates.modpow (be_value b) (be_value e) (be_value m)))

  abbrev reduced : List ℕ → List ℕ
  reduced input = residue (base_bytes input) (exp_bytes input) (mod_bytes input) (mod_len input)

  -- The number that MODEXP stands for; 0 for the modulus 0.
  abbrev pub power : List ℕ → List ℕ → List ℕ → ℕ
  power base exponent modulus =
      if be_value modulus == 0 then 0 else (be_value base ^ be_value exponent) % be_value modulus

  modexp_run :
      (input : List ℕ)
      → 96 ≤ length input
      → is_oversized input ≡ false
      → base_len input + exp_len input + mod_len input + 96 ≤ length input
      → modexp input ≡ ok (reduced input)
  unfolding modexp
  modexp_run input h small enough =
      past_guards (ltb (length input) 96) (is_oversized input)
        (ltb (length input) (base_len input + exp_len input + mod_len input + 96)) _ _ _ _
        (not_less (length input) 96 h) small (not_less (length input) _ enough)
      ∙ ok_if (be_value (mod_bytes input) == 0) _ _

  residue-IsNumber :
      (b e m size : ℕ)
      → m < 256 ^ size
      → IsNumber size
          (if m == 0 then 0 else (b ^ e) % m)
          (if m == 0 then zeros size else pad_left size (crates.to_bytes_be (crates.modpow b e m)))
  residue-IsNumber b e m size bound = elim (Bool-cases (m == 0)) [
    | inl z ↦ rw (z) (zeros-IsNumber size)
    | inr z ↦
        let positive : 0 < m = ground arith in
        rw (z, crates.modpow_law b e m positive)
          (padded-IsNumber size ((b ^ e) % m) (size_positive m size positive bound)
            (omega (arith, mod-lt (b ^ e) positive, bound)))
  ]

  reduced-encoded :
      (base exponent modulus rest : List ℕ)
      → length base ≤ 1024
      → length exponent ≤ 1024
      → length modulus ≤ 1024
      → reduced (encoded base exponent modulus rest)
        ≡ residue base exponent modulus (length modulus)
  reduced-encoded base exponent modulus rest hb he hm =
      let input = encoded base exponent modulus rest in
      let b = base_len_lem base exponent modulus rest hb in
      let e = exp_len_lem base exponent modulus rest he in
      let m = mod_len_lem base exponent modulus rest hm in
      ap (λ l. residue l (exp_bytes input) (mod_bytes input) (mod_len input))
        (found_base base exponent modulus rest (base_len input) b)
      ∙ ap (λ l. residue base l (mod_bytes input) (mod_len input))
          (found_exponent base exponent modulus rest (base_len input) (exp_len input) b e)
      ∙ ap (λ l. residue base exponent l (mod_len input))
          (found_modulus base exponent modulus rest (base_len input) (exp_len input) (mod_len input)
            b e m)
      ∙ ap (residue base exponent modulus) m

  -- MODEXP of an input with the three lengths, on 32 bytes each, and then the base, the exponent
  -- and the modulus, none longer than 1024 bytes, returns as many bytes as the modulus has, and they
  -- stand for the base to the exponent modulo the modulus, 0 for the modulus 0.
  pub modexp-IsNumber :
      (base exponent modulus rest : List ℕ)
      → AreBytes modulus
      → length base ≤ 1024
      → length exponent ≤ 1024
      → length modulus ≤ 1024
      → (out : List ℕ) × (modexp (encoded base exponent modulus rest) ≡ ok out)
        × IsNumber (length modulus) (power base exponent modulus) out
  modexp-IsNumber base exponent modulus rest bytes hb he hm =
      let input = encoded base exponent modulus rest in
      let b = base_len_lem base exponent modulus rest hb in
      let e = exp_len_lem base exponent modulus rest he in
      let m = mod_len_lem base exponent modulus rest hm in
      let long = length-encoded base exponent modulus rest in
      (
        residue base exponent modulus (length modulus),
        modexp_run input (omega (arith, long)) (not_oversized input b e m hb he hm)
              (enough input b e m long)
            ∙ ap ok (reduced-encoded base exponent modulus rest hb he hm),
        residue-IsNumber (be_value base) (be_value exponent) (be_value modulus) (length modulus)
            (be_value_bound modulus bytes),
      )
