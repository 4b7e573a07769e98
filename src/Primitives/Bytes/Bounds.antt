-- ===== src/Primitives/Bytes/Bounds.antt =====
-- Byte strings: their numbers and the bounds on them.
use solenoid.Base.{
  Bool, true, false, ltb, ltb→lt, ◌&&◌, ℕ, zero, suc, ◌+◌, ◌*◌, ◌^◌, ◌<◌, ◌≡◌, refl, ap, List, [],
  ◌∷◌, ◌++◌, length, take, drop, replicate, arith,
}
use native.Mathlib.Nat.{add-mul, mul_assoc, pow-suc, pow-succ', mul-le-mul_right}
use solenoid.Primitives.Bytes.{be_value, be_value_from}

-- Every number is a byte.
abbrev pub AreBytes : List ℕ → Type 0
AreBytes [] = Unit {0}
AreBytes (b ∷ bytes) = (b < 256) × AreBytes bytes

pub take-AreBytes : (n : ℕ) (bytes : List ℕ) → AreBytes bytes → AreBytes (take n bytes)
take-AreBytes zero bytes h = tt
take-AreBytes (suc n) [] h = tt
take-AreBytes (suc n) (b ∷ bytes) h = (h.0, take-AreBytes n bytes h.1)

pub append-AreBytes : (xs ys : List ℕ) → AreBytes xs → AreBytes ys → AreBytes (xs ++ ys)
append-AreBytes [] ys hx hy = hy
append-AreBytes (x ∷ xs) ys hx hy = (hx.0, append-AreBytes xs ys hx.1 hy)

pub drop-AreBytes : (n : ℕ) (bytes : List ℕ) → AreBytes bytes → AreBytes (drop n bytes)
drop-AreBytes zero bytes h = h
drop-AreBytes (suc n) [] h = tt
drop-AreBytes (suc n) (b ∷ bytes) h = drop-AreBytes n bytes h.1

be_value_from_split :
    (acc : ℕ) (bytes : List ℕ) → be_value_from acc bytes ≡ acc * 256 ^ length bytes + be_value bytes
unfolding be_value be_value_from
be_value_from_split acc [] = omega arith
be_value_from_split acc (b ∷ bytes) = omega (
  arith,
  be_value_from_split (acc * 256 + b) bytes,
  be_value_from_split (0 * 256 + b) bytes,
  add-mul (acc * 256) b (256 ^ length bytes),
  add-mul (0 * 256) b (256 ^ length bytes),
  mul_assoc acc 256 (256 ^ length bytes),
  ap (λ (p : ℕ). acc * p) (pow-succ' 256 (length bytes)),
)

-- The first byte counts for the most.
pub be_value-cons :
    (b : ℕ) (bytes : List ℕ) → be_value (b ∷ bytes) ≡ b * 256 ^ length bytes + be_value bytes
unfolding be_value be_value_from
be_value-cons b bytes =
    omega (arith, be_value_from_split (0 * 256 + b) bytes, add-mul (0 * 256) b (256 ^ length bytes))

pub be_value_bound : (bytes : List ℕ) → AreBytes bytes → be_value bytes < 256 ^ length bytes
unfolding be_value be_value_from
be_value_bound [] h = omega arith
be_value_bound (b ∷ bytes) h = omega (
  arith,
  be_value-cons b bytes,
  be_value_bound bytes h.1,
  pow-suc 256 (length bytes),
  mul-le-mul_right {m = b + 1} {n = 256} (256 ^ length bytes) (omega (arith, h.0)),
)

pub be_value-zeros : (n : ℕ) (bytes : List ℕ) → be_value (replicate n 0 ++ bytes) ≡ be_value bytes
unfolding be_value be_value_from
be_value-zeros zero bytes = refl
be_value-zeros (suc n) bytes = be_value-zeros n bytes

-- The test for `AreBytes`.
abbrev pub are_bytes : List ℕ → Bool
are_bytes [] = true
are_bytes (b ∷ bytes) = ltb b 256 && are_bytes bytes

both : (p q : Bool) → (p && q) ≡ true → (p ≡ true) × (q ≡ true)
both true true h = (refl, refl)
both true false h = absurd (cc)
both false q h = absurd (cc)

pub are_bytes-AreBytes : (bytes : List ℕ) → are_bytes bytes ≡ true → AreBytes bytes
are_bytes-AreBytes [] h = tt
are_bytes-AreBytes (b ∷ bytes) h =
    let parts = both (ltb b 256) (are_bytes bytes) h in
    (ltb→lt b 256 parts.0, are_bytes-AreBytes bytes parts.1)
