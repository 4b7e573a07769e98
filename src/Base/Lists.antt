-- ===== src/Base/Lists.antt =====
-- Lists measured and indexed by native numbers, and the `Vec` and slice operations of the source.
use Prim.Native.Nat.{ℕ, zero, suc, ◌+◌, ◌-◌, ◌≤◌, min}
use mathlib.Core.Path.{◌≡◌, refl, ap}
use mathlib.Core.Bool.{◌&&◌}
use mathlib.Core.List.{List, [], ◌∷◌, ◌++◌}
use mathlib.Core.Option.{Option, none, some}
use native.Mathlib.Omega.{arith}
use solenoid.Base.Tests.{leb, ◌==◌, if◌then◌else◌}

module _ {ℓ} {A : Type ℓ} where
  abbrev pub length : List A → ℕ
  length [] = 0
  length (x ∷ xs) = suc (length xs)

  abbrev pub get_elem? : List A → ℕ → Option A
  get_elem? [] i = none
  get_elem? (x ∷ xs) zero = some x
  get_elem? (x ∷ xs) (suc i) = get_elem? xs i

  abbrev pub get_or : List A → ℕ → A → A
  get_or [] i d = d
  get_or (x ∷ xs) zero d = x
  get_or (x ∷ xs) (suc i) d = get_or xs i d

  -- A write out of bounds changes nothing.
  abbrev pub set : List A → ℕ → A → List A
  set [] i v = []
  set (x ∷ xs) zero v = v ∷ xs
  set (x ∷ xs) (suc i) v = x ∷ set xs i v

  abbrev pub take : ℕ → List A → List A
  take zero xs = []
  take (suc n) [] = []
  take (suc n) (x ∷ xs) = x ∷ take n xs

  abbrev pub drop : ℕ → List A → List A
  drop zero xs = xs
  drop (suc n) [] = []
  drop (suc n) (x ∷ xs) = drop n xs

  abbrev pub replicate : ℕ → A → List A
  replicate zero a = []
  replicate (suc n) a = a ∷ replicate n a

module _ {ℓ} {A : Type ℓ} where
  pub length-append : (xs ys : List A) → length (xs ++ ys) ≡ length xs + length ys
  length-append [] ys = omega arith
  length-append (x ∷ xs) ys = omega (arith, length-append xs ys)

  pub length-take : (n : ℕ) (xs : List A) → length (take n xs) ≡ min n (length xs)
  length-take zero xs = omega arith
  length-take (suc n) [] = omega arith
  length-take (suc n) (x ∷ xs) = omega (arith, length-take n xs)

  pub length-drop : (n : ℕ) (xs : List A) → length (drop n xs) ≡ length xs - n
  length-drop zero xs = omega arith
  length-drop (suc n) [] = omega arith
  length-drop (suc n) (x ∷ xs) = omega (arith, length-drop n xs)

  pub length-replicate : (n : ℕ) (a : A) → length (replicate n a) ≡ n
  length-replicate zero a = refl
  length-replicate (suc n) a = ap suc (length-replicate n a)

  pub length-set : (xs : List A) (i : ℕ) (v : A) → length (set xs i v) ≡ length xs
  length-set [] i v = refl
  length-set (x ∷ xs) zero v = refl
  length-set (x ∷ xs) (suc i) v = ap suc (length-set xs i v)

-- `v.resize(n, x)` of a `Vec`: cut, or filled up with `x`.
unfoldable pub resize {ℓ} : {A : Type ℓ} → ℕ → A → List A → List A
resize n x xs = take n xs ++ replicate (n - length xs) x

-- `v[from..till]`; `none` is the panic of a range that does not fit.
unfoldable pub slice {ℓ} : {A : Type ℓ} → ℕ → ℕ → List A → Option (List A)
slice from till xs =
    if leb from till && leb till (length xs) then some (take (till - from) (drop from xs)) else none

-- `v[from..till].copy_from_slice(part)`; `none` is the panic of a range that does not fit, or of
-- another length.
unfoldable pub copy_into {ℓ} : {A : Type ℓ} → ℕ → ℕ → List A → List A → Option (List A)
copy_into from till part xs =
    if leb from till && leb till (length xs) && till - from == length part
    then some (take from xs ++ (part ++ drop till xs))
    else none

pub length-resize {ℓ} : {A : Type ℓ} (n : ℕ) (x : A) (xs : List A) → length (resize n x xs) ≡ n
unfolding resize
length-resize n x xs = omega (
  arith,
  length-append (take n xs) (replicate (n - length xs) x),
  length-take n xs,
  length-replicate (n - length xs) x,
)

pub length-slice {ℓ} :
    {A : Type ℓ} (from till : ℕ) (xs ys : List A)
    → slice from till xs ≡ some ys
    → length ys ≡ till - from
unfolding slice
length-slice from till xs ys h =
    ground (arith, length-take (till - from) (drop from xs), length-drop from xs)

length_spliced {ℓ} :
    {A : Type ℓ} (from till : ℕ) (part xs : List A)
    → from ≤ till
    → till ≤ length xs
    → till - from ≡ length part
    → length (take from xs ++ (part ++ drop till xs)) ≡ length xs
length_spliced from till part xs h k e = omega (
  arith,
  length-append (take from xs) (part ++ drop till xs),
  length-append part (drop till xs),
  length-take from xs,
  length-drop till xs,
)

pub length-copy_into {ℓ} :
    {A : Type ℓ} (from till : ℕ) (part xs ys : List A)
    → copy_into from till part xs ≡ some ys
    → length ys ≡ length xs
unfolding copy_into
length-copy_into from till part xs ys h = ground (arith, length_spliced from till part xs)
