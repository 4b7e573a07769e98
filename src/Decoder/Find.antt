-- ===== src/Decoder/Find.antt =====
-- Looking up and extending the jump table and the list of instructions.
use mathlib.Core.Option
use solenoid.Base.{
  ℕ, zero, suc, ◌<◌, ◌≡◌, refl, Option, none, some, List, [], ◌∷◌, ◌++◌, arith, length, get_elem?,
  ◌==◌, if◌then◌else◌,
}
use solenoid.Decoder.{Bytecode, binary_search_by_key, resolve_jump}

-- The value of the first entry with this key.
unfoldable pub find : ℕ → List (ℕ × ℕ) → Option ℕ
find key [] = none
find key ((k, v) ∷ table) = if k == key then some v else find key table

-- Reading the table at the index that the search gives.
search-eq-find :
    (key : ℕ) (table : List (ℕ × ℕ))
    → (elim (binary_search_by_key key table) [
      | none ↦ none
      | some index ↦ Option.map (λ (e : ℕ × ℕ). e.1) (get_elem? table index)
    ])
      ≡ find key table
unfolding binary_search_by_key find
search-eq-find key [] = refl
search-eq-find key ((k, v) ∷ table) = ground (arith, search-eq-find key table)

pub resolve_jump-eq-find :
    (code : Bytecode) (offset : ℕ)
    → resolve_jump code offset ≡ (if offset == 0 then some 0 else find offset code.jumptable)
unfolding resolve_jump
resolve_jump-eq-find code offset = ground (arith, search-eq-find offset code.jumptable)

pub find-append :
    (key k v : ℕ) (table : List (ℕ × ℕ))
    → find key (table ++ (k, v) ∷ [])
      ≡ elim (find key table) [ some w ↦ some w | none ↦ if k == key then some v else none ]
unfolding find
find-append key k v [] = ground arith
find-append key k v ((j, w) ∷ table) = ground (arith, find-append key k v table)

pub get_elem?-append_one {ℓ} :
    {A : Type ℓ} (xs : List A) (x : A) (i : ℕ)
    → get_elem? (xs ++ x ∷ []) i ≡ (if i == length xs then some x else get_elem? xs i)
get_elem?-append_one [] x zero = refl
get_elem?-append_one [] x (suc i) = ground arith
get_elem?-append_one (y ∷ xs) x zero = ground arith
get_elem?-append_one (y ∷ xs) x (suc i) = ground (arith, get_elem?-append_one xs x i)

pub get_elem?-lt {ℓ} :
    {A : Type ℓ} (xs : List A) (i : ℕ) {x : A} → get_elem? xs i ≡ some x → i < length xs
get_elem?-lt [] i h = cc
get_elem?-lt (y ∷ xs) zero h = omega arith
get_elem?-lt (y ∷ xs) (suc i) h = omega (arith, get_elem?-lt xs i h)
