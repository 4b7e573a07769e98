-- ===== src/Maps.antt =====
-- `HashMap` and `HashSet` as functions from their keys. The program never depends on the order of
-- a map's entries.
use solenoid.Base.{ℕ, Bool, true, false, Option, none, some, ◌==◌, ◌&&◌, if◌then◌else◌}

abbrev pub Map {ℓ} : Type ℓ → Type ℓ
Map V = ℕ → Option V

abbrev pub empty_map {ℓ} : {V : Type ℓ} → Map V
empty_map k = none

abbrev pub insert {ℓ} : {V : Type ℓ} → ℕ → V → Map V → Map V
insert k v m j = if j == k then some v else m j

abbrev pub remove {ℓ} : {V : Type ℓ} → ℕ → Map V → Map V
remove k m j = if j == k then none else m j

-- A map whose keys are pairs of an address and a word.
abbrev pub PairMap {ℓ} : Type ℓ → Type ℓ
PairMap V = ℕ → ℕ → Option V

abbrev pub insert_pair {ℓ} : {V : Type ℓ} → ℕ → ℕ → V → PairMap V → PairMap V
insert_pair a k v m b j = if b == a && j == k then some v else m b j

-- `entry(..).or_insert(v)`
abbrev pub or_insert_pair {ℓ} : {V : Type ℓ} → ℕ → ℕ → V → PairMap V → PairMap V
or_insert_pair a k v m = elim (m a k) [ none ↦ insert_pair a k v m | some _ ↦ m ]

abbrev pub Set : Type 0
Set = ℕ → Bool

abbrev pub add : ℕ → Set → Set
add k s j = if j == k then true else s j

abbrev pub del : ℕ → Set → Set
del k s j = if j == k then false else s j

abbrev pub PairSet : Type 0
PairSet = ℕ → ℕ → Bool

abbrev pub add_pair : ℕ → ℕ → PairSet → PairSet
add_pair a k s b j = if b == a && j == k then true else s b j

abbrev pub del_pair : ℕ → ℕ → PairSet → PairSet
del_pair a k s b j = if b == a && j == k then false else s b j

-- `unwrap_or_default()` of a number
abbrev pub or_zero : Option ℕ → ℕ
or_zero none = 0
or_zero (some v) = v
