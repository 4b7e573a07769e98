-- ===== src/Precompiles/Blake.antt =====
-- src/precompiles.rs: the compression function of BLAKE2b. A `u64` stands as its value.
pub mod Sizes
use solenoid.Base.{
  ℕ, zero, suc, ◌+◌, ◌-◌, ◌*◌, ◌/◌, ◌%◌, ◌^◌, Bool, List, [], ◌∷◌, ◌++◌, length, set, get_or,
  bit_xor, ltb, ◌==◌, not, if◌then◌else◌,
}
use solenoid.Base.I64.{two64}
use solenoid.Primitives.Bytes.{be_value}
use solenoid.Outcome.{Outcome, ok, err, precompile_failed}
use solenoid.Precompiles.Hashes.{part}

abbrev pub iv : List ℕ
iv =
    0x6a09e667f3bcc908 ∷ 0xbb67ae8584caa73b ∷ 0x3c6ef372fe94f82b ∷ 0xa54ff53a5f1d36f1
    ∷ 0x510e527fade682d1 ∷ 0x9b05688c2b3e6c1f ∷ 0x1f83d9abfb41bd6b ∷ 0x5be0cd19137e2179 ∷ []

-- The rows of `SIGMA`; the last two repeat the first two.
abbrev row0 : List ℕ
row0 = 0 ∷ 1 ∷ 2 ∷ 3 ∷ 4 ∷ 5 ∷ 6 ∷ 7 ∷ 8 ∷ 9 ∷ 10 ∷ 11 ∷ 12 ∷ 13 ∷ 14 ∷ 15 ∷ []

abbrev row1 : List ℕ
row1 = 14 ∷ 10 ∷ 4 ∷ 8 ∷ 9 ∷ 15 ∷ 13 ∷ 6 ∷ 1 ∷ 12 ∷ 0 ∷ 2 ∷ 11 ∷ 7 ∷ 5 ∷ 3 ∷ []

sigma : List (List ℕ)
sigma =
    row0
    ∷ row1
    ∷ (11 ∷ 8 ∷ 12 ∷ 0 ∷ 5 ∷ 2 ∷ 15 ∷ 13 ∷ 10 ∷ 14 ∷ 3 ∷ 6 ∷ 7 ∷ 1 ∷ 9 ∷ 4 ∷ [])
    ∷ (7 ∷ 9 ∷ 3 ∷ 1 ∷ 13 ∷ 12 ∷ 11 ∷ 14 ∷ 2 ∷ 6 ∷ 5 ∷ 10 ∷ 4 ∷ 0 ∷ 15 ∷ 8 ∷ [])
    ∷ (9 ∷ 0 ∷ 5 ∷ 7 ∷ 2 ∷ 4 ∷ 10 ∷ 15 ∷ 14 ∷ 1 ∷ 11 ∷ 12 ∷ 6 ∷ 8 ∷ 3 ∷ 13 ∷ [])
    ∷ (2 ∷ 12 ∷ 6 ∷ 10 ∷ 0 ∷ 11 ∷ 8 ∷ 3 ∷ 4 ∷ 13 ∷ 7 ∷ 5 ∷ 15 ∷ 14 ∷ 1 ∷ 9 ∷ [])
    ∷ (12 ∷ 5 ∷ 1 ∷ 15 ∷ 14 ∷ 13 ∷ 4 ∷ 10 ∷ 0 ∷ 7 ∷ 6 ∷ 3 ∷ 9 ∷ 2 ∷ 8 ∷ 11 ∷ [])
    ∷ (13 ∷ 11 ∷ 7 ∷ 14 ∷ 12 ∷ 1 ∷ 3 ∷ 9 ∷ 5 ∷ 0 ∷ 15 ∷ 4 ∷ 8 ∷ 6 ∷ 2 ∷ 10 ∷ [])
    ∷ (6 ∷ 15 ∷ 14 ∷ 9 ∷ 11 ∷ 3 ∷ 0 ∷ 8 ∷ 12 ∷ 2 ∷ 13 ∷ 7 ∷ 1 ∷ 4 ∷ 10 ∷ 5 ∷ [])
    ∷ (10 ∷ 2 ∷ 8 ∷ 4 ∷ 7 ∷ 6 ∷ 1 ∷ 5 ∷ 15 ∷ 11 ∷ 9 ∷ 14 ∷ 3 ∷ 12 ∷ 13 ∷ 0 ∷ [])
    ∷ row0
    ∷ row1
    ∷ []

-- `rotate_right` of 64 bits.
unfoldable pub rotate_right : ℕ → ℕ → ℕ
rotate_right x k = x / 2 ^ k + (x % 2 ^ k) * 2 ^ (64 - k)

abbrev wrapping_add : ℕ → ℕ → ℕ
wrapping_add a b = (a + b) % two64

abbrev at : List ℕ → ℕ → ℕ
at v i = get_or v i 0

-- Half of `mix`: `v[a] += v[b] + x`, and the rotations by `p` and by `q`.
unfoldable pub half_mix : ℕ → ℕ → ℕ → ℕ → ℕ → ℕ → ℕ → List ℕ → List ℕ
unfolding rotate_right
half_mix a b c d x p q v =
    let va = wrapping_add (wrapping_add (at v a) (at v b)) x in
    let vd = rotate_right (bit_xor (at v d) va) p in
    let vc = wrapping_add (at v c) vd in
    let vb = rotate_right (bit_xor (at v b) vc) q in set (set (set (set v a va) d vd) c vc) b vb

unfoldable pub mix : ℕ → ℕ → ℕ → ℕ → ℕ → ℕ → List ℕ → List ℕ
unfolding half_mix
mix a b c d x y v = half_mix a b c d y 16 63 (half_mix a b c d x 32 24 v)

unfoldable pub blake_round : List ℕ → List ℕ → List ℕ → List ℕ
unfolding mix
blake_round m s v =
    let word = λ (i : ℕ). at m (at s i) in
    mix 3 4 9 14 (word 14) (word 15) (
      mix 2 7 8 13 (word 12) (word 13) (
        mix 1 6 11 12 (word 10) (word 11) (
          mix 0 5 10 15 (word 8) (word 9) (
            mix 3 7 11 15 (word 6) (word 7) (
              mix 2 6 10 14 (word 4) (word 5)
                (mix 1 5 9 13 (word 2) (word 3) (mix 0 4 8 12 (word 0) (word 1) v)))))))

-- The rounds that are left, from round `i` on.
unfoldable pub blake_rounds : ℕ → ℕ → List ℕ → List ℕ → List ℕ
unfolding blake_round sigma
blake_rounds zero i m v = v
blake_rounds (suc n) i m v = blake_rounds n (i + 1) m (blake_round m (get_or sigma (i % 12) []) v)

-- `h[i] ^= v[i] ^ v[i + 8]`
unfoldable pub fold_state : List ℕ → List ℕ → ℕ → List ℕ
fold_state v [] i = []
fold_state v (h ∷ hs) i = bit_xor h (bit_xor (at v i) (at v (i + 8))) ∷ fold_state v hs (i + 1)

unfoldable pub blake2f_compression : List ℕ → List ℕ → ℕ → ℕ → Bool → ℕ → List ℕ
unfolding blake_rounds fold_state
blake2f_compression h m t0 t1 f rounds =
    let v = h ++ iv in
    let v' = set (set v 12 (bit_xor (at v 12) t0)) 13 (bit_xor (at v 13) t1) in
    let v'' = if f then set v' 14 (two64 - 1 - at v' 14) else v' in
    fold_state (blake_rounds rounds 0 m v'') h 0

-- `u64::from_le_bytes`, and `n` of them.
abbrev pub le_value : List ℕ → ℕ
le_value [] = 0
le_value (b ∷ bs) = b + 256 * le_value bs

unfoldable pub words_from : ℕ → ℕ → List ℕ → List ℕ
words_from zero start input = []
words_from (suc n) start input =
    le_value (part start (start + 8) input) ∷ words_from n (start + 8) input

abbrev pub le_bytes : ℕ → ℕ → List ℕ
le_bytes zero w = []
le_bytes (suc n) w = (w % 256) ∷ le_bytes n (w / 256)

unfoldable pub words_bytes : List ℕ → List ℕ
words_bytes [] = []
words_bytes (w ∷ ws) = le_bytes 8 w ++ words_bytes ws

unfoldable pub blake2f : List ℕ → Outcome (List ℕ)
unfolding blake2f_compression words_from words_bytes
blake2f input =
    if not (length input == 213)
    then err precompile_failed
    else ok (
        words_bytes (
          blake2f_compression (words_from 8 4 input) (words_from 16 68 input)
            (le_value (part 196 204 input)) (le_value (part 204 212 input))
            (not (get_or input 212 0 == 0)) (be_value (part 0 4 input))))

unfoldable pub blake2f_gas_cost : List ℕ → ℕ
blake2f_gas_cost input = if ltb (length input) 4 then 0 else be_value (part 0 4 input)
