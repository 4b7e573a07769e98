-- ===== src/Base/I64.antt =====
-- Rust's `i64`, as the integers that fit 64 bits, with the wrap-around of release builds.
use solenoid.Base.{ℕ, ◌+◌, ◌-◌, ◌/◌, ◌%◌, ◌^◌, ◌≡◌, refl, arith, ltb, if◌then◌else◌}
use solenoid.Base.Int.{ℤ, pos, negsuc, ◌+ℤ◌, ◌-ℤ◌, ◌*ℤ◌, ◌≤ℤ◌}

abbrev pub two64 : ℕ
two64 = 2 ^ 64

-- `x as u64` of a signed number: its residue.
unfoldable pub as_u64 : ℤ → ℕ
as_u64 (pos n) = n % two64
as_u64 (negsuc n) = two64 - 1 - n % two64

-- `x as i64` of a `u64` or `usize`.
unfoldable pub as_i64 : ℕ → ℤ
as_i64 w = if ltb w (2 ^ 63) then pos w else negsuc (two64 - 1 - w)

unfoldable pub wrap_i64 : ℤ → ℤ
unfolding as_u64 as_i64
wrap_i64 z = as_i64 (as_u64 z)

abbrev pub i64_min : ℤ
i64_min = negsuc (2 ^ 63 - 1)

abbrev pub i64_max : ℤ
i64_max = pos (2 ^ 63 - 1)

-- The number fits an `i64`.
abbrev pub IsI64 : ℤ → Type 0
IsI64 z = (i64_min ≤ℤ z) × (z ≤ℤ i64_max)

unfoldable pub add_i64 : ℤ → ℤ → ℤ
add_i64 a b = wrap_i64 (a +ℤ b)

unfoldable pub sub_i64 : ℤ → ℤ → ℤ
sub_i64 a b = wrap_i64 (a -ℤ b)

unfoldable pub mul_i64 : ℤ → ℤ → ℤ
mul_i64 a b = wrap_i64 (a *ℤ b)

-- `x / d` of an `i64` by a positive constant: rounded towards zero.
unfoldable pub div_i64 : ℤ → ℕ → ℤ
div_i64 (pos n) d = pos (n / d)
div_i64 (negsuc n) d = pos 0 -ℤ pos ((n + 1) / d)

-- `usize` addition and subtraction wrap too.
unfoldable pub add_usize : ℕ → ℕ → ℕ
add_usize a b = (a + b) % two64

unfoldable pub sub_usize : ℕ → ℕ → ℕ
sub_usize a b = (a + two64 - b) % two64

unfoldable pub div_ceil : ℕ → ℕ → ℕ
div_ceil a b = (a + b - 1) / b

pub wrap_i64_self : (z : ℤ) → IsI64 z → wrap_i64 z ≡ z
unfolding wrap_i64
wrap_i64_self z h = ground arith

pub wrap_i64-IsI64 : (z : ℤ) → IsI64 (wrap_i64 z)
unfolding wrap_i64
wrap_i64-IsI64 z = ground arith

pub add_i64_exact : (a b : ℤ) → IsI64 (a +ℤ b) → add_i64 a b ≡ a +ℤ b
unfolding add_i64
add_i64_exact a b h = wrap_i64_self (a +ℤ b) h

pub sub_i64_exact : (a b : ℤ) → IsI64 (a -ℤ b) → sub_i64 a b ≡ a -ℤ b
unfolding sub_i64
sub_i64_exact a b h = wrap_i64_self (a -ℤ b) h

wrap_runs : wrap_i64 (pos (2 ^ 63)) ≡ i64_min
unfolding wrap_i64
wrap_runs = refl
