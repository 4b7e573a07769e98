-- ===== src/Instr/Block.antt =====
-- Opcodes 0x40 to 0x4a: the block. `blob_gas_price` is that of evm-common/src/block.rs.
pub mod Exponential
use solenoid.Base.{
  ℕ, zero, suc, ◌+◌, ◌-◌, ◌*◌, ◌/◌, ◌%◌, ◌^◌, min, ltb, leb, Option, none, some, if◌then◌else◌,
}
use mathlib.Core.Option
use solenoid.Base.Int.{pos}
use solenoid.Primitives.{Primitives}
use solenoid.Word.{Word, zero_word, one_word, is_zero, as_u64}
use solenoid.Types.{Header, AccountTouch, word_of_address}
use solenoid.Ext.{balance}
use solenoid.Ext.Slot.{get_block_hash}
use solenoid.Machine.{
  Handler, ◌>>=◌, ◌>>◌, pure, gets, unwrap, on_ext, touch, pop, push, need_gas, next,
}
use solenoid.Instr.Frame.{Frame, this_address}

abbrev pub two128 : ℕ
two128 = 2 ^ 128

-- `u128::saturating_mul`
abbrev pub saturating_mul : ℕ → ℕ → ℕ
saturating_mul a b = min (a * b) (two128 - 1)

-- The loop of `fake_exponential` with fuel; `none` is out of fuel. `u128` additions wrap.
unfoldable pub exponential_loop : ℕ → ℕ → ℕ → ℕ → ℕ → ℕ → Option ℕ
exponential_loop zero factor denominator output numerator i = none
exponential_loop (suc fuel) factor denominator output numerator i =
    let rest =
      exponential_loop fuel factor denominator ((output + numerator) % two128)
        (saturating_mul numerator factor / saturating_mul denominator i) ((i + 1) % two128) in
    if ltb 0 numerator then rest else some output

-- Rounds that are enough: `numerator` halves from round 2 * factor / denominator on.
abbrev pub exponential_fuel : ℕ → ℕ → ℕ
exponential_fuel factor denominator = 2 * (factor / denominator) + 132

unfoldable pub fake_exponential : ℕ → ℕ → Option Word
unfolding exponential_loop
fake_exponential factor denominator =
    Option.map (λ (output : ℕ). output / denominator)
      (exponential_loop (exponential_fuel factor denominator) factor denominator 0 denominator 1)

abbrev pub update_fraction : ℕ
update_fraction = 3338477

module _ ⦃prim : Primitives⦄ where
  unfoldable pub blob_gas_price : Header → Option Word
  unfolding fake_exponential
  blob_gas_price h =
      if is_zero h.excess_blob_gas
      then some one_word
      else Option.bind (as_u64 h.excess_blob_gas)
          (λ excess. fake_exponential excess update_fraction)

module _ ⦃prim : Primitives⦄ (f : Frame) where
  unfoldable pub blockhash : Handler
  blockhash = need_gas (pos 20) do
    block ← pop
    current ← gets (λ s. s.exec.header.number)
    hash ←
        (if leb current block then pure zero_word else (do
          age ← unwrap (prim.u256_sub current block)
          (if ltb 256 age then pure zero_word else on_ext (get_block_hash block))))
    push hash
    next (pos 20)

  -- The arms that push one value and cost 2.
  abbrev push_header : (Header → Word) → Handler
  push_header field =
      need_gas (pos 2) do h ← gets (λ s. s.exec.header); push (field h); next (pos 2)

  unfoldable pub coinbase : Handler
  coinbase = push_header λ h. word_of_address h.miner

  unfoldable pub timestamp : Handler
  timestamp = push_header λ h. h.timestamp

  unfoldable pub number : Handler
  number = push_header λ h. h.number

  unfoldable pub prevrandao : Handler
  prevrandao = push_header λ _. zero_word

  unfoldable pub gaslimit : Handler
  gaslimit = push_header λ h. h.gas_limit

  unfoldable pub chainid : Handler
  chainid = push_header λ _. one_word

  unfoldable pub selfbalance : Handler
  selfbalance = need_gas (pos 5) do
    value ← on_ext (balance (this_address f))
    touch (AccountTouch.get_value (this_address f) value)
    push value
    next (pos 5)

  unfoldable pub basefee : Handler
  basefee = push_header λ h. h.base_fee

  unfoldable pub blobhash : Handler
  blobhash = need_gas (pos 3) do _ ← pop; push zero_word; next (pos 3)

  unfoldable pub blobbasefee : Handler
  blobbasefee =
      need_gas (pos 2) do
        h ← gets (λ s. s.exec.header)
        price ← unwrap (blob_gas_price h)
        push price
        next (pos 2)
