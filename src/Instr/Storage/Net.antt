-- ===== src/Instr/Storage/Net.antt =====
-- The net price of a series of writes to one warm slot, by the pricing of SSTORE in
-- src/executor.rs.
use solenoid.Base.{
  ℕ, zero, suc, refl, ap, Bool-cases, inl, inr, ◌*◌, ◌≡◌, ◌≢◌, ◌==◌, true, List, [], ◌∷◌, arith,
  length, if◌then◌else◌,
}
use solenoid.Base.Int.{ℤ, pos, negsuc, pos_part, neg_part, ◌+ℤ◌, ◌-ℤ◌, int_laws}
use solenoid.Base.I64.{add_i64, wrap_i64}
use solenoid.Word.{Word}
use solenoid.Instr.Storage.Pricing.{sstore_cost, sstore_refund}

-- What one write costs in the end: the gas less the refund.
abbrev pub net : Word → Word → Word → ℤ
net original val new = sstore_cost original val new true -ℤ sstore_refund original val new

-- What a slot with this original value is ahead by, when it holds `val`.
abbrev pub potential : Word → Word → ℤ
potential original val =
    if original == 0
    then (if val == 0 then pos 0 else pos 19900)
    else if val == original
    then pos 0
    else if val == 0
    then negsuc 1999
    else pos 2800

abbrev pub total_net : Word → Word → List Word → ℤ
total_net original val [] = pos 0
total_net original val (new ∷ writes) = net original val new +ℤ total_net original new writes

abbrev pub last_value : Word → List Word → Word
last_value val [] = val
last_value val (new ∷ writes) = last_value new writes

-- The gas and the refund of one write to a warm slot, by the case.
price_same :
    (original val : Word)
    → (sstore_cost original val val true ≡ pos 100) × (sstore_refund original val val ≡ pos 0)
unfolding sstore_cost sstore_refund
price_same original val = ground arith

price_clean :
    (original new : Word)
    → original ≢ new
    → (sstore_cost original original new true ≡ (if original == 0 then pos 20000 else pos 2900))
      × (sstore_refund original original new
          ≡ (if original == 0 then pos 0 else if new == 0 then pos 4800 else pos 0))
unfolding sstore_cost sstore_refund
price_clean original new h = ground arith

price_dirty :
    (original val new : Word)
    → val ≢ new
    → val ≢ original
    → (sstore_cost original val new true ≡ pos 100)
      × (sstore_refund original val new ≡ (
          if original == 0
          then (if new == 0 then pos 19900 else pos 0)
          else if new == original
          then (if val == 0 then negsuc 1999 else pos 2800)
          else if val == 0
          then negsuc 4799
          else if new == 0
          then pos 4800
          else pos 0))
unfolding sstore_cost sstore_refund add_i64 wrap_i64 ◌+ℤ◌
price_dirty zero zero new h k = absurd (k refl)
price_dirty zero (suc v) zero h k = ground arith
price_dirty zero (suc v) (suc n) h k = ground arith
price_dirty (suc o) zero zero h k = absurd (h refl)
price_dirty (suc o) zero (suc n) h k = ground arith
price_dirty (suc o) (suc v) zero h k = ground arith
price_dirty (suc o) (suc v) (suc n) h k = ground arith

net-potential :
    (original val new : Word)
    → net original val new +ℤ potential original val ≡ pos 100 +ℤ potential original new
unfolding ◌+ℤ◌ ◌-ℤ◌
net-potential original val new = elim (Bool-cases (val == new)) [
  | inl same ↦
      let e : val ≡ new = ground arith in
      rw (← e) (rw ((price_same original val).0, (price_same original val).1) (ground arith))
  | inr changed ↦ elim (Bool-cases (val == original)) [
    | inl clean ↦
        let e : val ≡ original = ground arith in
        let price = price_clean original new (ground arith) in
        rw e (rw (price.0, price.1) (ground arith))
    | inr dirty ↦
        let price = price_dirty original val new (ground arith) (ground arith) in
        rw (price.0, price.1) (ground arith)
  ]
]

chain :
    (a p q t r : ℤ) (m : ℕ)
    → a +ℤ p ≡ pos 100 +ℤ q
    → t +ℤ q ≡ pos (100 * m) +ℤ r
    → a +ℤ t +ℤ p ≡ pos (100 * suc m) +ℤ r
chain a p q t r m h k = omega (int_laws, ap pos_part h, ap neg_part h, ap pos_part k, ap neg_part k)

-- Path independence: whatever values a transaction writes to a warm slot, one after the other, the
-- gas of the writes less their refunds is 100 for each write and the difference of the potentials
-- of the last and the first value.
pub total_net-potential :
    (original val : Word) (writes : List Word)
    → total_net original val writes +ℤ potential original val
      ≡ pos (100 * length writes) +ℤ potential original (last_value val writes)
total_net-potential original val [] = omega int_laws
total_net-potential original val (new ∷ writes) =
    chain (net original val new) (potential original val) (potential original new)
      (total_net original new writes) (potential original (last_value new writes)) (length writes)
      (net-potential original val new) (total_net-potential original new writes)
