-- ===== src/Tests/Builders.antt =====
-- Tests of the builders and of `Runner::apply`.
use solenoid.Base.{◌≡◌, refl, ℕ, List, [], ◌∷◌, arith, true}
use solenoid.Base.Int.{pos, ◌+ℤ◌}
use solenoid.Primitives.Native.{native}
use solenoid.Maps.{insert}
use solenoid.Machine.{Machine}
use solenoid.Builder.{no_header}
use solenoid.Builder.Transfer
use solenoid.Builder.Apply.Creation.{settle_creation, place_contract}
use solenoid.Builder.Apply.Charged.{IsCharged, settle_creation-IsCharged}
use solenoid.Builder.Apply.Placed.{IsPlaced, contract_of, place_contract-IsPlaced}
use solenoid.Tests.Data.{contract, world, with}

transfer_test :
    Transfer.ready (Transfer.with_gas 21000 (Transfer.with_sender 7 (Transfer.transfer 9 5)))
    ≡ record {
      header = no_header;
      call = record { input = []; value = 5; sender = 7; to = 9; gas = 21000 };
      code = [];
    }
unfolding Transfer.ready Transfer.with_gas Transfer.with_sender
transfer_test = refl

-- A creation that reverted with three bytes of data, after all the gas of its frame is used.
abbrev reverted : Machine
reverted = record (with [] (pos 1000)) {
  evm = record (with [] (pos 1000)).evm {
    reverted = true;
    gas = record { limit = pos 1000; used = pos 1000; refunded = pos 0 };
  };
}

abbrev bytes : List ℕ
bytes = 1 ∷ 2 ∷ 3 ∷ []

settle_creation-IsCharged_example :
    IsCharged
      (settle_creation (pos 54000) (pos 53000) bytes reverted)
      (pos 54000)
      (pos 54600)
      bytes
      reverted
unfolding ◌+ℤ◌
settle_creation-IsCharged_example =
    settle_creation-IsCharged (pos 53000) bytes reverted
      (record { nonneg = omega arith; within = omega arith; small = omega arith }) (omega arith)
      (omega arith) (omega arith) (omega arith)

abbrev opened : Machine
opened = record (with [] (pos 1000)) {
  ext = record world { state = insert 0xaa contract world.state };
}

place_contract-IsPlaced_example :
    IsPlaced 0xaa 0xcc contract
      (contract_of bytes contract)
      opened
      (place_contract 0xaa 0xcc bytes opened)
place_contract-IsPlaced_example =
    place_contract-IsPlaced 0xaa 0xcc bytes opened contract contract refl refl (omega arith)
      (omega arith)
