-- ===== src/Tests/Frames.antt =====
-- Tests of the frames and of the fees of a transaction.
use solenoid.Base.{◌≡◌, refl, true, [], arith}
use solenoid.Base.Int.{pos}
use solenoid.Primitives.Native.{native}
use solenoid.Precompiles.Native.{native_crates}
use solenoid.Outcome.{ok}
use solenoid.Maps.{insert}
use solenoid.Types.{CallType, Context}
use solenoid.Decoder.{decode}
use solenoid.Ext.{Account}
use solenoid.Machine.{Machine}
use solenoid.Step.Sound.{IsSound}
use solenoid.Frames.{run}
use solenoid.Frames.Sound.Tree.{run-IsSound}
use solenoid.Frames.Depth.{run_past_limit, run_levels}
use solenoid.Frames.Transfer.{call_transfer}
use solenoid.Frames.Transfer.Moves.{moved, IsTransfer, call_transfer-IsTransfer}
use solenoid.Tests.Data.{jumping, call, context, contract, world, with}

abbrev idle : Machine
idle = with [] (pos 1000)

run-IsSound_example : IsSound (run 20 3 (decode jumping) call context idle).1
run-IsSound_example =
    run-IsSound 20 3 (decode jumping) call context idle
      (record { stack_fits = omega arith; aligned = refl })

run_levels_example :
    run 20 1027 (decode jumping) call context idle ≡ run 20 1025 (decode jumping) call context idle
run_levels_example = run_levels 20 2 1024 (decode jumping) call context idle (omega arith)

abbrev deep : Context
deep = record context { depth = 1025 }

run_past_limit_example :
    let after = run 20 1 (decode jumping) call deep idle in
    (after.0 ≡ ok [])
    × (after.1.evm.reverted ≡ true)
    × (after.1.evm.gas ≡ idle.evm.gas)
    × (after.1.ext.state ≡ idle.ext.state)
run_past_limit_example = run_past_limit 20 0 (decode jumping) call deep idle (omega arith)

-- The account 0xaa beside 0xcc.
abbrev caller : Account
caller = record contract { value = 70; nonce = 5 }

abbrev both : Machine
both = record idle { ext = record world { state = insert 0xaa caller world.state } }

call_transfer-IsTransfer_example :
    IsTransfer
      (moved CallType.call 0xaa 0xcc 20 70)
      0xaa
      0xcc
      caller
      contract
      both
      (call_transfer CallType.call 1 0xaa 0xcc 20 both)
call_transfer-IsTransfer_example =
    call_transfer-IsTransfer CallType.call 1 0xaa 0xcc 20 caller contract both refl refl
      (omega arith)
