-- ===== src/Tests/Contracts.antt =====
-- Tests of the precompiled contracts and of the addresses of created contracts.
use solenoid.Base.{ℕ, ◌≡◌, refl, some, List, [], ◌∷◌, arith}
use solenoid.Primitives.Native.{native}
use solenoid.Primitives.Bytes.{be_bytes}
use solenoid.Primitives.Bytes.Bounds.{are_bytes-AreBytes}
use solenoid.Outcome.{ok}
use solenoid.Address.{creation_payload, skip_zeros}
use solenoid.Address.Payload.{parse, parse-creation_payload}
use solenoid.Precompiles.Native.{native_crates}
use solenoid.Precompiles.Modexp.{modexp}
use solenoid.Precompiles.Modexp.Value.{IsNumber, power, encoded, modexp-IsNumber}

-- 3 to the power 5 modulo 7, on two bytes for the modulus.
modexp-IsNumber_example :
    (out : List ℕ) × (modexp (encoded (3 ∷ []) (5 ∷ []) (0 ∷ 7 ∷ []) (9 ∷ [])) ≡ ok out)
    × IsNumber 2 (power (3 ∷ []) (5 ∷ []) (0 ∷ 7 ∷ [])) out
modexp-IsNumber_example =
    modexp-IsNumber (3 ∷ []) (5 ∷ []) (0 ∷ 7 ∷ []) (9 ∷ []) (are_bytes-AreBytes (0 ∷ 7 ∷ []) refl)
      (omega arith) (omega arith) (omega arith)

parse-creation_payload_example :
    parse (creation_payload 0xaa (skip_zeros (be_bytes 32 300))) ≡ some (0xaa, 300)
parse-creation_payload_example = parse-creation_payload 0xaa 300 (omega arith) (omega arith)
