-- ===== src/Tests/Hex.antt =====
-- Tests of the hexadecimal strings.
use solenoid.Base.{◌≡◌, refl, none, some, [], ◌∷◌, arith}
use solenoid.Hex.{decode, addr, hex_digit, put_digit, digits_loop, prefix_len}
use solenoid.Hex.Printed.{printed, decode-printed}

-- `123`, of an odd number of digits, without and with the prefix, and with a letter in upper case.
odd_test : decode 2 (49 ∷ 50 ∷ 51 ∷ []) ≡ some (1 ∷ 0x23 ∷ [])
unfolding decode hex_digit put_digit digits_loop prefix_len
odd_test = refl

prefixed_test : decode 3 (48 ∷ 120 ∷ 49 ∷ 50 ∷ 65 ∷ []) ≡ some (0 ∷ 1 ∷ 0x2a ∷ [])
unfolding decode hex_digit put_digit digits_loop prefix_len
prefixed_test = refl

-- Too many digits, and a character that is none.
long_test : decode 1 (49 ∷ 50 ∷ 51 ∷ []) ≡ none
unfolding decode prefix_len
long_test = refl

letter_test : addr (49 ∷ 103 ∷ []) ≡ none
unfolding addr decode hex_digit put_digit digits_loop prefix_len
letter_test = refl

decode-printed_example :
    decode 3 (printed (0x0f ∷ 0xa0 ∷ 0xff ∷ [])) ≡ some (0x0f ∷ 0xa0 ∷ 0xff ∷ [])
decode-printed_example =
    decode-printed (0x0f ∷ 0xa0 ∷ 0xff ∷ []) (omega arith, (omega arith, (omega arith, tt)))
