-- ===== src/Prelude/Decimal.antt =====
-- `std::to_string` of the standard library, as bytes.
use Prim.Native.Nat.{ℕ, zero, suc, ◌+◌, ◌/◌, ◌%◌}
use mathlib.Core.List.{List, [], ◌∷◌}
use streaming.Prelude.Tests.{ltb, if◌then◌else◌}

-- `std::to_string` of a number below 2^64, which has at most 20 digits.
unfoldable pub decimal : ℕ → ℕ → List ℕ → List ℕ
decimal zero n digits = digits
decimal (suc places) n digits =
    let more = decimal places (n / 10) ((48 + n % 10) ∷ digits) in
    if ltb n 10 then (48 + n) ∷ digits else more

unfoldable pub to_string : ℕ → List ℕ
unfolding decimal
to_string n = decimal 20 n []
