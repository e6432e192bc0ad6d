-- ===== src/Prelude/Int.antt =====
-- Go's `int` and `int32` values: `negsuc n` is -(n + 1). The program compares and prints them only.
use Prim.Native.Nat.{ℕ, zero, suc, ◌+◌, ◌/◌, ◌%◌}
use Prim.Native.String
use Prim.Native.String.{String, char_at}
use mathlib.Core.Bool.{Bool, true, false}
use authorino_operator.Prelude.Tests.{ltb, nat_beq, if◌then◌else◌}

pub data ℤ : Type 0 where
  pos : ℕ → ℤ
  negsuc : ℕ → ℤ

-- `x != 0`
abbrev pub is_nonzero : ℤ → Bool
is_nonzero (pos zero) = false
is_nonzero _ = true

-- `x > 1`
abbrev pub exceeds_one : ℤ → Bool
exceeds_one (pos n) = ltb 1 n
exceeds_one (negsuc n) = false

-- one digit for each round; `n + 1` rounds are enough, since each divides by ten
unfoldable pub digits : ℕ → ℕ → String → String
digits zero n out = out
digits (suc fuel) n out =
    let more = digits fuel (n / 10) (String.◌∷◌ (char_at "0123456789" (n % 10)) out) in
    if nat_beq n 0 then out else more

unfoldable pub format_nat : ℕ → String
unfolding digits
format_nat n = if nat_beq n 0 then "0" else digits (n + 1) n ""

-- `fmt.Sprintf("%d", x)`, and `"%v"` of an integer
unfoldable pub format_int : ℤ → String
unfolding format_nat
format_int (pos n) = format_nat n
format_int (negsuc n) = String.◌++◌ "-" (format_nat (n + 1))
