-- ===== src/Prelude/Decimal.antt =====
-- The decimal digits that a number is printed as, read again.
use Prim.Native.Nat.{ℕ, zero, suc, ◌+◌, ◌*◌, ◌/◌, ◌%◌, ◌-◌, ◌<◌, ◌^◌}
use Prim.Native.Char.{code}
use Prim.Native.String.{String, char_at}
use mathlib.Core.Path.{◌≡◌, refl, ap, ◌∙◌}
use mathlib.Core.Bool.{true, false}
use mathlib.Core.Option.{none, some}
use mathlib.Core.Logic.{inl, inr}
use native.Mathlib.Omega.{arith}
use authorino_operator.Prelude.Tests.{ltb, nat_beq, if◌then◌else◌, Bool-cases}
use authorino_operator.Prelude.Int.{digits, format_nat, pos}
use authorino_operator.Prelude.Texts.{atoi, is_digit, read_digits}

-- Every character is a decimal digit.
abbrev pub IsDecimal : String → Type 0
IsDecimal String.[] = Unit
IsDecimal (String.◌∷◌ c s) = (is_digit c ≡ true) × IsDecimal s

code-digit : (n : ℕ) → n < 10 → code (char_at "0123456789" n) ≡ n + 48
code-digit zero h = refl
code-digit (suc zero) h = refl
code-digit (suc (suc zero)) h = refl
code-digit (suc (suc (suc zero))) h = refl
code-digit (suc (suc (suc (suc zero)))) h = refl
code-digit (suc (suc (suc (suc (suc zero))))) h = refl
code-digit (suc (suc (suc (suc (suc (suc zero)))))) h = refl
code-digit (suc (suc (suc (suc (suc (suc (suc zero))))))) h = refl
code-digit (suc (suc (suc (suc (suc (suc (suc (suc zero)))))))) h = refl
code-digit (suc (suc (suc (suc (suc (suc (suc (suc (suc zero))))))))) h = refl
code-digit (suc (suc (suc (suc (suc (suc (suc (suc (suc (suc n)))))))))) h =
    absurd (omega (arith, h))

is_digit-digit : (n : ℕ) → n < 10 → is_digit (char_at "0123456789" n) ≡ true
is_digit-digit n h = let c = code-digit n h in rw c (ground (arith, h))

-- the last digit, read behind the others
read-last :
    (n : ℕ) (out : String)
    → read_digits (n / 10) (String.◌∷◌ (char_at "0123456789" (n % 10)) out) ≡ read_digits n out
unfolding read_digits
read-last n out =
    let value : n / 10 * 10 + (code (char_at "0123456789" (n % 10)) - b'0') ≡ n =
      omega (arith, code-digit (n % 10) (omega arith)) in
    rw (is_digit-digit (n % 10) (omega arith)) (ap (λ k. read_digits k out) value)

-- What `digits` writes before a text is read in front of it.
read-digits :
    (fuel n : ℕ) (out : String) → n < fuel → read_digits 0 (digits fuel n out) ≡ read_digits n out
unfolding digits read_digits
read-digits zero n out h = absurd (omega (arith, h))
read-digits (suc fuel) n out h = elim (Bool-cases (nat_beq n 0)) [
  | inl done ↦ rw done (let e : n ≡ 0 = ground (arith, done) in rw e refl)
  | inr more ↦ rw more (
      read-digits fuel (n / 10) _
        (let positive : 0 < n = ground (arith, more) in omega (arith, positive, h))
      ∙ read-last n out)
]

digits-IsDecimal : (fuel n : ℕ) (out : String) → IsDecimal out → IsDecimal (digits fuel n out)
unfolding digits
digits-IsDecimal zero n out h = h
digits-IsDecimal (suc fuel) n out h = elim (Bool-cases (nat_beq n 0)) [
  | inl done ↦ rw done h
  | inr more ↦ rw more (digits-IsDecimal fuel (n / 10) _ (is_digit-digit (n % 10) (omega arith), h))
]

pub IsDecimal-format_nat : (n : ℕ) → IsDecimal (format_nat n)
unfolding format_nat
IsDecimal-format_nat n = elim (Bool-cases (nat_beq n 0)) [
  | inl nothing ↦ rw nothing (refl, tt)
  | inr more ↦ rw more (digits-IsDecimal (n + 1) n "" tt)
]

-- The digits of a number are read as the number.
pub read_digits-format_nat : (n : ℕ) → read_digits 0 (format_nat n) ≡ some n
unfolding format_nat read_digits
read_digits-format_nat n = elim (Bool-cases (nat_beq n 0)) [
  | inl nothing ↦ rw nothing (let e : n ≡ 0 = ground (arith, nothing) in rw e refl)
  | inr more ↦ rw more (read-digits (n + 1) n "" (omega arith))
]

-- The text has a first character.
abbrev pub IsFilled : String → Type 0
IsFilled String.[] = ⊥
IsFilled (String.◌∷◌ c s) = Unit

digits-IsFilled : (fuel n : ℕ) (out : String) → IsFilled out → IsFilled (digits fuel n out)
unfolding digits
digits-IsFilled zero n out h = h
digits-IsFilled (suc fuel) n out h = elim (Bool-cases (nat_beq n 0)) [
  | inl nothing ↦ rw nothing h
  | inr more ↦ rw more (digits-IsFilled fuel (n / 10) _ tt)
]

digits-IsFilled_first : (fuel n : ℕ) → 0 < n → n < fuel → IsFilled (digits fuel n "")
unfolding digits
digits-IsFilled_first zero n positive h = absurd (omega (arith, h))
digits-IsFilled_first (suc fuel) n positive h =
    let more : nat_beq n 0 ≡ false = ground (arith, positive) in
    rw more (digits-IsFilled fuel (n / 10) _ tt)

pub IsFilled-format_nat : (n : ℕ) → IsFilled (format_nat n)
unfolding format_nat
IsFilled-format_nat n = elim (Bool-cases (nat_beq n 0)) [
  | inl nothing ↦ rw nothing tt
  | inr more ↦ rw more (digits-IsFilled_first (n + 1) n (ground (arith, more)) (omega arith))
]

-- Digits are read as the number that they spell if it is within 64 bits.
pub atoi-decimal :
    (s : String) (n : ℕ)
    → IsDecimal s
    → IsFilled s
    → read_digits 0 s ≡ some n
    → atoi s ≡ (if ltb n (2 ^ 63) then some (pos n) else none)
unfolding atoi read_digits
atoi-decimal String.[] n decimal filled is = absurd filled
atoi-decimal (String.◌∷◌ c s) n (digit, decimal) filled is =
    let not_minus : nat_beq (code c) b'-' ≡ false = ground (arith, digit) in
    let not_plus : nat_beq (code c) b'+' ≡ false = ground (arith, digit) in
    rw (not_minus, not_plus, is) refl
