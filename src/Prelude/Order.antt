-- ===== src/Prelude/Order.antt =====
-- The order of texts, as `<` of Go: by the numbers of the characters, which is the order of the bytes.
use Prim.Native.String.{String}
use Prim.Native.Char.{code}
use mathlib.Core.Path.{◌≡◌, refl}
use mathlib.Core.Bool.{Bool, true, false}
use mathlib.Core.Logic.{inl, inr}
use native.Mathlib.Omega.{arith}
use Prim.Native.Nat.{ℕ, Ordering, compare}
use text.Mathlib.TextEquality.{codes_equal}
use text.Mathlib.TextPositions.{compare_self}
use authorino_operator.Prelude.Tests.{Bool-cases, if◌then◌else◌, ltb, nat_beq}

unfoldable pub text_less : String → String → Bool
text_less String.[] String.[] = false
text_less String.[] (String.◌∷◌ d t) = true
text_less (String.◌∷◌ c s) String.[] = false
text_less (String.◌∷◌ c s) (String.◌∷◌ d t) =
    let rest = text_less s t in
    if ltb (code c) (code d) then true else if nat_beq (code c) (code d) then rest else false

pub text_less_trans :
    (s t u : String) → text_less s t ≡ true → text_less t u ≡ true → text_less s u ≡ true
unfolding text_less
text_less_trans String.[] String.[] u h k = cc
text_less_trans String.[] (String.◌∷◌ d t) String.[] h k = cc k
text_less_trans String.[] (String.◌∷◌ d t) (String.◌∷◌ e u) h k = refl
text_less_trans (String.◌∷◌ c s) String.[] u h k = cc h
text_less_trans (String.◌∷◌ c s) (String.◌∷◌ d t) String.[] h k = cc k
text_less_trans (String.◌∷◌ c s) (String.◌∷◌ d t) (String.◌∷◌ e u) h k =
    let rest = text_less_trans s t u in ground (arith, rest)

pub text_less_asym : (s t : String) → text_less s t ≡ true → text_less t s ≡ false
unfolding text_less
text_less_asym String.[] String.[] h = refl
text_less_asym String.[] (String.◌∷◌ d t) h = refl
text_less_asym (String.◌∷◌ c s) String.[] h = cc h
text_less_asym (String.◌∷◌ c s) (String.◌∷◌ d t) h =
    let rest = text_less_asym s t in ground (arith, rest)

nat_beq-compare : (m n : ℕ) → nat_beq m n ≡ true → compare m n ≡ Ordering.eq
nat_beq-compare m n h = let e : m ≡ n = ground (arith, h) in rw e (compare_self n)

pub text_less_total : (s t : String) → text_less s t ≡ false → text_less t s ≡ false → s ≡ t
unfolding text_less
text_less_total String.[] String.[] h k = refl
text_less_total String.[] (String.◌∷◌ d t) h k = cc h
text_less_total (String.◌∷◌ c s) String.[] h k = cc k
text_less_total (String.◌∷◌ c s) (String.◌∷◌ d t) h k =
    elim (Bool-cases (nat_beq (code c) (code d))) [
      | inl same ↦
          let head : c ≡ d = codes_equal c d (nat_beq-compare (code c) (code d) same) in
          let rest = text_less_total s t in
          let tail : s ≡ t = rest (ground arith) (ground arith) in cc (head, tail)
      | inr other ↦ absurd (ground arith)
    ]
