-- ===== src/Prelude/Texts.antt =====
-- Texts: what the program uses of the packages fmt, strings and strconv. A text is walked by its
-- characters; the separators are ASCII.
use Prim.Native.Nat.{ℕ, ◌+◌, ◌-◌, ◌*◌, ◌^◌}
use Prim.Native.Char.{Char, code}
use Prim.Native.String
use Prim.Native.String.{String}
use mathlib.Core.Bool.{Bool, true, false, ◌&&◌}
use mathlib.Core.Option.{Option, none, some}
use mathlib.Core.List.{List, [], ◌∷◌}
use authorino_operator.Prelude.Tests.{leb, ltb, nat_beq, if◌then◌else◌}
use authorino_operator.Prelude.Int.{ℤ, pos, negsuc}

-- `fmt.Sprintf` with `%s` verbs: the pieces, one behind the other
abbrev pub concat : List String → String
concat [] = ""
concat (s ∷ rest) = String.◌++◌ s (concat rest)

-- `strings.Join`
unfoldable pub join : List String → String → String
join [] sep = ""
join (s ∷ []) sep = s
join (s ∷ t ∷ rest) sep = String.◌++◌ s (String.◌++◌ sep (join (t ∷ rest) sep))

-- `fmt.Sprintf("%v", b)`
abbrev pub format_bool : Bool → String
format_bool true = "true"
format_bool false = "false"

abbrev pub push_first : Char → List String → List String
push_first c [] = String.◌∷◌ c "" ∷ []
push_first c (s ∷ rest) = String.◌∷◌ c s ∷ rest

-- `strings.Split(s, sep)` at a separator of one character
unfoldable pub split : String → ℕ → List String
split String.[] sep = "" ∷ []
split (String.◌∷◌ c s) sep =
    let rest = split s sep in if nat_beq (code c) sep then "" ∷ rest else push_first c rest

-- `parts[0]`; a split has a first part
abbrev pub first : List String → String
first [] = ""
first (s ∷ rest) = s

-- `parts[len(parts)-1]`
unfoldable pub last : List String → String
last [] = ""
last (s ∷ []) = s
last (s ∷ t ∷ rest) = last (t ∷ rest)

-- what follows a prefix
unfoldable pub after : String → String → Option String
after String.[] s = some s
after (String.◌∷◌ p ps) String.[] = none
after (String.◌∷◌ p ps) (String.◌∷◌ c s) = if nat_beq (code p) (code c) then after ps s else none

abbrev or_else : Option String → String → String
or_else none s = s
or_else (some t) s = t

-- `strings.TrimPrefix(s, prefix)`
unfoldable pub trim_prefix : String → String → String
unfolding after
trim_prefix s prefix = or_else (after prefix s) s

abbrev pub is_digit : Char → Bool
is_digit c = leb b'0' (code c) && leb (code c) b'9'

-- the number that decimal digits spell behind `n`; `none` at another character
unfoldable pub read_digits : ℕ → String → Option ℕ
read_digits n String.[] = some n
read_digits n (String.◌∷◌ c s) =
    if is_digit c then read_digits (n * 10 + (code c - b'0')) s else none

-- An `int` has 64 bits.
abbrev in_int_range : Bool → Option ℕ → Option ℤ
in_int_range negative none = none
in_int_range false (some n) = if ltb n (2 ^ 63) then some (pos n) else none
in_int_range true (some n) =
    if nat_beq n 0 then some (pos 0) else if leb n (2 ^ 63) then some (negsuc (n - 1)) else none

abbrev digits_of : Bool → String → Option ℤ
digits_of negative String.[] = none
digits_of negative (String.◌∷◌ c s) = in_int_range negative (read_digits 0 (String.◌∷◌ c s))

-- `strconv.Atoi`, with `none` for an error: an optional sign, and one digit or more
unfoldable pub atoi : String → Option ℤ
unfolding read_digits
atoi String.[] = none
atoi (String.◌∷◌ c s) =
    if nat_beq (code c) b'-'
    then digits_of true s
    else if nat_beq (code c) b'+'
    then digits_of false s
    else digits_of false (String.◌∷◌ c s)
