-- ===== src/Reconcilers/Version.antt =====
-- The version of Authorino that an image stands for, and whether it is one of those that are
-- configured by environment variables (pkg/reconcilers/deployment.go).
pub mod Laws
use Prim.Native.String
use authorino_operator.Prelude.{
  code, String, Bool, true, false, not, ◌&&◌, ◌||◌, Option, none, some, List, [], ◌∷◌, ℤ, pos,
  negsuc, leb, nat_beq, after, is_digit, split, last, atoi, if◌then◌else◌,
}

unfoldable pub skip_digits : String → String
skip_digits String.[] = ""
skip_digits (String.◌∷◌ c s) = if is_digit c then skip_digits s else String.◌∷◌ c s

-- `\..+`: a "." and a character that is no line feed
abbrev pub dot_then_any : String → Bool
dot_then_any String.[] = false
dot_then_any (String.◌∷◌ c String.[]) = false
dot_then_any (String.◌∷◌ c (String.◌∷◌ d s)) = nat_beq (code c) b'.' && not (nat_beq (code d) 10)

-- `(\d)+\..+`; digits and "." differ, so the digits end where they stop
abbrev pub digits_then_dot : String → Bool
digits_then_dot String.[] = false
digits_then_dot (String.◌∷◌ c s) = is_digit c && dot_then_any (skip_digits s)

abbrev some_and : Option String → (String → Bool) → Bool
some_and none test = false
some_and (some s) test = test s

-- `v0\.(\d)+\..+` at the beginning of a text
unfoldable pub matches_here : String → Bool
unfolding skip_digits after
matches_here s = some_and (after "v0." s) digits_then_dot

-- `regexp.MatchString`: the pattern has no anchor, so it may begin anywhere
unfoldable pub matches : String → Bool
unfolding matches_here
matches String.[] = false
matches (String.◌∷◌ c s) = matches_here (String.◌∷◌ c s) || matches s

-- `err == nil && minor <= 10`
abbrev pub at_most_ten : Option ℤ → Bool
at_most_ten none = false
at_most_ten (some (pos n)) = leb n 10
at_most_ten (some (negsuc n)) = true

-- the minor version is `parts[1]`; a text that matches has at least two dots
abbrev pub minor_at_most_ten : List String → Bool
minor_at_most_ten (major ∷ minor ∷ rest) = at_most_ten (atoi minor)
minor_at_most_ten _ = false

unfoldable pub detect_env_var_authorino_version : String → Bool
unfolding matches split atoi
detect_env_var_authorino_version version =
    if not (matches version) then false else minor_at_most_ten (split version b'.')

unfoldable pub authorino_version_from_image_tag : String → String
unfolding split last
authorino_version_from_image_tag image = last (split image b':')
