-- ===== src/Reconcilers/Version/Laws.antt =====
-- Which versions are taken for old ones.
use Prim.Native.String
use Prim.Native.String.{char_at}
use authorino_operator.Prelude.{
  ℕ, Char, String, ◌≡◌, refl, true, false, [], ◌∷◌, format_nat, concat,
}
use authorino_operator.Reconcilers.Version.{
  detect_env_var_authorino_version, authorino_version_from_image_tag,
}

detect_tests :
    (detect_env_var_authorino_version "v0.10.0" ≡ true)
    × (detect_env_var_authorino_version "v0.11.0" ≡ false)
    × (detect_env_var_authorino_version "latest" ≡ false)
    × (detect_env_var_authorino_version "1.5.v0.12.3" ≡ true)
    × (detect_env_var_authorino_version "v0.10" ≡ false)
unfolding detect_env_var_authorino_version
detect_tests = (refl, refl, refl, refl, refl)

tag_test : authorino_version_from_image_tag "quay.io/kuadrant/authorino:v0.10.0" ≡ "v0.10.0"
unfolding authorino_version_from_image_tag
tag_test = refl

-- the tag of a version with this minor number
abbrev tagged : ℕ → Char → String → String
tagged n c rest = concat ("v0." ∷ format_nat n ∷ "." ∷ String.◌∷◌ c rest ∷ [])

-- the characters of the tag, up to the number and behind it
abbrev spelled : ℕ → Char → String → String
spelled n c rest = String.◌∷◌ (char_at "v" 0) (
    String.◌∷◌ (char_at "0" 0) (
      String.◌∷◌ (char_at "." 0)
        (String.◌++◌ (format_nat n) (String.◌∷◌ (char_at "." 0) (String.◌∷◌ c rest)))))
