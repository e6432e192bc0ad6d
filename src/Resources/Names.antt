-- ===== src/Resources/Names.antt =====
-- pkg/resources/k8s_util.go: metadata, labels and names. `sha256.Sum256` is a parameter: the bytes
-- of the digest of a text.
pub mod Laws
pub mod Unique
use Prim.Native.String
use Prim.Native.String.{char_at}
use authorino_operator.Prelude.{
  ℕ, ◌-◌, ◌/◌, ◌%◌, Char, String, len, slice, some, List, [], ◌∷◌, ltb, leb, concat, if◌then◌else◌,
}
use authorino_operator.Kube.{StringMap, ObjectMeta, named}

abbrev pub get_object_meta : String → String → StringMap → ObjectMeta
get_object_meta namespace name labels = named name namespace labels

unfoldable pub default_authorino_labels : String → StringMap
default_authorino_labels name =
    some (("control-plane", "controller-manager") ∷ ("authorino-resource", name) ∷ [])

unfoldable pub authorino_service_account_name : String → String
authorino_service_account_name cr_name = concat (cr_name ∷ "-authorino" ∷ [])

unfoldable pub authorino_role_binding_name : String → String → String
authorino_role_binding_name cr_name suffix = concat (cr_name ∷ "-" ∷ suffix ∷ [])

-- `validation.DNS1123SubdomainMaxLength`
abbrev pub max_name_len : ℕ
max_name_len = 253

-- one digit of `%x`
abbrev hex_digit : ℕ → Char
hex_digit n = char_at "0123456789abcdef" n

-- `fmt.Sprintf("%x", bytes)`
unfoldable hex : List ℕ → String
hex [] = ""
hex (b ∷ bytes) = String.◌∷◌ (hex_digit (b / 16 % 16)) (String.◌∷◌ (hex_digit (b % 16)) (hex bytes))

abbrev pub scoped_name : String → String → String → String
scoped_name namespace cr_part suffix = concat (namespace ∷ "." ∷ cr_part ∷ "-" ∷ suffix ∷ [])

module _ (sum256 : String → List ℕ) where
  -- `fmt.Sprintf("%x", sha256.Sum256([]byte(crName)))[:16]`
  unfoldable pub name_hash : String → String
  unfolding hex
  name_hash cr_name = slice (hex (sum256 cr_name)) 0 16

  -- The room that is left for the CR name; the subtraction stops at 0, as the code does.
  unfoldable pub available : String → String → String → ℕ
  available namespace cr_name suffix =
      max_name_len - len (scoped_name namespace (name_hash cr_name) suffix)

  -- `truncatedName` with the hash behind it
  unfoldable pub truncated_name : String → String → String → String
  unfolding available name_hash
  truncated_name namespace cr_name suffix =
      let room = available namespace cr_name suffix in
      concat (
        (if ltb room (len cr_name) then slice cr_name 0 room else cr_name) ∷ name_hash cr_name ∷ [])

  unfoldable pub authorino_cluster_role_binding_name : String → String → String → String
  unfolding truncated_name
  authorino_cluster_role_binding_name namespace cr_name suffix =
      if leb (len (scoped_name namespace cr_name suffix)) max_name_len
      then scoped_name namespace cr_name suffix
      else scoped_name namespace (truncated_name namespace cr_name suffix) suffix
