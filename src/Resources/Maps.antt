-- ===== src/Resources/Maps.antt =====
-- pkg/resources/map_utils.go, and `MapUpdateNeeded` of pkg/resources/k8s_deployment.go.
pub mod Laws
use authorino_operator.Prelude.{
  String, Bool, true, false, not, ◌||◌, Option, none, some, [], ◌∷◌, ◌==◌, if◌then◌else◌,
}
use authorino_operator.Kube.{Entries, StringMap, lookup, entries}

-- `m[k] = v`: an old entry keeps its place, a new one comes last.
unfoldable pub set_key : String → String → Entries → Entries
set_key k v [] = (k, v) ∷ []
set_key k v ((j, w) ∷ m) = if j == k then (k, v) ∷ m else (j, w) ∷ set_key k v m

-- `!exists || existingValue != desiredValue`
abbrev pub differs : Option String → String → Bool
differs none v = true
differs (some w) v = not (w == v)

-- the loop over the desired entries
unfoldable pub merge_from : Entries → Bool → Entries → Entries × Bool
unfolding lookup set_key
merge_from existing modified [] = (existing, modified)
merge_from existing modified ((k, v) ∷ desired) =
    let stale = differs (lookup k existing) v in
    merge_from (if stale then set_key k v existing else existing) (stale || modified) desired

-- The first argument is a pointer to a map: the outer `none` is a nil pointer, the inner a nil map.
unfoldable pub merge_map_string_string : Option StringMap → StringMap → Option StringMap × Bool
unfolding merge_from
merge_map_string_string none desired = (none, false)
merge_map_string_string (some existing) desired =
    let (merged, modified) = merge_from (entries existing) false (entries desired) in
    (some (some merged), modified)

-- the loop of `CopyMap`, into the copy
unfoldable pub copy_from : Entries → Entries → Entries
unfolding set_key
copy_from copy [] = copy
copy_from copy ((k, v) ∷ m) = copy_from (set_key k v copy) m

unfoldable pub copy_map : StringMap → StringMap
unfolding copy_from
copy_map none = none
copy_map (some m) = some (copy_from [] m)

unfoldable pub update_needed : Entries → Entries → Bool
unfolding lookup
update_needed existing [] = false
update_needed existing ((k, v) ∷ desired) =
    if differs (lookup k existing) v then true else update_needed existing desired

unfoldable pub map_update_needed : StringMap → StringMap → Bool
unfolding update_needed
map_update_needed existing desired = update_needed (entries existing) (entries desired)
