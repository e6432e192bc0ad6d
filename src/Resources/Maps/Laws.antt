-- ===== src/Resources/Maps/Laws.antt =====
-- What the map helpers do to a map, read through `lookup`.
use authorino_operator.Prelude.{
  ◌≡◌, refl, String, Bool, true, false, ◌||◌, Option, none, some, [], ◌∷◌, arith, eq_iff, eq_refl,
  ◌==◌, ◌∙◌, if◌then◌else◌, Bool-cases, inl, inr,
}
use authorino_operator.Kube.{Entries, StringMap, entries, lookup}
use authorino_operator.Resources.Maps.{
  copy_from, copy_map, differs, map_update_needed, merge_from, merge_map_string_string, set_key,
  update_needed,
}

lookup-set_key :
    (k v j : String) (m : Entries)
    → lookup j (set_key k v m) ≡ (if k == j then some v else lookup j m)
unfolding lookup set_key
lookup-set_key k v j [] = refl
lookup-set_key k v j ((i, w) ∷ m) =
    ground (arith, eq_iff k j, eq_iff i k, eq_iff i j, lookup-set_key k v j m)

-- The keys of a map differ.
abbrev HasUniqueKeys : Entries → Type 0
HasUniqueKeys [] = Unit
HasUniqueKeys ((k, v) ∷ m) = (lookup k m ≡ none) × HasUniqueKeys m

-- The first of two values that there is.
abbrev pub first_of : Option String → Option String → Option String
first_of none o = o
first_of (some v) o = some v

eq-some_of_differs : (o : Option String) (v : String) → differs o v ≡ false → o ≡ some v
eq-some_of_differs none v h = cc
eq-some_of_differs (some w) v h = ground (arith, eq_iff w v)

-- one round of the loop of `MergeMapStringString`
abbrev updated : String → String → Entries → Entries
updated k v m = if differs (lookup k m) v then set_key k v m else m

-- Whether the entry was stale or not, it is there afterwards and no other has changed.
lookup-updated :
    (k v j : String) (m : Entries)
    → lookup j (updated k v m) ≡ (if k == j then some v else lookup j m)
lookup-updated k v j m = elim (Bool-cases (differs (lookup k m) v)) [
  | inl stale ↦ rw stale (lookup-set_key k v j m)
  | inr same ↦ rw same (ground (arith, eq_iff k j, eq-some_of_differs (lookup k m) v same))
]

lookup-merge_from :
    (existing desired : Entries) (modified : Bool) (j : String)
    → HasUniqueKeys desired
    → lookup j (merge_from existing modified desired).0
      ≡ first_of (lookup j desired) (lookup j existing)
unfolding merge_from lookup
lookup-merge_from existing [] modified j h = refl
lookup-merge_from existing ((k, v) ∷ desired) modified j (fresh, h) =
    lookup-merge_from (updated k v existing) desired (differs (lookup k existing) v || modified) j h
    ∙ rw lookup-updated (ground (arith, eq_iff k j))

or-true : (b c : Bool) → (b || (true || c)) ≡ true
or-true true c = refl
or-true false c = refl

merge_from-update_needed :
    (existing desired : Entries) (modified : Bool)
    → (merge_from existing modified desired).1 ≡ (update_needed existing desired || modified)
unfolding merge_from update_needed
merge_from-update_needed existing [] modified = refl
merge_from-update_needed existing ((k, v) ∷ desired) modified =
    merge_from-update_needed (updated k v existing) desired
      (differs (lookup k existing) v || modified)
    ∙ (elim (Bool-cases (differs (lookup k existing) v)) [
      | inl stale ↦ rw stale (or-true (update_needed _ desired) modified)
      | inr same ↦ rw same
    ])

update_needed-eq-false :
    (m desired : Entries)
    → HasUniqueKeys desired
    → ((k v : String) → lookup k desired ≡ some v → lookup k m ≡ some v)
    → update_needed m desired ≡ false
unfolding update_needed lookup
update_needed-eq-false m [] h all = refl
update_needed-eq-false m ((k, v) ∷ desired) (fresh, h) all =
    let here = all k v (rw eq_refl) in
    rw (here, eq_refl)
      (update_needed-eq-false m desired h (λ j w e. all j w (ground (arith, eq_iff k j))))

module _ (existing desired : StringMap) where
  -- The map that `MergeMapStringString` leaves behind a non-nil pointer.
  abbrev pub merged : Entries
  merged = (merge_from (entries existing) false (entries desired)).0

  -- If the keys of the desired map differ, a merge of it through a pointer leaves a map that is not
  -- nil. It reads every desired entry, whatever
  -- order the loop takes, keeps every other entry, reports a modification exactly when
  -- `MapUpdateNeeded` says that there is one to make, and needs no second merge.
  pub merge_map_string_string_lem :
      HasUniqueKeys (entries desired)
      → (merge_map_string_string (some existing) desired
          ≡ (some (some merged), map_update_needed existing desired))
        × ((j : String)
            → lookup j merged ≡ first_of (lookup j (entries desired)) (lookup j (entries existing)))
        × (map_update_needed (some merged) desired ≡ false)
  unfolding merge_map_string_string map_update_needed
  merge_map_string_string_lem h = (
    ground (arith, merge_from-update_needed (entries existing) (entries desired) false),
    λ j. lookup-merge_from (entries existing) (entries desired) false j h,
    update_needed-eq-false merged (entries desired) h
        (λ k v e. lookup-merge_from (entries existing) (entries desired) false k h ∙ rw e),
  )

lookup-copy_from :
    (copy m : Entries) (j : String)
    → HasUniqueKeys m
    → lookup j (copy_from copy m) ≡ first_of (lookup j m) (lookup j copy)
unfolding copy_from lookup
lookup-copy_from copy [] j h = refl
lookup-copy_from copy ((k, v) ∷ m) j (fresh, h) =
    lookup-copy_from (set_key k v copy) m j h ∙ rw lookup-set_key (ground (arith, eq_iff k j))

first_of-none : (o : Option String) → first_of o none ≡ o
first_of-none none = refl
first_of-none (some v) = refl

-- A copy of a map whose keys differ reads as the map does, and one of a nil map as well.
pub lookup-copy_map :
    (m : StringMap) (j : String)
    → HasUniqueKeys (entries m)
    → lookup j (entries (copy_map m)) ≡ lookup j (entries m)
unfolding copy_map lookup
lookup-copy_map none j h = refl
lookup-copy_map (some m) j h = lookup-copy_from [] m j h ∙ first_of-none (lookup j m)
