-- ===== src/Condition/Invariant.antt =====
-- What holds of the list of conditions after any number of updates, and what a repeated update does.
use authorino_operator.Prelude.{
  ◌≡◌, refl, String, Bool, true, false, ◌||◌, Option, none, some, List, [], ◌∷◌, ◌++◌, arith,
  eq_iff, eq_refl, ◌==◌, ◌∙◌, Bool-cases, inl, inr, subst, sym, ap,
}
use authorino_operator.Kube.{Time}
use authorino_operator.Api.{Condition}
use authorino_operator.Condition.{
  add_or_update_from, add_or_update_status_condition, add_or_update_status_conditions, or_appended,
  revise, same_content,
}
use authorino_operator.Condition.Laws.{
  find, find-append_one, find-replaced, find-add_or_update, replaced, loop_result, revise-type,
  add_or_update_lem, updated_list, was_updated, merged, stamped, content_changes,
}

-- No type stands twice, as the list map of the CRD demands.
abbrev pub HasUniqueTypes : List Condition → Type 0
HasUniqueTypes [] = Unit
HasUniqueTypes (c ∷ rest) = (find c.type rest ≡ none) × HasUniqueTypes rest

find-replaced-none :
    (conditions : List Condition) (new : Condition) (t : String)
    → find t conditions ≡ none
    → find t (replaced conditions new) ≡ none
find-replaced-none conditions new t h =
    find-replaced conditions new t ∙ (elim (Bool-cases (new.type == t)) [
      | inl same ↦ rw (same, (eq_iff new.type t).0 same, h)
      | inr other ↦ rw (other, h)
    ])

HasUniqueTypes-replaced :
    (conditions : List Condition) (new : Condition)
    → HasUniqueTypes conditions
    → HasUniqueTypes (replaced conditions new)
unfolding replaced
HasUniqueTypes-replaced [] new h = tt
HasUniqueTypes-replaced (c ∷ rest) new (fresh, h) = elim (Bool-cases (c.type == new.type)) [
  | inl same ↦
      let e = (eq_iff c.type new.type).0 same in rw same (rw (revise-type c new e, ← e) fresh, h)
  | inr other ↦
      rw other (find-replaced-none rest new c.type fresh, HasUniqueTypes-replaced rest new h)
]

not_here :
    (c : Condition) (rest : List Condition) (new : Condition)
    → find new.type (c ∷ rest) ≡ none
    → (new.type == c.type ≡ false) × (find new.type rest ≡ none)
unfolding find
not_here c rest new e = ground (arith, eq_iff c.type new.type, eq_iff new.type c.type)

HasUniqueTypes-append_one :
    (conditions : List Condition) (new : Condition)
    → find new.type conditions ≡ none
    → HasUniqueTypes conditions
    → HasUniqueTypes (conditions ++ new ∷ [])
HasUniqueTypes-append_one [] new e h = (unfold find in refl, tt)
HasUniqueTypes-append_one (c ∷ rest) new e (fresh, h) =
    let (other, absent) = not_here c rest new e in
    (
      find-append_one rest new c.type absent ∙ rw other fresh,
      HasUniqueTypes-append_one rest new absent h,
    )

HasUniqueTypes-result :
    (conditions : List Condition) (new : Condition) (old : Option Condition)
    → find new.type conditions ≡ old
    → HasUniqueTypes conditions
    → HasUniqueTypes (or_appended conditions new (loop_result conditions new old)).0
HasUniqueTypes-result conditions new none e h = HasUniqueTypes-append_one conditions new e h
HasUniqueTypes-result conditions new (some c) e h = HasUniqueTypes-replaced conditions new h

-- Updates keep the types unique.
HasUniqueTypes-add_or_update :
    (now : Time) (conditions : List Condition) (new : Condition)
    → HasUniqueTypes conditions
    → HasUniqueTypes (updated_list now conditions new)
HasUniqueTypes-add_or_update now conditions new h =
    subst (λ (p : List Condition × Bool). HasUniqueTypes p.0)
      (sym (add_or_update_lem now conditions new))
      (HasUniqueTypes-result conditions (stamped now new) _ refl h)

HasUniqueTypes-add_or_update_from :
    (conditions : List Condition) (flag : Bool) (new : List (Time × Condition))
    → HasUniqueTypes conditions
    → HasUniqueTypes (add_or_update_from conditions flag new).0
unfolding add_or_update_from
HasUniqueTypes-add_or_update_from conditions flag [] h = h
HasUniqueTypes-add_or_update_from conditions flag ((now, c) ∷ new) h =
    HasUniqueTypes-add_or_update_from (updated_list now conditions c)
      (flag || was_updated now conditions c) new (HasUniqueTypes-add_or_update now conditions c h)

-- However many conditions are added or updated at once, no type stands twice in the result if none
-- stood twice before.
pub HasUniqueTypes-add_or_update_all :
    (conditions : List Condition) (new : List (Time × Condition))
    → HasUniqueTypes conditions
    → HasUniqueTypes (add_or_update_status_conditions conditions new).0
unfolding add_or_update_status_conditions
HasUniqueTypes-add_or_update_all conditions new h =
    HasUniqueTypes-add_or_update_from conditions false new h

replaced-eq :
    (conditions : List Condition) (new : Condition) {c : Condition}
    → find new.type conditions ≡ some c
    → same_content c new ≡ true
    → replaced conditions new ≡ conditions
unfolding find replaced revise
replaced-eq [] new e h = cc
replaced-eq (b ∷ rest) new {c} e h = elim (Bool-cases (b.type == new.type)) [
  | inl same ↦
      let there : some b ≡ some c = rw same at e in
      let b_is : b ≡ c = cc there in
      let quiet : same_content b new ≡ true =
        subst (λ (x : Condition). same_content x new ≡ true) (sym b_is) h in
      rw same (ground arith)
  | inr other ↦ rw other (ap (λ l. b ∷ l) (replaced-eq rest new (rw other at e) h))
]

same_content-merged :
    (now : Time) (old : Option Condition) (new : Condition)
    → same_content (merged now old new) new ≡ true
same_content-merged now none new =
    ground (arith, eq_refl new.status, eq_refl new.reason, eq_refl new.message)
same_content-merged now (some c) new =
    ground (arith, eq_refl new.status, eq_refl new.reason, eq_refl new.message)

content_unchanged :
    (o : Option Condition) {c : Condition} (new : Condition)
    → o ≡ some c
    → same_content c new ≡ true
    → content_changes o new ≡ false
content_unchanged none new e h = cc
content_unchanged (some b) {c} new e h = let b_is : b ≡ c = cc e in rw b_is (rw h)

-- An update that changes no content returns the list itself, and says so.
add_or_update_unchanged :
    (now : Time) (conditions : List Condition) (new : Condition) {c : Condition}
    → find new.type conditions ≡ some c
    → same_content c new ≡ true
    → add_or_update_status_condition now conditions new ≡ (conditions, false)
unfolding revise
add_or_update_unchanged now conditions new {c} e h =
    add_or_update_lem now conditions new
    ∙ ap
        (λ o. or_appended conditions (stamped now new) (loop_result conditions (stamped now new) o))
        e
    ∙ ground (arith, replaced-eq conditions (stamped now new) e h)

-- Writing a condition a second time, at any time, changes nothing: neither the list nor the time of
-- the last transition, and the flag says that nothing was updated.
pub add_or_update_idempotent :
    (now later : Time) (conditions : List Condition) (new : Condition)
    → add_or_update_status_condition later (updated_list now conditions new) new
      ≡ (updated_list now conditions new, false)
add_or_update_idempotent now later conditions new =
    add_or_update_unchanged later (updated_list now conditions new) new
      {c = merged now (find new.type conditions) new}
      ((find-add_or_update now conditions new new.type).0 ∙ rw (eq_refl new.type))
      (same_content-merged now (find new.type conditions) new)
