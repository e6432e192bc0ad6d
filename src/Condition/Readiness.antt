-- ===== src/Condition/Readiness.antt =====
-- `Ready()` of api/v1beta1/authorino_types.go after an update of the status conditions.
use authorino_operator.Prelude.{
  ◌≡◌, refl, Bool, false, Option, none, some, List, [], ◌∷◌, arith, eq_iff, ◌==◌, ◌∙◌,
  if◌then◌else◌, Bool-cases, inl, inr, ap,
}
use authorino_operator.Kube.{Time}
use authorino_operator.Api.{AuthorinoStatus, Condition, condition_ready, ready, ready_in}
use authorino_operator.Condition.{add_or_update_from, add_or_update_status_conditions}
use authorino_operator.Condition.Laws.{find, find-add_or_update, merged, updated_list}

-- what `Ready()` says of the condition that it finds
abbrev is_true : Option Condition → Bool
is_true none = false
is_true (some c) = c.status == "True"

ready_in-find :
    (conditions : List Condition) → ready_in conditions ≡ is_true (find condition_ready conditions)
unfolding ready_in find
ready_in-find [] = refl
ready_in-find (c ∷ rest) = elim (Bool-cases (c.type == condition_ready)) [
  | inl same ↦ rw same
  | inr other ↦ rw other (ready_in-find rest)
]

status-merged :
    (now : Time) (old : Option Condition) (new : Condition)
    → (merged now old new).status ≡ new.status
status-merged now none new = refl
status-merged now (some c) new = ground (arith, eq_iff c.status new.status)

-- Once a condition is written into the status, the status is ready exactly if the condition was of
-- another type and the status was ready before, or is of the type "Ready" and says "True".
pub ready-add_or_update :
    (now : Time) (status : AuthorinoStatus) (new : Condition)
    → ready (record {
      conditions = (add_or_update_status_conditions status.conditions ((now, new) ∷ [])).0;
    })
      ≡ (if new.type == condition_ready then new.status == "True" else ready status)
unfolding ready add_or_update_status_conditions add_or_update_from
ready-add_or_update now status new =
    ready_in-find (updated_list now status.conditions new)
    ∙ ap is_true (find-add_or_update now status.conditions new condition_ready).0
    ∙ (elim (Bool-cases (new.type == condition_ready)) [
      | inl same ↦ rw (same, status-merged now (find new.type status.conditions) new)
      | inr other ↦ rw (other, ready_in-find status.conditions)
    ])
