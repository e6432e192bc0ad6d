-- ===== src/Condition.antt =====
-- pkg/condition/condition.go: the list of status conditions.
pub mod Laws
pub mod Invariant
pub mod Readiness
use authorino_operator.Prelude.{
  Bool, true, false, ◌&&◌, ◌||◌, Option, none, some, List, [], ◌∷◌, ◌++◌, ◌==◌, if◌then◌else◌,
}
use authorino_operator.Kube.{Time}
use authorino_operator.Api.{Condition}

-- the test "Nothing changed. No need to update."
abbrev pub same_content : Condition → Condition → Bool
same_content c new = c.status == new.status && c.reason == new.reason && c.message == new.message

-- The new condition carries the time of the call, or the old time if the status is the same.
abbrev keep_time : Condition → Condition → Condition
keep_time c new =
    if new.status == c.status
    then record new { last_transition_time = c.last_transition_time }
    else new

-- one round of the `range` loop, at a condition of the new one's type
unfoldable pub revise : Condition → Condition → Condition × Bool
revise c new = if same_content c new then (c, false) else (keep_time c new, true)

abbrev pub before : Condition → Option (List Condition × Bool) → Option (List Condition × Bool)
before c none = none
before c (some (rest, updated)) = some (c ∷ rest, updated)

-- The loop: `none` if no condition has the type of the new one.
unfoldable pub update_existing : List Condition → Condition → Option (List Condition × Bool)
unfolding revise
update_existing [] new = none
update_existing (c ∷ rest) new =
    if c.type == new.type
    then some ((revise c new).0 ∷ rest, (revise c new).1)
    else before c (update_existing rest new)

abbrev pub or_appended :
    List Condition → Condition → Option (List Condition × Bool) → List Condition × Bool
or_appended conditions new none = (conditions ++ new ∷ [], true)
or_appended conditions new (some result) = result

-- `addOrUpdateStatusCondition`, with what `v1.Now()` answers. A nil list is the empty one: both
-- give the list of the new condition alone.
unfoldable pub add_or_update_status_condition :
    Time → List Condition → Condition → List Condition × Bool
unfolding update_existing
add_or_update_status_condition now conditions new =
    let stamped = record new { last_transition_time = now } in
    or_appended conditions stamped (update_existing conditions stamped)

-- the loop of `AddOrUpdateStatusConditions`; each new condition comes with the time of its round
unfoldable pub add_or_update_from :
    List Condition → Bool → List (Time × Condition) → List Condition × Bool
unfolding add_or_update_status_condition
add_or_update_from conditions at_least_one [] = (conditions, at_least_one)
add_or_update_from conditions at_least_one ((now, new) ∷ rest) =
    let (conditions', updated) = add_or_update_status_condition now conditions new in
    add_or_update_from conditions' (at_least_one || updated) rest

unfoldable pub add_or_update_status_conditions :
    List Condition → List (Time × Condition) → List Condition × Bool
unfolding add_or_update_from
add_or_update_status_conditions conditions new = add_or_update_from conditions false new
