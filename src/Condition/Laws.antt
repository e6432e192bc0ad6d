-- ===== src/Condition/Laws.antt =====
-- What an update of the status conditions does to the list.
use authorino_operator.Prelude.{
  ◌&&◌, ◌≡◌, refl, String, Bool, true, not, Option, none, some, List, [], ◌∷◌, ◌++◌, arith, eq_iff,
  ◌==◌, ◌∙◌, if◌then◌else◌, Bool-cases, ap, subst, sym, inl, inr,
}
use authorino_operator.Kube.{Time}
use authorino_operator.Api.{Condition}
use authorino_operator.Condition.{
  add_or_update_status_condition, or_appended, revise, update_existing,
}

-- The first condition of a type: what a reader of the status finds.
unfoldable pub find : String → List Condition → Option Condition
find t [] = none
find t (c ∷ rest) = if c.type == t then some c else find t rest

-- the two results of an update
abbrev pub updated_list : Time → List Condition → Condition → List Condition
updated_list now conditions new = (add_or_update_status_condition now conditions new).0

abbrev pub was_updated : Time → List Condition → Condition → Bool
was_updated now conditions new = (add_or_update_status_condition now conditions new).1

-- The condition that stands in the list after the update, by what stood there before.
abbrev pub merged : Time → Option Condition → Condition → Condition
merged now none new = record new { last_transition_time = now }
merged now (some c) new =
    if c.status == new.status && c.reason == new.reason && c.message == new.message
    then c
    else if new.status == c.status
    then record new { last_transition_time = c.last_transition_time }
    else record new { last_transition_time = now }

abbrev pub content_changes : Option Condition → Condition → Bool
content_changes none new = true
content_changes (some c) new =
    not (c.status == new.status && c.reason == new.reason && c.message == new.message)

-- The list with the first condition of the new one's type revised.
unfoldable pub replaced : List Condition → Condition → List Condition
replaced [] new = []
replaced (c ∷ rest) new =
    if c.type == new.type then (revise c new).0 ∷ rest else c ∷ replaced rest new

-- what the loop returns, by the condition that it finds
abbrev pub loop_result :
    List Condition → Condition → Option Condition → Option (List Condition × Bool)
loop_result conditions new none = none
loop_result conditions new (some c) = some (replaced conditions new, (revise c new).1)

update_existing_lem :
    (conditions : List Condition) (new : Condition)
    → update_existing conditions new ≡ loop_result conditions new (find new.type conditions)
unfolding find update_existing replaced
update_existing_lem [] new = refl
update_existing_lem (c ∷ rest) new = elim (Bool-cases (c.type == new.type)) [
  | inl same ↦ ground arith
  | inr other ↦ rw (other, update_existing_lem rest new) (ground arith)
]

pub revise-type : (c new : Condition) → c.type ≡ new.type → (revise c new).0.type ≡ new.type
unfolding revise
revise-type c new e = ground arith

abbrev revised : Condition → Option Condition → Option Condition
revised new none = none
revised new (some c) = some (revise c new).0

pub find-replaced :
    (conditions : List Condition) (new : Condition) (t : String)
    → find t (replaced conditions new)
      ≡ (if new.type == t then revised new (find new.type conditions) else find t conditions)
unfolding find replaced
find-replaced [] new t = ground arith
find-replaced (c ∷ rest) new t = elim (Bool-cases (c.type == new.type)) [
  | inl same ↦ rw same (
      rw (revise-type c new ((eq_iff _ _).0 same))
        (ground (arith, eq_iff c.type new.type, eq_iff c.type t, eq_iff new.type t)))
  | inr other ↦ rw other (
      ground (
        arith,
        find-replaced rest new t,
        eq_iff c.type new.type,
        eq_iff c.type t,
        eq_iff new.type t,
      ))
]

pub find-append_one :
    (conditions : List Condition) (new : Condition) (t : String)
    → find new.type conditions ≡ none
    → find t (conditions ++ new ∷ []) ≡ (if new.type == t then some new else find t conditions)
unfolding find
find-append_one [] new t h = refl
find-append_one (c ∷ rest) new t h =
    ground (
      arith,
      find-append_one rest new t,
      eq_iff c.type new.type,
      eq_iff c.type t,
      eq_iff new.type t,
    )

abbrev pub stamped : Time → Condition → Condition
stamped now new = record new { last_transition_time = now }

pub add_or_update_lem :
    (now : Time) (conditions : List Condition) (new : Condition)
    → add_or_update_status_condition now conditions new
      ≡ or_appended conditions
          (stamped now new)
          (loop_result conditions (stamped now new) (find new.type conditions))
unfolding add_or_update_status_condition
add_or_update_lem now conditions new =
    ap (or_appended conditions (stamped now new)) (update_existing_lem conditions (stamped now new))

abbrev ReadsAs :
    Time → List Condition → Condition → String → Option Condition → List Condition × Bool → Type 0
ReadsAs now conditions new t old p =
    (find t p.0 ≡ (if new.type == t then some (merged now old new) else find t conditions))
    × (p.1 ≡ content_changes old new)

reads_as :
    (now : Time) (conditions : List Condition) (new : Condition) (t : String)
    (old : Option Condition)
    → find new.type conditions ≡ old
    → ReadsAs now conditions new t old
        (or_appended conditions (stamped now new) (loop_result conditions (stamped now new) old))
unfolding revise
reads_as now conditions new t none e = (find-append_one conditions (stamped now new) t e, refl)
reads_as now conditions new t (some c) e =
    (find-replaced conditions (stamped now new) t ∙ rw e (ground arith), ground arith)

-- After an update a reader finds, at the type of the new condition, the merge of the new condition
-- with the one that stood there: the old one if status, reason and message are the same, else the
-- new one, with the old time if the status is the same and the current time if not. Every other type
-- reads as before, and the flag says whether the content at the type changed.
pub find-add_or_update :
    (now : Time) (conditions : List Condition) (new : Condition) (t : String)
    → (find t (updated_list now conditions new) ≡ (
        if new.type == t
        then some (merged now (find new.type conditions) new)
        else find t conditions))
      × (was_updated now conditions new ≡ content_changes (find new.type conditions) new)
find-add_or_update now conditions new t =
    subst (ReadsAs now conditions new t (find new.type conditions))
      (sym (add_or_update_lem now conditions new)) (reads_as now conditions new t _ refl)
