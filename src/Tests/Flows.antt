-- ===== src/Tests/Flows.antt =====
-- Whole reconciliations.
use authorino_operator.Prelude.{
  some, Option, List, String, ◌++◌, ◌==◌, eq_refl, Bool-cases, inl, inr, arith, ◌≡◌, refl, true,
  false, All, none, [], ◌∷◌,
}
use authorino_operator.Kube.{kind_of, object_key, Object, lookup}
use authorino_operator.Api.{Authorino}
use authorino_operator.Reconcilers.Outcome.{Returns}
use authorino_operator.Reconcilers.Action.{failed, Call, State, pure, perform, ◌>>=◌}
use authorino_operator.Reconcilers.Pod.Laws.{HasSecrets}
use authorino_operator.Reconcilers.Privilege.{Permitted}
use authorino_operator.Reconcilers.Resource.{reconcile_resource}
use authorino_operator.Reconcilers.Resource.Course.{Follows, reconcile_resource-Follows}
use authorino_operator.Reconcilers.Components.{leader_election_role}
use authorino_operator.Reconcilers.Resource.{
  Crud, create_resource, is_object_tagged_to_delete, reconcile_answer, reconcile_missing,
}
use authorino_operator.Reconcilers.Resource.Convergence.{IsReached, reconcile_resource-IsReached}
use authorino_operator.Controller.Gate.{LeavesDeployment, calls-install_gated}
use authorino_operator.Controller.Preflight.{
  listener_first, check_servers, check_secret, secret_answer, installation_preflight_check,
}
use authorino_operator.Controller.{install, reconcile}
use authorino_operator.Controller.Laws.{calls-install, installation_preflight_check-HasSecrets}
use authorino_operator.Controller.Lifecycle.{reconcile-Returns}
use authorino_operator.Tests.Fixtures.{
  keeper, not_found, contains_finalizer, add_finalizer, remove_finalizer, contains_text,
  without_text, cluster, cluster_with, cr, cr_key, ctx, start,
}

contains_text-append : (xs : List String) (t : String) → contains_text (xs ++ t ∷ []) t ≡ true
contains_text-append [] t = rw eq_refl refl
contains_text-append (x ∷ xs) t = ground (arith, contains_text-append xs t)

contains_text-without_text :
    (xs : List String) (t : String) → contains_text (without_text xs t) t ≡ false
contains_text-without_text [] t = refl
contains_text-without_text (x ∷ xs) t = elim (Bool-cases (x == t)) [
  | inl same ↦ rw same (contains_text-without_text xs t)
  | inr other ↦ rw (other, other) (contains_text-without_text xs t)
]

-- the promises of controllerutil, at the fixtures
pub adds : (a : Authorino) (f : String) → contains_finalizer (add_finalizer a f) f ≡ true
adds a f = elim (Bool-cases (contains_finalizer a f)) [
  | inl there ↦ rw there there
  | inr missing ↦ rw missing (contains_text-append a.meta.finalizers f)
]

pub removes : (a : Authorino) (f : String) → contains_finalizer (remove_finalizer a f) f ≡ false
removes a f = contains_text-without_text a.meta.finalizers f

calls-install_example : All (Permitted cr) (install cluster ctx listener_first cr start).1.calls
calls-install_example = calls-install cluster ctx listener_first cr start tt

reconcile-Returns_example : Returns (reconcile cluster listener_first cr_key start).0
reconcile-Returns_example = reconcile-Returns cluster listener_first cr_key refl start

reconcile_resource-Follows_example :
    Follows keeper
      (leader_election_role cr)
      (failed not_found)
      (record {
        world = none;
        calls =
            Call.get (kind_of (leader_election_role cr)) (object_key (leader_election_role cr))
            ∷ [];
      })
      (reconcile_resource keeper ctx
        (leader_election_role cr)
        (record { world = none; calls = [] }))
reconcile_resource-Follows_example =
    reconcile_resource-Follows keeper ctx (leader_election_role cr)
      (record { world = none; calls = [] }) refl

-- the secret of the listener
abbrev secret : Object
secret = Object.secret cr.meta

installation_preflight_check-HasSecrets_example : HasSecrets cr
unfolding installation_preflight_check check_servers check_secret secret_answer ◌>>=◌
installation_preflight_check-HasSecrets_example =
    installation_preflight_check-HasSecrets (cluster_with secret) ctx cr listener_first start refl

-- a server without an object
abbrev empty : State (Option Object)
empty = record { world = none; calls = [] }

reconcile_resource-IsReached_example :
    IsReached keeper
      (leader_election_role cr)
      (is_object_tagged_to_delete (leader_election_role cr))
      (reconcile_resource keeper ctx (leader_election_role cr) empty).1.world
unfolding reconcile_resource reconcile_answer reconcile_missing create_resource
    is_object_tagged_to_delete leader_election_role lookup pure perform ◌>>=◌
reconcile_resource-IsReached_example =
    reconcile_resource-IsReached keeper ctx (leader_election_role cr) (λ w. refl)
      (λ w h. (leader_election_role cr, refl)) (λ w h. (leader_election_role cr, refl))
      (λ w h. (not_found, refl, refl)) empty {crud = Crud.create}
      {obj = some (leader_election_role cr)} refl

-- The fixture's server knows no cluster role.
calls-install_gated_example :
    All LeavesDeployment (install cluster ctx listener_first cr start).1.calls
calls-install_gated_example =
    calls-install_gated cluster ctx cr (λ w. (not_found, refl)) listener_first start tt
