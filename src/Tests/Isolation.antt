-- ===== src/Tests/Isolation.antt =====
-- Two instances in one namespace: the one is deleted between two installations of the other.
use authorino_operator.Prelude.{
  subst, sym, refl, ◌≡◌, ◌∙◌, List, String, ◌≢◌, false≢true, ap, ◌==◌, arith, All, some, [], ◌∷◌,
}
use authorino_operator.Kube.{Kind, ObjectKey, named}
use authorino_operator.Api.{Authorino}
use authorino_operator.Reconcilers.Action.{State}
use authorino_operator.Reconcilers.Presence.{Has}
use authorino_operator.Reconcilers.Permissions.Apart.{AreApart}
use authorino_operator.Controller.{authorino_finalizer, install, reconcile_instance}
use authorino_operator.Controller.Isolation.{key_of}
use authorino_operator.Controller.Isolation.Interleaved.{Interleaves, Interleaves-Keeps}
use authorino_operator.Controller.Isolation.Meet.{MeetsOnlyAtRole, calls-install-MeetsOnlyAtRole}
use authorino_operator.Reconcilers.Safety.Writing.{WritesOnly}
use authorino_operator.Controller.Provision.Kept.{CreatesNoneOf}
use authorino_operator.Controller.Preflight.{listener_first}
use authorino_operator.Controller.Provision.{instance_keys}
use authorino_operator.Controller.Provision.Laws.{install-HasInstance}
use authorino_operator.Tests.Fixtures.{cr, ctx}
use authorino_operator.Tests.Provision.{first_done, installed}
use authorino_operator.Tests.Store.{Entry, store, stored, store-Promises}

abbrev other : Authorino
other = record cr {
  meta = record (named "gateway" "apps" (some [])) {
    finalizers = authorino_finalizer ∷ [];
    deletion_timestamp = some 5;
  };
}

names_differ : ◌≢◌ {A = String} "auth" "gateway"
names_differ e = false≢true (ap (λ name. name == "gateway") e)

not_dotted : ◌≢◌ {A = String} "gateway" "apps.auth"
not_dotted e = false≢true (ap (λ name. name == "apps.auth") e)

apart : AreApart cr other
apart = record {
  no_dot = (omega arith, (omega arith, (omega arith, (omega arith, tt))));
  no_dot' = (omega arith, (omega arith, (omega arith, (omega arith, tt))));
  fits = omega arith;
  fits' = omega arith;
  different = λ same. names_differ;
}

-- the other is deleted, and the first is installed once more
abbrev after_both : State (List Entry)
after_both =
    (install store ctx listener_first cr
      (reconcile_instance store ctx listener_first (key_of other) other first_done).1).1

Interleaves-Keeps_example :
    All (λ (x : Kind × ObjectKey). Has store x.0 x.1 after_both.world) (instance_keys store cr)
    × All (CreatesNoneOf (instance_keys store cr)) after_both.calls
Interleaves-Keeps_example =
    Interleaves-Keeps store cr (λ b. b ≡ other) first_done after_both store-Promises (omega arith)
      (λ b is. subst (AreApart cr) (sym is) apart)
      (λ b is confused. not_dotted (sym (ap (λ (x : Authorino). x.meta.name) is) ∙ confused))
      (install-HasInstance store ctx listener_first cr stored store-Promises (omega arith)
        installed)
      tt
      (Interleaves.own ctx listener_first
        (Interleaves.beside ctx listener_first other refl Interleaves.done))

calls-install-MeetsOnlyAtRole_example :
    All
      (WritesOnly (MeetsOnlyAtRole store cr other))
      (install store ctx listener_first cr stored).1.calls
calls-install-MeetsOnlyAtRole_example =
    calls-install-MeetsOnlyAtRole store ctx listener_first cr other stored apart tt

-- the installed one is deleted
abbrev leaving : Authorino
leaving = record cr { meta = record cr.meta { deletion_timestamp = some 5 } }
