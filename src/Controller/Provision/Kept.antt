-- ===== src/Controller/Provision/Kept.antt =====
-- The policy of keeping objects that exist, whoever is reconciled.
use authorino_operator.Prelude.{List, All, All-IsIn, IsIn}
use authorino_operator.Kube.{Kind, Object, ObjectKey, kind_of, object_key}
use authorino_operator.Api.{Authorino}
use authorino_operator.Reconcilers.Pod.{authorino_deployment}
use authorino_operator.Reconcilers.Action.{AuthorinoReconciler, Call, Context}
use authorino_operator.Reconcilers.Action.Keeps.{Allows, Issues, Policy, any_end}
use authorino_operator.Reconcilers.Resource.Laws.{AllowsWrites}
use authorino_operator.Reconcilers.Components.{desired_services}
use authorino_operator.Reconcilers.Safety.Parts.{AllowsParts, AllowsPermissions}
use authorino_operator.Reconcilers.Presence.{Has, Promises, holds}
use authorino_operator.Reconcilers.Permissions.Legacy.{Fits}
use authorino_operator.Controller.{install}
use authorino_operator.Controller.Keeps.{install_parts-Issues}
use authorino_operator.Controller.Preflight.{Servers}
use authorino_operator.Controller.Provision.Survival.{instance_keys-Survive}
use authorino_operator.Controller.Provision.{Survives, instance_keys, parts-holds}

-- no call that creates one of the objects
abbrev pub CreatesNoneOf : List (Kind × ObjectKey) → Call → Type 0
CreatesNoneOf keys (Call.create obj) = ¬ (IsIn (kind_of obj, object_key obj) keys)
CreatesNoneOf keys _ = Unit

module _ {W : Type 0} (r : AuthorinoReconciler W) (promises : Promises r)
    (keys : List (Kind × ObjectKey)) where
  -- All the objects exist, and none of them was created.
  abbrev pub kept : Policy W
  kept = record {
    Good = λ s.
        ((x : Kind × ObjectKey) → IsIn x keys → Has r x.0 x.1 s.world)
        × All (CreatesNoneOf keys) s.calls;
    may_panic = Unit;
  }

  pub Allows-kept :
      {A : Type 0} (c : Call) (answer : W → A × W)
      → CreatesNoneOf keys c
      → ((x : Kind × ObjectKey) → IsIn x keys → Allows (holds r x.0 x.1) c answer)
      → Allows kept c answer
  Allows-kept c answer harmless each = record {
    at = λ s (has, calls). (λ x i. (each x i).at s (has x i), (harmless, calls));
  }

  -- What is created was not found, so it is none of the objects.
  AllowsWrites-kept :
      (obj : Object)
      → ((x : Kind × ObjectKey) → IsIn x keys → AllowsWrites r obj (holds r x.0 x.1))
      → AllowsWrites r obj kept
  AllowsWrites-kept obj each = record {
    creates = λ u s unread (has, calls). (
      λ x i. (each x i).creates u s unread (has x i),
      (
        λ listed.
            let (w, e, is, same) = unread in
            let (found_obj, is_found) = has _ listed in
            let reads = promises.get_reads (kind_of obj) (object_key obj) w in
            cc (is, same, reads, is_found),
        calls,
      ),
    );
    applies = λ u. Allows-kept _ _ tt (λ x i. (each x i).applies u);
    deletes = λ t. Allows-kept _ _ tt (λ x i. (each x i).deletes t);
  }

  module _ (ctx : Context) (authorino : Authorino)
      (each : (x : Kind × ObjectKey)
        → IsIn x keys
        → AllowsParts r ctx authorino (holds r x.0 x.1)) where
    permissions-kept : AllowsPermissions r ctx authorino kept
    permissions-kept = record {
      wide = λ wide. AllowsWrites-kept _ (λ x i. (each x i).permissions.wide wide);
      not_wide = λ narrow. AllowsWrites-kept _ (λ x i. (each x i).permissions.not_wide narrow);
      not_namespaced = λ wide owned.
          AllowsWrites-kept _ (λ x i. (each x i).permissions.not_namespaced wide owned);
      namespaced = λ narrow owned.
          AllowsWrites-kept _ (λ x i. (each x i).permissions.namespaced narrow owned);
      auth = AllowsWrites-kept _ (λ x i. (each x i).permissions.auth);
      leader_role = λ owned. AllowsWrites-kept _ (λ x i. (each x i).permissions.leader_role owned);
      leader = λ owned. AllowsWrites-kept _ (λ x i. (each x i).permissions.leader owned);
      looks = λ key. Allows-kept _ _ tt (λ x i. (each x i).permissions.looks key);
      cleans = (
        λ binding w is own.
            Allows-kept _ _ tt (λ x i. (each x i).permissions.cleans.0 binding w is own),
        (
          λ binding w is own.
              Allows-kept _ _ tt (λ x i. (each x i).permissions.cleans.1.0 binding w is own),
          tt,
        ),
      );
    }

    -- What the parts may do over the policy of each object, they may do over that of all.
    pub parts-kept : AllowsParts r ctx authorino kept
    unfolding desired_services
    parts-kept = record {
      reports = record {
        reads = λ kind key. Allows-kept _ _ tt (λ x i. (each x i).reports.reads kind key);
        clocks = record {
          at = λ s (has, calls). (λ x i. (each x i).reports.clocks.at s (has x i), calls);
        };
        reports = λ patch n ns. Allows-kept _ _ tt (λ x i. (each x i).reports.reports patch n ns);
      };
      services = (
        AllowsWrites-kept _ (λ x i. (each x i).services.0),
        (
          AllowsWrites-kept _ (λ x i. (each x i).services.1.0),
          (AllowsWrites-kept _ (λ x i. (each x i).services.1.1.0), tt),
        ),
      );
      service_account = λ owned. AllowsWrites-kept _ (λ x i. (each x i).service_account owned);
      permissions = permissions-kept;
      deployment = λ deployment built owned.
          AllowsWrites-kept _ (λ x i. (each x i).deployment deployment built owned);
      unbuildable = any_end (authorino_deployment r.process authorino);
    }

module _ {W : Type 0} (r : AuthorinoReconciler W) (promises : Promises r) (authorino : Authorino)
    (fits : Fits authorino) where
  -- An installation keeps the objects of its own instance.
  pub install-keeps :
      (ctx : Context) (servers : Servers)
      → Issues (kept r promises (instance_keys r authorino)) (install r ctx servers authorino)
  install-keeps ctx servers =
      install_parts-Issues r ctx authorino
        (parts-kept r promises (instance_keys r authorino) ctx authorino (λ x i.
          parts-holds r promises ctx authorino x.0 x.1 (
            All-IsIn (λ (y : Kind × ObjectKey). Survives r promises ctx authorino y.0 y.1)
              (instance_keys r authorino) x (instance_keys-Survive r promises ctx authorino fits)
              i)))
        servers
