-- ===== src/Controller/Isolation/Interleaved.antt =====
-- What becomes of an instance while it and others are reconciled in any order.
use authorino_operator.Prelude.{All, All-IsIn, All-every, IsIn, none}
use authorino_operator.Kube.{Kind, ObjectKey}
use authorino_operator.Api.{Authorino}
use authorino_operator.Reconcilers.Consts.{
  authorino_k8s_auth_cluster_role_binding_name, authorino_k8s_auth_cluster_role_name,
  authorino_manager_cluster_role_binding_name, authorino_manager_cluster_role_name,
}
use authorino_operator.Reconcilers.Action.{AuthorinoReconciler, Context, State}
use authorino_operator.Reconcilers.Action.Keeps.{Issues, Policy}
use authorino_operator.Reconcilers.Permissions.Apart.{AreApart, IsConfused}
use authorino_operator.Reconcilers.Permissions.Legacy.{Fits}
use authorino_operator.Reconcilers.Presence.{Has, Promises, deletes-holds, updates-holds}
use authorino_operator.Controller.{cluster_scoped_binding, install, reconcile_instance}
use authorino_operator.Controller.Isolation.{IsSpared, instance_keys-IsSpared, key_of}
use authorino_operator.Controller.Keeps.{Removes, reconcile_instance-Issues}
use authorino_operator.Controller.Preflight.{Servers}
use authorino_operator.Controller.Provision.Kept.{
  Allows-kept, CreatesNoneOf, install-keeps, kept, parts-kept,
}
use authorino_operator.Controller.Provision.{instance_keys, parts-holds}

-- From one state to the other by installations of the instance and by reconciliations of others, be
-- they installed, finalized or given the finalizer, with whatever outcomes.
pub data Interleaves {W : Type 0} (r : AuthorinoReconciler W) (authorino : Authorino)
    (IsOther : Authorino → Type 0) (s : State W) : State W → Type 0 where
  done : Interleaves r authorino IsOther s s
  own :
      {t : State W} (ctx : Context) (servers : Servers)
      → Interleaves r authorino IsOther s t
      → Interleaves r authorino IsOther s (install r ctx servers authorino t).1
  beside :
      {t : State W} (ctx : Context) (servers : Servers) (b : Authorino)
      → IsOther b
      → Interleaves r authorino IsOther s t
      → Interleaves r authorino IsOther s (reconcile_instance r ctx servers (key_of b) b t).1

module _ {W : Type 0} (r : AuthorinoReconciler W) (promises : Promises r)
    (authorino : Authorino) where
  abbrev keeps : Policy W
  keeps = kept r promises (instance_keys r authorino)

  module _ (ctx : Context) (b : Authorino) (apart : AreApart authorino b)
      (not_old : ¬ IsConfused authorino b) where
    spared :
        (x : Kind × ObjectKey)
        → IsIn x (instance_keys r authorino)
        → IsSpared r promises ctx authorino b apart not_old x
    spared x i =
        All-IsIn (IsSpared r promises ctx authorino b apart not_old) (instance_keys r authorino) x
          (instance_keys-IsSpared r promises ctx authorino b apart not_old) i

    manager-Removes :
        Removes r ctx b keeps
          (key_of b)
          authorino_manager_cluster_role_binding_name
          authorino_manager_cluster_role_name
    unfolding cluster_scoped_binding
    manager-Removes =
        Allows-kept r promises (instance_keys r authorino) _ _ tt (λ x i.
          let (_, manager, _) = spared x i in deletes-holds r promises x.0 x.1 _ none manager)

    auth-Removes :
        Removes r ctx b keeps
          (key_of b)
          authorino_k8s_auth_cluster_role_binding_name
          authorino_k8s_auth_cluster_role_name
    unfolding cluster_scoped_binding
    auth-Removes =
        Allows-kept r promises (instance_keys r authorino) _ _ tt
          (λ x i. let (_, _, auth) = spared x i in deletes-holds r promises x.0 x.1 _ none auth)

    reconcile_instance-keeps :
        (servers : Servers) → Issues keeps (reconcile_instance r ctx servers (key_of b) b)
    reconcile_instance-keeps servers =
        reconcile_instance-Issues r ctx b servers (key_of b)
          (parts-kept r promises (instance_keys r authorino) ctx b (λ x i.
            let (survives, _, _) = spared x i in parts-holds r promises ctx b x.0 x.1 survives))
          (λ c.
            Allows-kept r promises (instance_keys r authorino) _ _ tt
              (λ x i. updates-holds r promises x.0 x.1 c))
          manager-Removes auth-Removes

  Interleaves-keeps :
      (IsOther : Authorino → Type 0) {s t : State W}
      → Fits authorino
      → ((b : Authorino) → IsOther b → AreApart authorino b)
      → ((b : Authorino) → IsOther b → ¬ IsConfused authorino b)
      → keeps.Good s
      → Interleaves r authorino IsOther s t
      → keeps.Good t
  Interleaves-keeps IsOther fits apart not_old h Interleaves.done = h
  Interleaves-keeps IsOther fits apart not_old h (Interleaves.own {t = t} ctx servers steps) =
      ((install-keeps r promises authorino fits ctx servers).at t).0
        (Interleaves-keeps IsOther fits apart not_old h steps)
  Interleaves-keeps IsOther fits apart not_old h
        (Interleaves.beside {t = t} ctx servers b other steps) =
      ((reconcile_instance-keeps ctx b (apart b other) (not_old b other) servers).at t).0
        (Interleaves-keeps IsOther fits apart not_old h steps)

-- If the server keeps its promises and only the operator writes to it, then an instance of which all
-- objects exist stays complete, and none of its objects is created again, while it is installed and
-- other CRs are reconciled, be they installed, finalized or given the finalizer, in any order and
-- number and with whatever outcomes. The names of the instance's cluster role bindings need not be
-- truncated. None of the others has both namespace and name in common with the instance, the
-- namespaces hold no ".", the names of the others' cluster role bindings need not be truncated
-- either, and no other is named by the instance's namespace, a "." and its name.
pub Interleaves-Keeps :
    {W : Type 0} (r : AuthorinoReconciler W) (authorino : Authorino) (IsOther : Authorino → Type 0)
    (s t : State W)
    → Promises r
    → Fits authorino
    → ((b : Authorino) → IsOther b → AreApart authorino b)
    → ((b : Authorino) → IsOther b → ¬ IsConfused authorino b)
    → All (λ (x : Kind × ObjectKey). Has r x.0 x.1 s.world) (instance_keys r authorino)
    → All (CreatesNoneOf (instance_keys r authorino)) s.calls
    → Interleaves r authorino IsOther s t
    → All (λ (x : Kind × ObjectKey). Has r x.0 x.1 t.world) (instance_keys r authorino)
      × All (CreatesNoneOf (instance_keys r authorino)) t.calls
Interleaves-Keeps r authorino IsOther s t promises fits apart not_old has calls steps =
    let (there, later) =
      Interleaves-keeps r promises authorino IsOther fits apart not_old
        (
          λ x i.
              All-IsIn (λ (y : Kind × ObjectKey). Has r y.0 y.1 s.world) (instance_keys r authorino)
                x has i,
          calls,
        )
        steps in
    (All-every _ (instance_keys r authorino) there, later)
