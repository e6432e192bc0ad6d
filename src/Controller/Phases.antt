-- ===== src/Controller/Phases.antt =====
-- The life of a CR as a state machine: its phases, the steps between them, and what a reconciliation
-- may do in which phase.
use authorino_operator.Prelude.{
  ◌≡◌, ◌⊎◌, refl, String, Bool, true, false, none, All, ap, ◌∙◌, ◌&&◌, not, inl, inr, if◌then◌else◌,
}
use authorino_operator.Kube.{Object, ObjectKey}
use authorino_operator.Api.{Authorino}
use authorino_operator.Reconcilers.Pod.{authorino_deployment}
use authorino_operator.Reconcilers.Action.{AuthorinoReconciler, Call, Context, State, pure}
use authorino_operator.Reconcilers.Action.Keeps.{
  any_end, Allows-making, Issues, Issues-bind, Issues-perform, Issues-pure, Policy, making,
}
use authorino_operator.Reconcilers.Resource.Laws.{AllowsWrites, AllowsWrites-making}
use authorino_operator.Reconcilers.Safety.{AllowsReports, AllowsReports-making}
use authorino_operator.Reconcilers.Safety.Parts.{AllowsParts, AllowsPermissions}
use authorino_operator.Reconcilers.Components.{desired_services}
use authorino_operator.Controller.Preflight.{Servers}
use authorino_operator.Controller.{
  authorino_finalizer, cleanup_cluster_scoped_permissions, finalize, install, is_some,
  reconcile_instance, register_finalizer, result,
}
use authorino_operator.Controller.Keeps.{install_parts-Issues}

-- A CR without the finalizer, with it, deleted with it, and deleted without it.
pub data Phase : Type 0 where
  fresh registered deleting released : Phase

abbrev phase_by : Bool → Bool → Phase
phase_by false false = Phase.fresh
phase_by false true = Phase.registered
phase_by true true = Phase.deleting
phase_by true false = Phase.released

abbrev pub phase_of : {W : Type 0} → AuthorinoReconciler W → Authorino → Phase
phase_of r a =
    phase_by (is_some a.meta.deletion_timestamp) (r.contains_finalizer a authorino_finalizer)

-- The steps that the operator itself takes.
pub data Transition : Phase → Phase → Type 0 where
  register : Transition Phase.fresh Phase.registered
  release : Transition Phase.deleting Phase.released

-- What may be called for a CR in its phase: objects are created, applied and reported on only while
-- it is registered, deleted only then or while it is being deleted, and the CR is updated only by a
-- step.
abbrev pub Legal : {W : Type 0} → AuthorinoReconciler W → Authorino → Call → Type 0
Legal r a (Call.create obj) = phase_of r a ≡ Phase.registered
Legal r a (Call.update_object obj) = phase_of r a ≡ Phase.registered
Legal r a (Call.apply obj) = phase_of r a ≡ Phase.registered
Legal r a (Call.patch_status patch) = phase_of r a ≡ Phase.registered
Legal r a (Call.delete obj preconditions) =
    (phase_of r a ≡ Phase.registered) ⊎ (phase_of r a ≡ Phase.deleting)
Legal r a (Call.update b) = Transition (phase_of r a) (phase_of r b)
Legal r a _ = Unit

-- What the functions of controllerutil promise: a finalizer that was added is contained, one that was
-- removed is not, and neither function deletes or revives the object.
pub record Finalizers {W : Type 0} (r : AuthorinoReconciler W) : Type 0 where
  pub adds : (a : Authorino) (f : String) → r.contains_finalizer (r.add_finalizer a f) f ≡ true
  pub add_keeps :
      (a : Authorino) (f : String)
      → (r.add_finalizer a f).meta.deletion_timestamp ≡ a.meta.deletion_timestamp
  pub removes :
      (a : Authorino) (f : String) → r.contains_finalizer (r.remove_finalizer a f) f ≡ false
  pub remove_keeps :
      (a : Authorino) (f : String)
      → (r.remove_finalizer a f).meta.deletion_timestamp ≡ a.meta.deletion_timestamp

phase-eq :
    {W : Type 0} (r : AuthorinoReconciler W) (a : Authorino) (deleted held : Bool)
    → is_some a.meta.deletion_timestamp ≡ deleted
    → r.contains_finalizer a authorino_finalizer ≡ held
    → phase_of r a ≡ phase_by deleted held
phase-eq r a deleted held e e' = cc (e, e')

Transition-by : (p p' q q' : Phase) → p ≡ p' → q ≡ q' → Transition p' q' → Transition p q
Transition-by p p' q q' e e' t = rw (e, e') t

module _ {W : Type 0} (r : AuthorinoReconciler W) (authorino : Authorino) where
  abbrev legal : Policy W
  legal = making (Legal r authorino) Unit

  module _ (alive : phase_of r authorino ≡ Phase.registered) where
    writes-legal : (obj : Object) → AllowsWrites r obj legal
    writes-legal obj = AllowsWrites-making r obj (λ u. alive) (λ u. alive) (λ t. inl alive)

    reports-legal : AllowsReports r authorino legal
    reports-legal = AllowsReports-making r authorino (λ kind key. tt) (λ patch n ns. alive)

    permissions-legal : (ctx : Context) → AllowsPermissions r ctx authorino legal
    permissions-legal ctx = record {
      wide = λ wide. writes-legal _;
      not_wide = λ namespaced. writes-legal _;
      not_namespaced = λ wide owned. writes-legal _;
      namespaced = λ namespaced owned. writes-legal _;
      auth = writes-legal _;
      leader_role = λ owned. writes-legal _;
      leader = λ owned. writes-legal _;
      looks = λ key. Allows-making _ _ tt;
      cleans = (
        λ binding w is own. Allows-making _ _ (inl alive),
        (λ binding w is own. Allows-making _ _ (inl alive), tt),
      );
    }

    parts-legal : (ctx : Context) → AllowsParts r ctx authorino legal
    unfolding desired_services
    parts-legal ctx = record {
      reports = reports-legal;
      services = (writes-legal _, (writes-legal _, (writes-legal _, tt)));
      service_account = λ owned. writes-legal _;
      permissions = permissions-legal ctx;
      deployment = λ d built owned. writes-legal _;
      unbuildable = any_end (authorino_deployment r.process authorino);
    }

    install-legal :
        (ctx : Context) (servers : Servers) → Issues legal (install r ctx servers authorino)
    install-legal ctx servers = install_parts-Issues r ctx authorino (parts-legal ctx) servers

  module _ (finalizers : Finalizers r) where
    finalize-legal :
        (key : ObjectKey)
        → is_some authorino.meta.deletion_timestamp ≡ true
        → r.contains_finalizer authorino authorino_finalizer ≡ true
        → Issues legal (finalize r key authorino)
    unfolding finalize cleanup_cluster_scoped_permissions
    finalize-legal key deleted held =
        let phase = phase-eq r authorino true true deleted held in
        let after =
          phase-eq r (r.remove_finalizer authorino authorino_finalizer) true false
            (ap is_some (finalizers.remove_keeps authorino authorino_finalizer) ∙ deleted)
            (finalizers.removes authorino authorino_finalizer) in
        Issues-bind _ _
          (Issues-bind _ _ (Issues-perform _ _ (Allows-making _ _ (inr phase))) (λ err.
            Issues-bind _ _ (Issues-perform _ _ (Allows-making _ _ (inr phase)))
              (λ err. Issues-pure tt)))
          (λ done.
            Issues-bind _ _
              (Issues-perform _ _
                (Allows-making _ _ (Transition-by _ _ _ _ phase after Transition.release)))
              (λ err. Issues-pure _))

    register_finalizer-legal :
        is_some authorino.meta.deletion_timestamp ≡ false
        → r.contains_finalizer authorino authorino_finalizer ≡ false
        → Issues legal (register_finalizer r authorino)
    unfolding register_finalizer
    register_finalizer-legal alive free =
        let phase = phase-eq r authorino false false alive free in
        let after =
          phase-eq r (r.add_finalizer authorino authorino_finalizer) false true
            (ap is_some (finalizers.add_keeps authorino authorino_finalizer) ∙ alive)
            (finalizers.adds authorino authorino_finalizer) in
        Issues-bind _ _
          (Issues-perform _ _
            (Allows-making _ _ (Transition-by _ _ _ _ phase after Transition.register)))
          (λ err. Issues-pure _)

    -- the four branches, by the two tests that they are chosen by
    branch-legal :
        (deleted held : Bool) (ctx : Context) (servers : Servers) (key : ObjectKey)
        → is_some authorino.meta.deletion_timestamp ≡ deleted
        → r.contains_finalizer authorino authorino_finalizer ≡ held
        → Issues legal (
            if deleted && held
            then finalize r key authorino
            else if deleted
            then pure (result none)
            else if not held
            then register_finalizer r authorino
            else install r ctx servers authorino)
    branch-legal true true ctx servers key d h = finalize-legal key d h
    branch-legal true false ctx servers key d h = Issues-pure _
    branch-legal false false ctx servers key d h = register_finalizer-legal d h
    branch-legal false true ctx servers key d h =
        install-legal (phase-eq r authorino false true d h) ctx servers

    -- A reconciliation of a CR follows its life: if the calls before are legal for the CR, so are all,
    -- whatever the server answers. Objects are created, applied and reported on only for a CR that
    -- has the finalizer and is not deleted, objects are deleted only for a CR that has the finalizer,
    -- and the CR is updated only to give it the finalizer if it is fresh, and to take it off if it is
    -- being deleted.
    pub calls-reconcile_instance-Legal :
        (ctx : Context) (servers : Servers) (key : ObjectKey) (s : State W)
        → All (Legal r authorino) s.calls
        → All (Legal r authorino) (reconcile_instance r ctx servers key authorino s).1.calls
    unfolding reconcile_instance
    calls-reconcile_instance-Legal ctx servers key s h =
        ((branch-legal _ _ ctx servers key refl refl).at s).0 h
