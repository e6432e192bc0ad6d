-- ===== src/Tests/Store.antt =====
-- A server that keeps objects under their keys: its state is what was written, the latest first. In
-- the beginning it has a certificate, the two cluster roles and a binding under an old name.
use authorino_operator.Prelude.{
  ◌≡◌, ◌≢◌, ◌⊎◌, refl, sym, ap, ◌∙◌, arith, ℕ, Bool, true, false, ◌&&◌, Option, none, some, List,
  [], ◌∷◌, inl, inr, ◌==◌, eq_iff, eq_refl, Bool-cases, subst, if◌then◌else◌, nat_beq,
}
use authorino_operator.Kube.{
  Binding, Kind, Object, ObjectMeta, OwnerReference, ObjectKey, kind_of, named, object_key,
}
use authorino_operator.Api.{Authorino}
use authorino_operator.Resources.Rbac.{rbac_version}
use authorino_operator.Reconcilers.Action.{
  Answer, AuthorinoReconciler, Err, State, errorf, failed, found,
}
use authorino_operator.Reconcilers.Permissions.Cleanup.{own_subject}
use authorino_operator.Reconcilers.Presence.{Has, Promises}
use authorino_operator.Reconcilers.Success.{NoErrors}
use authorino_operator.Controller.Clearance.{Deletions, IsGone, IsMissing}
use authorino_operator.Controller.Reclaim.{Controls}
use authorino_operator.Tests.Fixtures.{
  add_finalizer, contains_finalizer, cr, not_found, process, remove_finalizer,
}

abbrev number : Kind → ℕ
number Kind.deployment = 0
number Kind.service = 1
number Kind.service_account = 2
number Kind.cluster_role = 3
number Kind.cluster_role_binding = 4
number Kind.role_binding = 5
number Kind.role = 6
number Kind.secret = 7

abbrev same_kind : Kind → Kind → Bool
same_kind k k' = nat_beq (number k) (number k')

abbrev same_key : ObjectKey → ObjectKey → Bool
same_key k k' = k.namespace == k'.namespace && k.name == k'.name

-- what was written: an object, or that there is none
abbrev pub Entry : Type 0
Entry = Kind × ObjectKey × Option Object

abbrev is_under : Kind → ObjectKey → Entry → Bool
is_under kind key entry = same_kind entry.0 kind && same_key entry.1 key

abbrev answer : Kind → Option Object → Answer Object
answer kind none = failed not_found
answer kind (some obj) = if same_kind (kind_of obj) kind then found obj else failed not_found

abbrev read : Kind → ObjectKey → List Entry → Answer Object
read kind key [] = failed not_found
read kind key (entry ∷ rest) =
    if is_under kind key entry then answer kind entry.2 else read kind key rest

abbrev as_binding : ObjectKey → Answer Object → Answer Binding
as_binding key (found (Object.cluster_role_binding b)) =
    if same_key (object_key (Object.cluster_role_binding b)) key then found b else failed not_found
as_binding key _ = failed not_found

abbrev pub owner_of : Authorino → OwnerReference
owner_of authorino = record {
  kind = "Authorino";
  name = authorino.meta.name;
  uid = authorino.meta.uid;
  controller = true;
}

abbrev has_none : List OwnerReference → Bool
has_none [] = true
has_none (owner ∷ rest) = false

-- an object that exists is not created again
abbrev create_at : Answer Object → Object → List Entry → Err × List Entry
create_at (found obj') obj w = (some (errorf "already exists"), w)
create_at (failed e) obj w = (none, (kind_of obj, object_key obj, some obj) ∷ w)

-- an object that is missing is not deleted
abbrev delete_at : Answer Object → Object → List Entry → Err × List Entry
delete_at (found obj') obj w = (none, (kind_of obj, object_key obj, none) ∷ w)
delete_at (failed e) obj w = (some e, w)

-- The owner is put in front, if it is of the namespace and the object has no owner yet.
abbrev pub owned : Authorino → ObjectMeta → Err × List OwnerReference
owned authorino meta =
    if meta.namespace == authorino.meta.namespace && has_none meta.owner_references
    then (none, owner_of authorino ∷ meta.owner_references)
    else (some (errorf "cannot be owned"), meta.owner_references)

abbrev pub store : AuthorinoReconciler (List Entry)
store = record {
  get = λ kind key w. (read kind key w, w);
  get_cluster_role_binding = λ key w. (as_binding key (read Kind.cluster_role_binding key w), w);
  get_authorino = λ key w. (found cr, w);
  create = λ obj w. create_at (read (kind_of obj) (object_key obj) w) obj w;
  update_object = λ obj w. (none, (kind_of obj, object_key obj, some obj) ∷ w);
  apply = λ obj w. (none, (kind_of obj, object_key obj, some obj) ∷ w);
  delete = λ obj preconditions w. delete_at (read (kind_of obj) (object_key obj) w) obj w;
  update = λ authorino w. (none, w);
  patch_status = λ patch w. (none, w);
  now = λ w. (0, w);
  set_controller_reference = owned;
  contains_finalizer = contains_finalizer;
  add_finalizer = add_finalizer;
  remove_finalizer = remove_finalizer;
  process = process;
  sum256 = λ s. 1 ∷ 2 ∷ 3 ∷ 4 ∷ 5 ∷ 6 ∷ 7 ∷ 8 ∷ [];
}

abbrev entry : Object → Entry
entry obj = (kind_of obj, object_key obj, some obj)

abbrev pub stored : State (List Entry)
stored = record {
  world =
      entry (Object.secret (named "cert" "apps" none))
      ∷ entry (Object.cluster_role (named "authorino-manager-role" "" none))
      ∷ entry (Object.cluster_role (named "authorino-manager-k8s-auth-role" "" none))
      ∷ entry (
          Object.cluster_role_binding (record {
            type_meta = record { api_version = rbac_version; kind = "ClusterRoleBinding" };
            meta = named "auth-authorino" "" none;
            role_ref = record {
              api_group = "";
              name = "authorino-manager-role";
              kind = "ClusterRole";
            };
            subjects = own_subject cr ∷ [];
          }))
      ∷ [];
  calls = [];
}

abbrev kind_at : ℕ → Kind
kind_at n =
    if nat_beq n 0
    then Kind.deployment
    else if nat_beq n 1
    then Kind.service
    else if nat_beq n 2
    then Kind.service_account
    else if nat_beq n 3
    then Kind.cluster_role
    else if nat_beq n 4
    then Kind.cluster_role_binding
    else if nat_beq n 5
    then Kind.role_binding
    else if nat_beq n 6
    then Kind.role
    else Kind.secret

kind_at-number : (kind : Kind) → kind_at (number kind) ≡ kind
kind_at-number Kind.deployment = refl
kind_at-number Kind.service = refl
kind_at-number Kind.service_account = refl
kind_at-number Kind.cluster_role = refl
kind_at-number Kind.cluster_role_binding = refl
kind_at-number Kind.role_binding = refl
kind_at-number Kind.role = refl
kind_at-number Kind.secret = refl

nat_beq-eq : (m n : ℕ) → nat_beq m n ≡ true → m ≡ n
nat_beq-eq m n h = ground arith

nat_beq_refl : (n : ℕ) → nat_beq n n ≡ true
nat_beq_refl n = ground arith

and-true : (a b : Bool) → a && b ≡ true → (a ≡ true) × (b ≡ true)
and-true true b h = (refl, h)
and-true false b h = cc h

same_kind-eq : (k k' : Kind) → same_kind k k' ≡ true → k ≡ k'
same_kind-eq k k' h = sym (kind_at-number k) ∙ ap kind_at (nat_beq-eq _ _ h) ∙ kind_at-number k'

same_key-eq : (k k' : ObjectKey) → same_key k k' ≡ true → k ≡ k'
same_key-eq k k' h =
    let (ns, name) = and-true (k.namespace == k'.namespace) (k.name == k'.name) h in
    cc ((eq_iff k.namespace k'.namespace).0 ns, (eq_iff k.name k'.name).0 name)

is_under-own : (obj : Object) → is_under (kind_of obj) (object_key obj) (entry obj) ≡ true
is_under-own obj =
    rw
      (
        nat_beq_refl (number (kind_of obj)),
        eq_refl (object_key obj).namespace,
        eq_refl (object_key obj).name,
      )
      refl

-- a write that is no deletion of the object keeps it
read-keeps :
    (e : Entry) (kind : Kind) (key : ObjectKey) (w : List Entry)
    → (is_under kind key e ≡ true
        → (obj : Object) × (e.2 ≡ some obj) × (same_kind (kind_of obj) kind ≡ true))
    → Has store kind key w
    → Has store kind key (e ∷ w)
read-keeps e kind key w written (obj, is) = elim (Bool-cases (is_under kind key e)) [
  | inl hit ↦ let (obj', here, same) = written hit in (obj', rw (hit, here, same) refl)
  | inr miss ↦ (obj, rw miss is)
]

other-misses :
    (obj : Object) (kind : Kind) (key : ObjectKey)
    → (kind_of obj ≢ kind) ⊎ (object_key obj ≢ key)
    → is_under kind key (kind_of obj, object_key obj, none) ≢ true
other-misses obj kind key (inl other) h = other (same_kind-eq _ _ (and-true _ _ h).0)
other-misses obj kind key (inr other) h = other (same_key-eq _ _ (and-true _ _ h).1)

as_binding-key :
    (key : ObjectKey) (o : Answer Object) (b : Binding)
    → as_binding key o ≡ found b
    → object_key (Object.cluster_role_binding b) ≡ key
as_binding-key key (found (Object.cluster_role_binding b')) b h =
    let here : ObjectKey = object_key (Object.cluster_role_binding b') in
    elim (Bool-cases (same_key here key)) [
      | inl hit ↦
          let same : b' ≡ b = cc (rw hit at h) in
          let is : here ≡ key = same_key-eq here key hit in
          sym (ap (λ (x : Binding). object_key (Object.cluster_role_binding x)) same) ∙ is
      | inr miss ↦ cc (rw miss at h)
    ]
as_binding-key key o b h = cc h

create_at-Has :
    (o : Answer Object) (obj : Object) (w : List Entry)
    → (create_at o obj w).0 ≡ none
    → Has store (kind_of obj) (object_key obj) (create_at o obj w).1
create_at-Has (found obj') obj w ok = cc ok
create_at-Has (failed e) obj w ok =
    (obj, rw (is_under-own obj, nat_beq_refl (number (kind_of obj))) refl)

create_at-keeps :
    (o : Answer Object) (obj : Object) (kind : Kind) (key : ObjectKey) (w : List Entry)
    → Has store kind key w
    → Has store kind key (create_at o obj w).1
create_at-keeps (found obj') obj kind key w has = has
create_at-keeps (failed e) obj kind key w has =
    read-keeps (entry obj) kind key w (λ hit. (obj, refl, (and-true _ _ hit).0)) has

delete_at-keeps :
    (o : Answer Object) (obj : Object) (kind : Kind) (key : ObjectKey) (w : List Entry)
    → (kind_of obj ≢ kind) ⊎ (object_key obj ≢ key)
    → Has store kind key w
    → Has store kind key (delete_at o obj w).1
delete_at-keeps (found obj') obj kind key w other has =
    read-keeps (kind_of obj, object_key obj, none) kind key w
      (λ hit. absurd (other-misses obj kind key other hit)) has
delete_at-keeps (failed e) obj kind key w other has = has

pub store-Promises : Promises store
store-Promises = record {
  get_reads = λ kind key w. refl;
  binding_reads = λ key w. refl;
  binding_key = λ key w b h. as_binding-key key _ b h;
  creates = λ obj w ok. create_at-Has _ obj w ok;
  create_keeps = λ obj kind key w has. create_at-keeps _ obj kind key w has;
  apply_keeps = λ obj kind key w has.
      read-keeps (entry obj) kind key w (λ hit. (obj, refl, (and-true _ _ hit).0)) has;
  delete_keeps =
      λ obj preconditions kind key w other has. delete_at-keeps _ obj kind key w other has;
  update_keeps = λ authorino kind key w has. has;
  patch_status_keeps = λ patch kind key w has. has;
  now_keeps = λ kind key w has. has;
}

-- an answer of the store is of the kind that was asked for, or that there is nothing
abbrev IsAnswer : Kind → Answer Object → Type 0
IsAnswer kind (found obj) = kind_of obj ≡ kind
IsAnswer kind (failed e) = e.not_found ≡ true

answer-IsAnswer : (kind : Kind) (o : Option Object) → IsAnswer kind (answer kind o)
answer-IsAnswer kind none = refl
answer-IsAnswer kind (some obj) = elim (Bool-cases (same_kind (kind_of obj) kind)) [
  | inl same ↦ rw same (same_kind-eq (kind_of obj) kind same)
  | inr other ↦ rw other refl
]

read-IsAnswer : (kind : Kind) (key : ObjectKey) (w : List Entry) → IsAnswer kind (read kind key w)
read-IsAnswer kind key [] = refl
read-IsAnswer kind key (e ∷ rest) = elim (Bool-cases (is_under kind key e)) [
  | inl hit ↦ rw hit (answer-IsAnswer kind e.2)
  | inr miss ↦ rw miss (read-IsAnswer kind key rest)
]

pub store-NoErrors : NoErrors store cr
store-NoErrors = record {
  absent = λ kind key w e is. subst (IsAnswer kind) is (read-IsAnswer kind key w);
  typed = λ kind key w obj is. subst (IsAnswer kind) is (read-IsAnswer kind key w);
  creates = λ obj w e is. rw is refl;
  applies = λ obj obj' w is. refl;
  deletes = λ obj obj' w is. rw is refl;
  patches = λ patch w name namespace. refl;
  owners = λ meta namespace bare. rw (namespace, bare) refl;
}

pub store-Controls : Controls store cr
store-Controls meta ok =
    elim (Bool-cases (meta.namespace == cr.meta.namespace && has_none meta.owner_references)) [
      | inl own ↦ rw own (owner_of cr, inl refl, refl, refl)
      | inr foreign ↦ cc (rw foreign at ok)
    ]

delete_at-IsMissing :
    (o : Answer Object) (obj : Object) (w : List Entry)
    → read (kind_of obj) (object_key obj) w ≡ o
    → IsGone (delete_at o obj w).0
    → IsMissing store (kind_of obj) (object_key obj) (delete_at o obj w).1
delete_at-IsMissing (found obj') obj w is gone = (not_found, rw (is_under-own obj) refl, refl)
delete_at-IsMissing (failed e) obj w is gone = (e, is, gone)

delete_at-keeps_IsMissing :
    (o : Answer Object) (obj : Object) (kind : Kind) (key : ObjectKey) (w : List Entry)
    → IsMissing store kind key w
    → IsMissing store kind key (delete_at o obj w).1
delete_at-keeps_IsMissing (failed e) obj kind key w missing = missing
delete_at-keeps_IsMissing (found obj') obj kind key w (e, is, absent) =
    elim (Bool-cases (is_under kind key (kind_of obj, object_key obj, none))) [
      | inl hit ↦ (not_found, rw hit refl, refl)
      | inr miss ↦ (e, rw miss is, absent)
    ]

pub store-Deletions : Deletions store
store-Deletions = record {
  deletes = λ obj w gone. delete_at-IsMissing _ obj w refl gone;
  delete_keeps = λ obj kind key w missing. delete_at-keeps_IsMissing _ obj kind key w missing;
  update_keeps = λ authorino kind key w missing. missing;
}
