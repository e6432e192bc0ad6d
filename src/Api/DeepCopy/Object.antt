-- ===== src/Api/DeepCopy/Object.antt =====
-- api/v1beta1/zz_generated.deepcopy.go: an `Authorino`, its status and a list of them, stored, and their
-- copies. The copies of the API machinery's types are parameters.
use authorino_operator.Prelude.{String, List, ◌++◌}
use authorino_operator.Kube.{KeyToPath, ObjectMeta, Time}
use authorino_operator.Api.{Authorino, AuthorinoStatus, Condition}
use authorino_operator.Api.DeepCopy.{Copier, Pointer, boxed, items_of}
use authorino_operator.Api.DeepCopy.Spec.{StoredAuthorinoSpec, authorino_spec_copier}

pub record StoredCondition (T : Type 0) : Type 0 where
  pub type : String
  pub status : String
  pub last_transition_time : T
  pub reason : String
  pub message : String
  pub last_updated_time : Pointer T

abbrev pub condition_copier : {T : Type 0} → Copier T Time → Copier (StoredCondition T) Condition
condition_copier time = record {
  read = λ x. record {
    type = x.type;
    status = x.status;
    last_transition_time = time.read x.last_transition_time;
    reason = x.reason;
    message = x.message;
    last_updated_time = (boxed time).read x.last_updated_time;
  };
  addresses =
      λ x. time.addresses x.last_transition_time ++ (boxed time).addresses x.last_updated_time;
  copy = λ x next0.
      let (last_transition_time, next1) = time.copy x.last_transition_time next0 in
      let (last_updated_time, next2) = (boxed time).copy x.last_updated_time next1 in
      (
        record x {
          last_transition_time = last_transition_time;
          last_updated_time = last_updated_time;
        },
        next2,
      );
}

pub record StoredAuthorinoStatus (T : Type 0) : Type 0 where
  pub conditions : Pointer (List (StoredCondition T))

abbrev pub authorino_status_copier :
    {T : Type 0} → Copier T Time → Copier (StoredAuthorinoStatus T) AuthorinoStatus
authorino_status_copier time = record {
  read = λ x. record { conditions = (items_of (condition_copier time)).read x.conditions };
  addresses = λ x. (items_of (condition_copier time)).addresses x.conditions;
  copy = λ x next0.
      let (conditions, next1) = (items_of (condition_copier time)).copy x.conditions next0 in
      (record { conditions = conditions }, next1);
}

pub record StoredAuthorino (M K T : Type 0) : Type 0 where
  pub meta : M
  pub spec : StoredAuthorinoSpec K
  pub status : StoredAuthorinoStatus T

abbrev pub authorino_copier :
    {M K T : Type 0}
    → Copier M ObjectMeta
    → Copier K KeyToPath
    → Copier T Time
    → Copier (StoredAuthorino M K T) Authorino
authorino_copier meta key time = record {
  read = λ x. record {
    meta = meta.read x.meta;
    spec = (authorino_spec_copier key).read x.spec;
    status = (authorino_status_copier time).read x.status;
  };
  addresses = λ x.
      meta.addresses x.meta
      ++ ((authorino_spec_copier key).addresses x.spec
          ++ (authorino_status_copier time).addresses x.status);
  copy = λ x next0.
      let (meta, next1) = meta.copy x.meta next0 in
      let (spec, next2) = (authorino_spec_copier key).copy x.spec next1 in
      let (status, next3) = (authorino_status_copier time).copy x.status next2 in
      (record { meta = meta; spec = spec; status = status }, next3);
}

-- A list, with the metadata of lists that the API machinery has.
pub record AuthorinoList (L A : Type 0) : Type 0 where
  pub list_meta : L
  pub items : A

abbrev pub authorino_list_copier :
    {L R M K T : Type 0}
    → Copier L R
    → Copier M ObjectMeta
    → Copier K KeyToPath
    → Copier T Time
    → Copier
        (AuthorinoList L (Pointer (List (StoredAuthorino M K T))))
        (AuthorinoList R (List Authorino))
authorino_list_copier list_meta meta key time = record {
  read = λ x. record {
    list_meta = list_meta.read x.list_meta;
    items = (items_of (authorino_copier meta key time)).read x.items;
  };
  addresses = λ x.
      list_meta.addresses x.list_meta
      ++ (items_of (authorino_copier meta key time)).addresses x.items;
  copy = λ x next0.
      let (list_meta, next1) = list_meta.copy x.list_meta next0 in
      let (items, next2) = (items_of (authorino_copier meta key time)).copy x.items next1 in
      (record { list_meta = list_meta; items = items }, next2);
}
