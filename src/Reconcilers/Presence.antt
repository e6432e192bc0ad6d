-- ===== src/Reconcilers/Presence.antt =====
-- Which objects exist after an action, if the API server keeps its promises and nothing else writes
-- to it meanwhile.
pub mod Resource
pub mod Parts
use authorino_operator.Prelude.{
  ◌≡◌, ◌≢◌, ◌⊎◌, refl, Bool, true, false, none, some, Option, inl, inr, List, [], ◌∷◌, All, sym, ap,
  subst, ◌∙◌, if◌then◌else◌,
}
use authorino_operator.Kube.{Binding, Kind, Object, ObjectKey, kind_of, object_key}
use authorino_operator.Api.{Authorino}
use authorino_operator.Reconcilers.Outcome.{returned}
use authorino_operator.Reconcilers.Action.{
  found, AuthorinoReconciler, Call, Context, Err, M, Preconditions, State, StatusPatch, pure,
  unless, with_logger, ◌>>=◌,
}
use authorino_operator.Reconcilers.Action.Keeps.{
  Allows, Issues, Issues-bind, Issues-unless, Policy, bind-eq-returned, unless-eq-returned_none,
}
use authorino_operator.Reconcilers.Resource.{is_object_tagged_to_delete}
use authorino_operator.Reconcilers.Resource.Laws.{AllowsWrites}
use authorino_operator.Reconcilers.Safety.{AllowsReports}

-- The server finds an object of the kind under the key.
abbrev pub Has : {W : Type 0} → AuthorinoReconciler W → Kind → ObjectKey → W → Type 0
Has r kind key w = (obj : Object) × ((r.get kind key w).0 ≡ found obj)

-- What a server promises: what was created without an error exists; only a deletion makes an object
-- disappear, and no other one than the object that is deleted; and the answer to a question has the
-- key that was asked for.
pub record Promises {W : Type 0} (r : AuthorinoReconciler W) : Type 0 where
  pub get_reads : (kind : Kind) (key : ObjectKey) (w : W) → (r.get kind key w).1 ≡ w
  pub binding_reads : (key : ObjectKey) (w : W) → (r.get_cluster_role_binding key w).1 ≡ w
  pub binding_key :
      (key : ObjectKey) (w : W) (binding : Binding)
      → (r.get_cluster_role_binding key w).0 ≡ found binding
      → object_key (Object.cluster_role_binding binding) ≡ key
  pub creates :
      (obj : Object) (w : W)
      → (r.create obj w).0 ≡ none
      → Has r (kind_of obj) (object_key obj) (r.create obj w).1
  pub create_keeps :
      (obj : Object) (kind : Kind) (key : ObjectKey) (w : W)
      → Has r kind key w
      → Has r kind key (r.create obj w).1
  pub apply_keeps :
      (obj : Object) (kind : Kind) (key : ObjectKey) (w : W)
      → Has r kind key w
      → Has r kind key (r.apply obj w).1
  pub delete_keeps :
      (obj : Object) (preconditions : Option Preconditions) (kind : Kind) (key : ObjectKey) (w : W)
      → (kind_of obj ≢ kind) ⊎ (object_key obj ≢ key)
      → Has r kind key w
      → Has r kind key (r.delete obj preconditions w).1
  pub update_keeps :
      (authorino : Authorino) (kind : Kind) (key : ObjectKey) (w : W)
      → Has r kind key w
      → Has r kind key (r.update authorino w).1
  pub patch_status_keeps :
      (patch : StatusPatch) (kind : Kind) (key : ObjectKey) (w : W)
      → Has r kind key w
      → Has r kind key (r.patch_status patch w).1
  pub now_keeps :
      (kind : Kind) (key : ObjectKey) (w : W) → Has r kind key w → Has r kind key (r.now w).1

-- the policy of an action that keeps the object
abbrev pub holds : {W : Type 0} → AuthorinoReconciler W → Kind → ObjectKey → Policy W
holds r kind key = record { Good = λ s. Has r kind key s.world; may_panic = Unit }

module _ {W : Type 0} (r : AuthorinoReconciler W) (promises : Promises r) (kind : Kind)
    (key : ObjectKey) where
  pub reports-holds : (authorino : Authorino) → AllowsReports r authorino (holds r kind key)
  reports-holds authorino = record {
    reads = λ k n. record {
      at = λ s h. subst (Has r kind key) (sym (promises.get_reads k n s.world)) h;
    };
    clocks = record { at = λ s h. promises.now_keeps kind key s.world h };
    reports =
        λ patch n ns. record { at = λ s h. promises.patch_status_keeps patch kind key s.world h };
  }

  pub writes-holds :
      (obj : Object)
      → is_object_tagged_to_delete obj ≡ false
      → AllowsWrites r obj (holds r kind key)
  writes-holds obj untagged = record {
    creates = λ u s unread h. promises.create_keeps obj kind key s.world h;
    applies = λ u. record { at = λ s h. promises.apply_keeps obj kind key s.world h };
    deletes = λ t. cc;
  }

  pub looks-holds :
      (k : ObjectKey)
      → Allows (holds r kind key) (Call.get_cluster_role_binding k) (r.get_cluster_role_binding k)
  looks-holds k = record {
    at = λ s h. subst (Has r kind key) (sym (promises.binding_reads k s.world)) h;
  }

  pub deletes-holds :
      (obj : Object) (preconditions : Option Preconditions)
      → (kind_of obj ≢ kind) ⊎ (object_key obj ≢ key)
      → Allows (holds r kind key) (Call.delete obj preconditions) (r.delete obj preconditions)
  deletes-holds obj preconditions other = record {
    at = λ s h. promises.delete_keeps obj preconditions kind key s.world other h;
  }

  pub updates-holds :
      (authorino : Authorino)
      → Allows (holds r kind key) (Call.update authorino) (r.update authorino)
  updates-holds authorino = record {
    at = λ s h. promises.update_keeps authorino kind key s.world h;
  }

  -- the same for the deletion of a tagged object
  pub tagged-holds :
      (obj : Object)
      → is_object_tagged_to_delete obj ≡ true
      → (kind_of obj ≢ kind) ⊎ (object_key obj ≢ key)
      → AllowsWrites r obj (holds r kind key)
  tagged-holds obj tagged other = record {
    creates = λ u. cc;
    applies = λ u. cc;
    deletes = λ t. deletes-holds obj none other;
  }

-- Whenever `m` returns `ok`, it leaves what is good.
pub record Leaves {W A : Type 0} (P : Policy W) (m : M W A) (ok : A) : Type 0 where
  pub at : (s : State W) → (m s).0 ≡ returned ok → P.Good (m s).1

module _ {W A B : Type 0} where
  pub bind-state :
      (m : M W A) (f : A → M W B) (s : State W) (a : A)
      → (m s).0 ≡ returned a
      → ((m >>= f) s).1 ≡ (f a (m s).1).1
  unfolding ◌>>=◌
  bind-state m f s a e = rw e refl

module _ {W A B : Type 0} {P : Policy W} where
  -- The last action leaves it.
  pub Leaves-next :
      (m : M W A) (f : A → M W B) (ok : B)
      → ((s : State W) (a : A) → (m s).0 ≡ returned a → Leaves P (f a) ok)
      → Leaves P (m >>= f) ok
  Leaves-next m f ok leaves = record {
    at = λ s h.
        let (a, here, later) = bind-eq-returned m f s h in
        rw (bind-state m f s a here) ((leaves s a here).at (m s).1 later);
  }

  -- The first action leaves it, and the rest keeps it.
  pub Leaves-first :
      (m : M W A) (f : A → M W B) (ok : A) (ok' : B)
      → Leaves P m ok
      → ((a : A) (s : State W) → (f a s).0 ≡ returned ok' → a ≡ ok)
      → Issues P (f ok)
      → Leaves P (m >>= f) ok'
  Leaves-first m f ok ok' leaves is keeps = record {
    at = λ s h.
        let (a, here, later) = bind-eq-returned m f s h in
        let here' : (m s).0 ≡ returned ok = here ∙ ap returned (is a (m s).1 later) in
        rw (bind-state m f s ok here') ((keeps.at (m s).1).0 (leaves.at s here'));
  }

module _ {W : Type 0} {P : Policy W} where
  pub Leaves-unless :
      (err : Err) (rest : M W Err) → Leaves P rest none → Leaves P (unless err rest) none
  unfolding pure
  Leaves-unless none rest leaves = leaves
  Leaves-unless (some e) rest leaves = record { at = λ s h. cc h }

  -- of two actions of which the second runs only if the first has no error
  pub Leaves-unless_next :
      (m rest : M W Err) → Leaves P rest none → Leaves P (m >>= λ err. unless err rest) none
  Leaves-unless_next m rest leaves = Leaves-next m _ none (λ s err h. Leaves-unless err rest leaves)

  pub Leaves-unless_first :
      (m rest : M W Err)
      → Leaves P m none
      → Issues P rest
      → Leaves P (m >>= λ err. unless err rest) none
  Leaves-unless_first m rest leaves keeps =
      Leaves-first m _ none none leaves (λ err s h. (unless-eq-returned_none err rest s h).0) keeps

  pub Leaves-if :
      (b : Bool) (m n : M W Err)
      → (b ≡ true → Leaves P m none)
      → (b ≡ false → Leaves P n none)
      → Leaves P (if b then m else n) none
  Leaves-if true m n hm hn = hm refl
  Leaves-if false m n hm hn = hn refl

  pub Leaves-with_logger :
      (ctx : Context) (rest : M W Err) → Leaves P rest none → Leaves P (with_logger ctx rest) none
  unfolding pure
  Leaves-with_logger ctx rest leaves =
      Leaves-if ctx.has_logger rest _ (λ logged. leaves) (λ silent. record { at = λ s h. cc h })

-- `m` is run, and then the rest, each only if the one before had no error.
abbrev pub chain : {W : Type 0} → List (M W Err) → M W Err → M W Err
chain [] last = last
chain (m ∷ rest) last = m >>= λ err. unless err (chain rest last)

abbrev pub Any : {A : Type 0} → (A → Type 0) → List A → Type 0
Any P [] = ⊥
Any P (x ∷ xs) = P x ⊎ Any P xs

module _ {W : Type 0} {P : Policy W} where
  chain-Issues :
      (ms : List (M W Err)) (last : M W Err)
      → All (Issues P) ms
      → Issues P last
      → Issues P (chain ms last)
  chain-Issues [] last all end = end
  chain-Issues (m ∷ ms) last (first, all) end =
      Issues-bind m _ first (λ err. Issues-unless err _ (chain-Issues ms last all end))

  -- One action of the chain leaves it, and all keep it.
  pub chain-Leaves :
      (ms : List (M W Err)) (last : M W Err)
      → All (Issues P) ms
      → Issues P last
      → Any (λ m. Leaves P m none) ms
      → Leaves P (chain ms last) none
  chain-Leaves [] last all end leaves = absurd leaves
  chain-Leaves (m ∷ ms) last (first, all) end (inl leaves) =
      Leaves-unless_first m _ leaves (chain-Issues ms last all end)
  chain-Leaves (m ∷ ms) last (first, all) end (inr leaves) =
      Leaves-unless_next m _ (chain-Leaves ms last all end leaves)
