-- ===== src/Api/DeepCopy/Separate.antt =====
-- The deep copies of an `Authorino` and of a list of them: what a copy shares with its
-- original.
use authorino_operator.Prelude.{ℕ, ◌<◌, ◌≡◌, ◌≢◌, List, All, All-mono, arith}
use authorino_operator.Kube.{KeyToPath, ObjectMeta, Time}
use authorino_operator.Api.DeepCopy.{Copier, Pointer, boxed}
use authorino_operator.Api.DeepCopy.Laws.{
  Ascends, Ascends-append, Copies, boxed-Copies, items_of-Copies,
}
use authorino_operator.Api.DeepCopy.Copies.{authorino_spec_copier-Copies}
use authorino_operator.Api.DeepCopy.Spec.{authorino_spec_copier}
use authorino_operator.Api.DeepCopy.Object.{
  AuthorinoList, StoredAuthorino, authorino_copier, authorino_list_copier, authorino_status_copier,
  condition_copier,
}

-- no address of the one is an address of the other
abbrev pub Apart : List ℕ → List ℕ → Type 0
Apart old new = All (λ a. All (λ b. a ≢ b) new) old

Ascends-above : {n m : ℕ} {l : List ℕ} (a : ℕ) → a < n → Ascends n l m → All (λ b. a ≢ b) l
Ascends-above a less (Ascends.ends le) = tt
Ascends-above a less (Ascends.takes le rest) =
    (λ e. omega arith, Ascends-above a (omega arith) rest)

-- The copy reads as the original, its addresses are taken one after the other from the next free one
-- on, and none of them is an address of the original.
abbrev pub SharesNothing : {A V : Type 0} → Copier A V → A → ℕ → Type 0
SharesNothing c x next =
    (c.read (c.copy x next).0 ≡ c.read x)
    × Ascends next (c.addresses (c.copy x next).0) (c.copy x next).1
    × Apart (c.addresses x) (c.addresses (c.copy x next).0)

module _ {T : Type 0} (time : Copier T Time) (time_lawful : Copies time) where
  condition_copier-Copies : Copies (condition_copier time)
  condition_copier-Copies x next0 =
      let h0 = time_lawful x.last_transition_time next0 in
      let n1 = (time.copy x.last_transition_time next0).1 in
      let h1 = boxed-Copies time time_lawful x.last_updated_time n1 in
      (cc (h0.0, h1.0), Ascends-append h0.1 h1.1)

  authorino_status_copier-Copies : Copies (authorino_status_copier time)
  authorino_status_copier-Copies x next0 =
      let h0 = items_of-Copies (condition_copier time) condition_copier-Copies x.conditions next0 in
      (cc h0.0, h0.1)

module _ {L R M K T : Type 0} (list_meta : Copier L R) (meta : Copier M ObjectMeta)
    (key : Copier K KeyToPath) (time : Copier T Time) (list_meta_lawful : Copies list_meta)
    (meta_lawful : Copies meta) (key_lawful : Copies key) (time_lawful : Copies time) where
  authorino_copier-Copies : Copies (authorino_copier meta key time)
  authorino_copier-Copies x next0 =
      let h0 = meta_lawful x.meta next0 in
      let n1 = (meta.copy x.meta next0).1 in
      let h1 = authorino_spec_copier-Copies key key_lawful x.spec n1 in
      let n2 = ((authorino_spec_copier key).copy x.spec n1).1 in
      let h2 = authorino_status_copier-Copies time time_lawful x.status n2 in
      (cc (h0.0, h1.0, h2.0), Ascends-append h0.1 (Ascends-append h1.1 h2.1))

  authorino_list_copier-Copies : Copies (authorino_list_copier list_meta meta key time)
  authorino_list_copier-Copies x next0 =
      let h0 = list_meta_lawful x.list_meta next0 in
      let n1 = (list_meta.copy x.list_meta next0).1 in
      let h1 =
        items_of-Copies (authorino_copier meta key time) authorino_copier-Copies x.items n1 in
      (cc (h0.0, h1.0), Ascends-append h0.1 h1.1)

  -- If the API machinery's deep copies read as their originals and take new addresses only, then the
  -- deep copy of a list of `Authorino`s whose addresses are all taken already reads as the list, takes
  -- new addresses one after the other, and has no address of the list.
  pub deep_copy-SharesNothing :
      (p : Pointer (AuthorinoList L (Pointer (List (StoredAuthorino M K T))))) (next : ℕ)
      → All (λ a. a < next) ((boxed (authorino_list_copier list_meta meta key time)).addresses p)
      → SharesNothing (boxed (authorino_list_copier list_meta meta key time)) p next
  deep_copy-SharesNothing p next old =
      let (same, new) =
        boxed-Copies (authorino_list_copier list_meta meta key time) authorino_list_copier-Copies p
          next in
      (same, new, All-mono _ _ (λ a less. Ascends-above a less new) _ old)
