-- ===== src/Resources/Services/Equality.antt =====
-- When `EqualServices` finds two services equal.
use mathlib.Core.Logic.{∥∥₁_elim}
use mathlib.Core.Bool.{Bool-set}
use mathlib.Core.List.{Mem, Nodup, Nodup-cons, Perm, Permᴰ, mem-cons_self}
use mathlib.Core.List.Perm
use mathlib.Core.List.Permᴰ
use authorino_operator.Prelude.{
  ◌≡◌, ◌≢◌, ◌↔◌, refl, sym, ap, subst, ◌∙◌, String, true, Option, some, List, [], ◌∷◌, map,
  Bool-cases, inl, inr, text_less, text_less_asym, text_less_total, text_less_trans, eq_iff,
  eq_refl,
}
use authorino_operator.Kube.{Service, ServicePort, ServiceSpec, StringMap, entries, lookup}
use authorino_operator.Resources.Services.{equal_services, insert_port, sort_ports, sorted_spec}

abbrev names : List ServicePort → List String
names ports = map (λ (p : ServicePort). p.name) ports

insert-comm_less :
    (p q : ServicePort) (ports : List ServicePort)
    → text_less p.name q.name ≡ true
    → insert_port p (insert_port q ports) ≡ insert_port q (insert_port p ports)
unfolding insert_port
insert-comm_less p q [] h = let back = text_less_asym p.name q.name h in rw (h, back) refl
insert-comm_less p q (z ∷ zs) h =
    let back = text_less_asym p.name q.name h in
    elim (Bool-cases (text_less z.name p.name)) [
      | inl below ↦
          let far = text_less_trans z.name p.name q.name below h in
          rw (far, below, far) (ap (λ l. z ∷ l) (insert-comm_less p q zs h))
      | inr above ↦ elim (Bool-cases (text_less z.name q.name)) [
        | inl between ↦ simp (between, above, h)
        | inr beyond ↦ simp (beyond, back, above, h)
      ]
    ]

insert_comm :
    (p q : ServicePort) (ports : List ServicePort)
    → p.name ≢ q.name
    → insert_port p (insert_port q ports) ≡ insert_port q (insert_port p ports)
insert_comm p q ports other = elim (Bool-cases (text_less p.name q.name)) [
  | inl less ↦ insert-comm_less p q ports less
  | inr not_less ↦ elim (Bool-cases (text_less q.name p.name)) [
    | inl less ↦ sym (insert-comm_less q p ports less)
    | inr not_more ↦ absurd (other (text_less_total p.name q.name not_less not_more))
  ]
]

insert-Permᴰ :
    (p : ServicePort) (ports : List ServicePort) → Permᴰ (insert_port p ports) (p ∷ ports)
unfolding insert_port
insert-Permᴰ p [] = Permᴰ.refl (p ∷ [])
insert-Permᴰ p (q ∷ qs) = elim (Bool-cases (text_less q.name p.name)) [
  | inl less ↦ rw less (Permᴰ.trans (Permᴰ.cons refl (insert-Permᴰ p qs)) (Permᴰ.swap refl refl))
  | inr more ↦ rw more (Permᴰ.refl (p ∷ q ∷ qs))
]

sort-Permᴰ : (ports : List ServicePort) → Permᴰ (sort_ports ports) ports
unfolding sort_ports
sort-Permᴰ [] = Permᴰ.refl []
sort-Permᴰ (p ∷ ps) = Permᴰ.trans (insert-Permᴰ p (sort_ports ps)) (Permᴰ.cons refl (sort-Permᴰ ps))

-- Sorting forgets the order of ports with different names.
sort-eq : {l l' : List ServicePort} → Permᴰ l l' → Nodup (names l) → sort_ports l ≡ sort_ports l'
unfolding sort_ports mem-cons_self
sort-eq Permᴰ.nil h = refl
sort-eq (Permᴰ.cons {a = a} {b = b} {l₁ = l₁} {l₂ = l₂} e d) h =
    let rest = sort-eq d (Nodup-cons.0 h).1 in cc (e, rest)
sort-eq (Permᴰ.swap {a = a} {b = b} {a' = a'} {b' = b'} {l = l} e e') h =
    let other : a.name ≢ b.name =
      λ same. (Nodup-cons.0 h).0 (subst (λ x. Mem x (b.name ∷ names l)) (sym same) mem-cons_self) in
    let swapped = insert_comm a b (sort_ports l) other in cc (e, e', swapped)
sort-eq (Permᴰ.trans {l₂ = l₂} d d') h =
    sort-eq d h ∙ sort-eq d' (Perm.nodup (Perm.map (λ (p : ServicePort). p.name) ∣ d ∣₁) h)

-- the two maps have the same entries
abbrev pub SameEntries : StringMap → StringMap → Type 0
SameEntries m m' = (key : String) → lookup key (entries m) ≡ lookup key (entries m')

-- Equal as the API server reads them: ports in one order, selectors in any.
abbrev pub Same : ServiceSpec → ServiceSpec → Type 0
Same x y = (x.ports ≡ y.ports) × SameEntries x.selector y.selector

-- What `json.Marshal` promises for two specs of services: it has no error for them, and it gives them
-- one text exactly if they are the same but for the order of a map.
pub record Marshals (marshal : ServiceSpec → Option String) (x y : ServiceSpec) : Type 0 where
  pub text : String
  pub text_is : marshal x ≡ some text
  pub text' : String
  pub text'_is : marshal y ≡ some text'
  pub agrees : marshal x ≡ marshal y ↔ Same x y

module _ (marshal : ServiceSpec → Option String) (s1 s2 : Service)
    (marshals : Marshals marshal (sorted_spec s1.spec) (sorted_spec s2.spec)) where
  Same-equal_services :
      equal_services marshal s1 s2 ≡ true → Same (sorted_spec s1.spec) (sorted_spec s2.spec)
  unfolding equal_services
  Same-equal_services h =
      let is = marshals.text_is in
      let is' = marshals.text'_is in
      let same : marshals.text ≡ marshals.text' = (eq_iff _ _).0 (rw (is, is') at h) in
      marshals.agrees.0 (is ∙ ap some same ∙ sym is')

  equal_services-Same :
      Same (sorted_spec s1.spec) (sorted_spec s2.spec) → equal_services marshal s1 s2 ≡ true
  unfolding equal_services
  equal_services-Same h =
      let is = marshals.text_is in
      let is' : marshal (sorted_spec s2.spec) ≡ some marshals.text =
        sym (marshals.agrees.1 h) ∙ is in
      rw (is, is') (eq_refl marshals.text)

  -- If `json.Marshal` keeps its promises and the ports of the first service have different names, the
  -- two services are found equal exactly if the ports of one are a permutation of those of the other
  -- and their selectors have the same entries.
  pub equal_services_iff :
      Nodup (map (λ (p : ServicePort). p.name) s1.spec.ports)
      → equal_services marshal s1 s2 ≡ true
        ↔ Perm s1.spec.ports s2.spec.ports × SameEntries s1.spec.selector s2.spec.selector
  equal_services_iff distinct = (
    λ h.
        let (ports, selector) = Same-equal_services h in
        (
          ∣ Permᴰ.trans (Permᴰ.symm (sort-Permᴰ s1.spec.ports))
              (subst (λ l. Permᴰ l s2.spec.ports) (sym ports) (sort-Permᴰ s2.spec.ports)) ∣₁,
          selector,
        ),
    λ (perm, selector).
        ∥∥₁_elim perm (Bool-set (equal_services marshal s1 s2) true)
          (λ d. equal_services-Same (sort-eq d distinct, selector)),
  )
