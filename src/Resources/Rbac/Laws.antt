-- ===== src/Resources/Rbac/Laws.antt =====
-- The search for a subject among those of a binding (pkg/resources/k8s_rbac.go).
use authorino_operator.Prelude.{
  false≢true, ◌∙◌, refl, ◌≡◌, ◌↔◌, sym, true, List, [], ◌∷◌, arith, eq_iff, eq_refl, IsIn,
  Bool-cases, inl, inr, ap,
}
use authorino_operator.Kube.{Subject}
use authorino_operator.Resources.Rbac.{same_subject, subject_included}

same_subject_refl : (s : Subject) → same_subject s s ≡ true
same_subject_refl s = rw (eq_refl s.kind, eq_refl s.name, eq_refl s.namespace)

-- The fields that the search compares agree; the API group is not among them.
abbrev pub Agrees : Subject → Subject → Type 0
Agrees s t = (s.kind ≡ t.kind) × (s.name ≡ t.name) × (s.namespace ≡ t.namespace)

same_subject_iff : (s t : Subject) → same_subject s t ≡ true ↔ Agrees s t
same_subject_iff s t = (
  λ h. (
    ground (arith, eq_iff s.kind t.kind),
    ground (arith, eq_iff s.name t.name),
    ground (arith, eq_iff s.namespace t.namespace),
  ),
  λ (kind, name, namespace).
      rw (kind, name, namespace, eq_refl t.kind, eq_refl t.name, eq_refl t.namespace) refl,
)

-- The search finds a subject exactly if a subject of the list has the same kind, name and namespace.
pub subject_included_iff :
    (subjects : List Subject) (subject : Subject)
    → subject_included subjects subject ≡ true
      ↔ ((s : Subject) × IsIn s subjects × Agrees s subject)
unfolding subject_included
subject_included_iff [] subject = (λ h. cc, λ (s, h, _). absurd h)
subject_included_iff (s ∷ subjects) subject = elim (Bool-cases (same_subject s subject)) [
  | inl same ↦ (λ h. (s, inl refl, (same_subject_iff s subject).0 same), λ there. rw same)
  | inr other ↦ (
    λ h.
        let (t, later, agrees) = (subject_included_iff subjects subject).0 (rw other at h) in
        (t, inr later, agrees),
    λ (t, there, agrees). elim there [
      | inl e ↦ absurd (
          false≢true (
            sym other
            ∙ ap (λ x. same_subject x subject) (sym e)
            ∙ (same_subject_iff t subject).1 agrees))
      | inr later ↦ rw other ((subject_included_iff subjects subject).1 (t, later, agrees))
    ],
  )
]

pub subject_included-head :
    (subject : Subject) (subjects : List Subject)
    → subject_included (subject ∷ subjects) subject ≡ true
unfolding subject_included
subject_included-head subject subjects = rw (same_subject_refl subject)
