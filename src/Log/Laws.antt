-- ===== src/Log/Laws.antt =====
-- Reading and writing a log mode.
use authorino_operator.Prelude.{
  ◌≡◌, ◌⊎◌, refl, String, Bool, true, false, pos, negsuc, Bool-cases, inl, inr, arith, eq_iff, sym,
  ap, ℕ, nat_beq, ◌||◌, ◌↔◌, ◌∙◌, ◌==◌, if◌then◌else◌,
}
use authorino_operator.Reconcilers.Outcome.{panicked, returned}
use authorino_operator.Log.{
  LogMode, format_log_mode, log_mode_dev, log_mode_prod, to_log_mode, to_lower,
}

-- the two modes that the package names
abbrev pub IsKnown : LogMode → Type 0
IsKnown mode = (mode ≡ log_mode_prod) ⊎ (mode ≡ log_mode_dev)

nat_beq-eq : (m n : ℕ) → nat_beq m n ≡ true → m ≡ n
nat_beq-eq m n h = ground arith

-- the same, as a test
abbrev pub is_known : LogMode → Bool
is_known (pos n) = nat_beq n 0 || nat_beq n 1
is_known (negsuc n) = false

is_known-IsKnown : (mode : LogMode) → is_known mode ≡ true → IsKnown mode
is_known-IsKnown (pos n) h = elim (Bool-cases (nat_beq n 0)) [
  | inl zero ↦ inl (ap pos (nat_beq-eq n 0 zero))
  | inr more ↦ inr (ap pos (nat_beq-eq n 1 (rw more at h)))
]
is_known-IsKnown (negsuc n) h = cc h

IsKnown-is_known : (mode : LogMode) → IsKnown mode → is_known mode ≡ true
IsKnown-is_known mode (inl e) = rw e refl
IsKnown-is_known mode (inr e) = rw e refl

read-format : (mode : LogMode) → IsKnown mode → to_log_mode (format_log_mode mode) ≡ returned mode
unfolding to_log_mode format_log_mode to_lower
read-format mode (inl e) = rw e refl
read-format mode (inr e) = rw e refl

read-unknown :
    (mode : LogMode)
    → ¬ IsKnown mode
    → to_log_mode (format_log_mode mode) ≡ panicked "unknown log mode"
unfolding to_log_mode format_log_mode to_lower
read-unknown (pos n) unknown = elim (Bool-cases (nat_beq n 0)) [
  | inl zero ↦ absurd (unknown (inl (ap pos (nat_beq-eq n 0 zero))))
  | inr nonzero ↦ elim (Bool-cases (nat_beq n 1)) [
    | inl one ↦ absurd (unknown (inr (ap pos (nat_beq-eq n 1 one))))
    | inr more ↦ rw (nonzero, more) refl
  ]
]
read-unknown (negsuc n) unknown = refl

format-read :
    (text : String) (mode : LogMode)
    → to_log_mode text ≡ returned mode
    → IsKnown mode × (format_log_mode mode ≡ to_lower text)
unfolding to_log_mode format_log_mode
format-read text mode h = elim (Bool-cases (to_lower text == "production")) [
  | inl production ↦
      let same : log_mode_prod ≡ mode = cc (rw production at h) in
      let named : format_log_mode log_mode_prod ≡ to_lower text =
        sym ((eq_iff (to_lower text) "production").0 production) in
      (inl (sym same), ap format_log_mode (sym same) ∙ named)
  | inr other ↦ elim (Bool-cases (to_lower text == "development")) [
    | inl development ↦
        let same : log_mode_dev ≡ mode = cc (rw (other, development) at h) in
        let named : format_log_mode log_mode_dev ≡ to_lower text =
          sym ((eq_iff (to_lower text) "development").0 development) in
        (inr (sym same), ap format_log_mode (sym same) ∙ named)
    | inr unknown ↦ cc (rw (other, unknown) at h)
  ]
]

read-lowered :
    (text : String) (mode : LogMode)
    → IsKnown mode × (format_log_mode mode ≡ to_lower text)
    → to_log_mode text ≡ returned mode
unfolding to_log_mode format_log_mode
read-lowered text mode (inl e, named) =
    let lowered : to_lower text ≡ "production" = sym named ∙ ap format_log_mode e in
    rw (lowered, e) refl
read-lowered text mode (inr e, named) =
    let lowered : to_lower text ≡ "development" = sym named ∙ ap format_log_mode e in
    rw (lowered, e) refl

read-any :
    (mode : LogMode)
    → to_log_mode (format_log_mode mode)
      ≡ (if is_known mode then returned mode else panicked "unknown log mode")
read-any mode = elim (Bool-cases (is_known mode)) [
  | inl known ↦ rw known (read-format mode (is_known-IsKnown mode known))
  | inr unknown ↦
      rw unknown (read-unknown mode (λ known. cc (unknown, IsKnown-is_known mode known)))
]

-- Reading what a mode is written as gives the mode back if it is one of the two that the package
-- names, and panics for any other value of the type. Reading a text gives a mode exactly if it is one
-- of the two and is written as the text in lower case.
pub to_log_mode-format_log_mode :
    (mode : LogMode) (text : String)
    → (to_log_mode (format_log_mode mode)
        ≡ (if is_known mode then returned mode else panicked "unknown log mode"))
      × (to_log_mode text ≡ returned mode ↔ IsKnown mode × (format_log_mode mode ≡ to_lower text))
to_log_mode-format_log_mode mode text =
    (read-any mode, (format-read text mode, read-lowered text mode))
