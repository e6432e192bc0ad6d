-- ===== src/Reconcilers/Args/Flags.antt =====
-- The name of a flag, read back from the argument that the flag is printed as.
use Prim.Native.String
use text.Mathlib.TextLemmas.{cons-append, nil-append, append-nil}
use authorino_operator.Prelude.{
  ◌≡◌, refl, ℕ, String, Bool, true, not, ◌&&◌, List, [], ◌∷◌, arith, first, split, trim_prefix,
  after, nat_beq, Char, code, Bool-cases, inl, inr, ap, some, push_first,
}
use authorino_operator.Reconcilers.Args.{switch, flag_name}

-- No character of the text is the separator.
unfoldable pub lacks : String → ℕ → Bool
lacks String.[] sep = true
lacks (String.◌∷◌ c s) sep = not (nat_beq (code c) sep) && lacks s sep

after_append : (p s : String) → after p (String.◌++◌ p s) ≡ some s
unfolding after
after_append String.[] s = rw nil-append refl
after_append (String.◌∷◌ c p) s = rw cons-append (ground (arith, after_append p s))

first-push_first :
    (c : Char) (parts : List String) → first (push_first c parts) ≡ String.◌∷◌ c (first parts)
first-push_first c [] = refl
first-push_first c (s ∷ rest) = refl

-- the part before the first separator
first-split_at :
    (s rest : String)
    → lacks s b'=' ≡ true
    → first (split (String.◌++◌ s (String.◌++◌ "=" rest)) b'=') ≡ s
unfolding lacks split
first-split_at String.[] rest h = rw (nil-append, cons-append) refl
first-split_at (String.◌∷◌ c s) rest h = elim (Bool-cases (nat_beq (code c) b'=')) [
  | inl same ↦ cc (rw same at h)
  | inr other ↦
      rw (cons-append, other, first-push_first)
        (ap (String.◌∷◌ c) (first-split_at s rest (rw other at h)))
]

first-split : (s : String) → lacks s b'=' ≡ true → first (split s b'=') ≡ s
unfolding lacks split
first-split String.[] h = refl
first-split (String.◌∷◌ c s) h = elim (Bool-cases (nat_beq (code c) b'=')) [
  | inl same ↦ cc (rw same at h)
  | inr other ↦ rw (other, first-push_first) (ap (String.◌∷◌ c) (first-split s (rw other at h)))
]

-- The name of a flag with a value is read back, if the name has no "=".
pub flag_name-value :
    (name value : String)
    → lacks name b'=' ≡ true
    → flag_name (String.◌++◌ "--" (String.◌++◌ name (String.◌++◌ "=" value))) ≡ name
unfolding flag_name trim_prefix
flag_name-value name value h = rw after_append (first-split_at name value h)

-- and so is that of one without a value
pub flag_name-switch : (name : String) → lacks name b'=' ≡ true → flag_name (switch name) ≡ name
unfolding flag_name trim_prefix
flag_name-switch name h = rw (after_append, append-nil) (first-split name h)
