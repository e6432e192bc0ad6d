-- ===== src/Api/DeepCopy.antt =====
-- api/v1beta1/zz_generated.deepcopy.go: the deep copies of the spec of an `Authorino`. A stored value
-- has the addresses of what it points to, next to the values that stand there, so that two values can
-- share a pointer. An allocation takes the next free address; the store is the number of those taken.
pub mod Parts
pub mod Volumes
pub mod Spec
pub mod Object
pub mod Methods
pub mod Separate
pub mod Laws
pub mod Copies
use authorino_operator.Prelude.{ℕ, suc, Option, none, some, List, [], ◌∷◌, ◌++◌}

pub record At {ℓ} (A : Type ℓ) : Type ℓ where
  pub address : ℕ
  pub value : A

-- A pointer, or the pointer to the array of a slice or to a map; none is nil.
abbrev pub Pointer {ℓ} : Type ℓ → Type ℓ
Pointer A = Option (At A)

abbrev pub read_pointer {ℓ} : {A : Type ℓ} → Pointer A → Option A
read_pointer none = none
read_pointer (some p) = some p.value

abbrev pub address_of {ℓ} : {A : Type ℓ} → Pointer A → List ℕ
address_of none = []
address_of (some p) = p.address ∷ []

-- The elements of a slice.
abbrev pub read_slice {ℓ} : {A : Type ℓ} → Pointer (List A) → List A
read_slice none = []
read_slice (some p) = p.value

-- `if in.F != nil { *out = new(T); **out = **in }`; with `make` in place of `new`, the same for a
-- slice or a map of plain values.
unfoldable pub copy_pointer {ℓ} : {A : Type ℓ} → Pointer A → ℕ → Pointer A × ℕ
copy_pointer none next = (none, next)
copy_pointer (some p) next = (some (record { address = next; value = p.value }), suc next)

-- How a type of values in the store is read, which addresses it has, and how it is copied.
pub record Copier (A V : Type 0) : Type 0 where
  pub read : A → V
  pub addresses : A → List ℕ
  pub copy : A → ℕ → A × ℕ

module _ {A V : Type 0} (c : Copier A V) where
  unfoldable pub read_each : List A → List V
  read_each [] = []
  read_each (x ∷ xs) = c.read x ∷ read_each xs

  unfoldable pub addresses_each : List A → List ℕ
  addresses_each [] = []
  addresses_each (x ∷ xs) = c.addresses x ++ addresses_each xs

  -- `for i := range *in { (*in)[i].DeepCopyInto(&(*out)[i]) }`
  unfoldable pub copy_each : List A → ℕ → List A × ℕ
  copy_each [] next = ([], next)
  copy_each (x ∷ xs) next =
      let (y, middle) = c.copy x next in let (ys, last) = copy_each xs middle in (y ∷ ys, last)

  unfoldable pub read_items : Pointer (List A) → List V
  unfolding read_each
  read_items items = read_each (read_slice items)

  unfoldable pub addresses_items : Pointer (List A) → List ℕ
  unfolding addresses_each
  addresses_items none = []
  addresses_items (some p) = p.address ∷ addresses_each p.value

  -- `if in.Items != nil { *out = make([]T, len(*in)); for i := range *in { ... } }`
  unfoldable pub copy_items : Pointer (List A) → ℕ → Pointer (List A) × ℕ
  unfolding copy_each
  copy_items none next = (none, next)
  copy_items (some p) next =
      let (copied, last) = copy_each p.value (suc next) in
      (some (record { address = next; value = copied }), last)

-- `DeepCopy()`: nil for nil, otherwise a new value that `DeepCopyInto` fills.
unfoldable pub deep_copy : {A V : Type 0} → Copier A V → Pointer A → ℕ → Pointer A × ℕ
deep_copy c none next = (none, next)
deep_copy c (some p) next =
    let (copied, last) = c.copy p.value (suc next) in
    (some (record { address = next; value = copied }), last)

unfoldable pub read_boxed : {A V : Type 0} → Copier A V → Pointer A → Option V
read_boxed c none = none
read_boxed c (some p) = some (c.read p.value)

unfoldable pub addresses_boxed : {A V : Type 0} → Copier A V → Pointer A → List ℕ
addresses_boxed c none = []
addresses_boxed c (some p) = p.address ∷ c.addresses p.value

-- The pointers to values of a type, copied by `DeepCopy`.
abbrev pub boxed : {A V : Type 0} → Copier A V → Copier (Pointer A) (Option V)
boxed c = record {
  read = λ x. read_boxed c x;
  addresses = λ x. addresses_boxed c x;
  copy = λ x next. deep_copy c x next;
}

-- The slices of a type.
abbrev pub items_of : {A V : Type 0} → Copier A V → Copier (Pointer (List A)) (List V)
items_of c = record {
  read = λ x. read_items c x;
  addresses = λ x. addresses_items c x;
  copy = λ x next. copy_items c x next;
}
