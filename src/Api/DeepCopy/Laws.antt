-- ===== src/Api/DeepCopy/Laws.antt =====
-- How a copy of a pointer or of a slice reads, and which addresses it takes.
use authorino_operator.Prelude.{ℕ, suc, ◌≤◌, ◌≡◌, refl, ap, none, some, List, [], ◌∷◌, ◌++◌, arith}
use authorino_operator.Api.DeepCopy.{
  Copier, Pointer, addresses_boxed, boxed, deep_copy, items_of, read_boxed, address_of,
  addresses_each, addresses_items, copy_each, copy_items, copy_pointer, read_each, read_items,
  read_pointer, read_slice,
}

-- The addresses are taken one after the other from the first on, each once, and before the last.
pub data Ascends : ℕ → List ℕ → ℕ → Type 0 where
  ends : {n m : ℕ} → n ≤ m → Ascends n [] m
  takes : {n a m : ℕ} {l : List ℕ} → n ≤ a → Ascends (suc a) l m → Ascends n (a ∷ l) m

Ascends-mono : {n m k : ℕ} {l : List ℕ} → n ≤ m → Ascends m l k → Ascends n l k
Ascends-mono le (Ascends.ends h) = Ascends.ends (omega arith)
Ascends-mono le (Ascends.takes h rest) = Ascends.takes (omega arith) rest

pub Ascends-append :
    {n m k : ℕ} {l l' : List ℕ} → Ascends n l m → Ascends m l' k → Ascends n (l ++ l') k
Ascends-append (Ascends.ends le) h' = Ascends-mono le h'
Ascends-append (Ascends.takes h rest) h' = Ascends.takes h (Ascends-append rest h')

pub copy_pointer-Copies {ℓ} :
    {A : Type ℓ} (p : Pointer A) (n : ℕ)
    → (read_pointer (copy_pointer p n).0 ≡ read_pointer p)
      × Ascends n (address_of (copy_pointer p n).0) (copy_pointer p n).1
unfolding copy_pointer
copy_pointer-Copies none n = (refl, Ascends.ends (omega arith))
copy_pointer-Copies (some p) n = (refl, Ascends.takes (omega arith) (Ascends.ends (omega arith)))

pub copy_slice-Copies {ℓ} :
    {A : Type ℓ} (p : Pointer (List A)) (n : ℕ)
    → (read_slice (copy_pointer p n).0 ≡ read_slice p)
      × Ascends n (address_of (copy_pointer p n).0) (copy_pointer p n).1
unfolding copy_pointer
copy_slice-Copies none n = (refl, Ascends.ends (omega arith))
copy_slice-Copies (some p) n = (refl, Ascends.takes (omega arith) (Ascends.ends (omega arith)))

-- a copy reads as the original, and all its addresses are new
abbrev pub Copies : {A V : Type 0} → Copier A V → Type 0
Copies c =
    (x : _) (next : ℕ)
    → (c.read (c.copy x next).0 ≡ c.read x)
      × Ascends next (c.addresses (c.copy x next).0) (c.copy x next).1

module _ {A V : Type 0} (c : Copier A V) (lawful : Copies c) where
  copy_each-Copies :
      (xs : List A) (next : ℕ)
      → (read_each c (copy_each c xs next).0 ≡ read_each c xs)
        × Ascends next (addresses_each c (copy_each c xs next).0) (copy_each c xs next).1
  unfolding read_each addresses_each copy_each
  copy_each-Copies [] next = (refl, Ascends.ends (omega arith))
  copy_each-Copies (x ∷ xs) next =
      let h = lawful x next in
      let rest = copy_each-Copies xs (c.copy x next).1 in
      (cc (h.0, rest.0), Ascends-append h.1 rest.1)

  pub copy_items-Copies :
      (p : Pointer (List A)) (next : ℕ)
      → (read_items c (copy_items c p next).0 ≡ read_items c p)
        × Ascends next (addresses_items c (copy_items c p next).0) (copy_items c p next).1
  unfolding read_items addresses_items copy_items
  copy_items-Copies none next = (refl, Ascends.ends (omega arith))
  copy_items-Copies (some p) next =
      let h = copy_each-Copies p.value (suc next) in (h.0, Ascends.takes (omega arith) h.1)

  pub items_of-Copies : Copies (items_of c)
  items_of-Copies p next = copy_items-Copies p next

  pub boxed-Copies : Copies (boxed c)
  unfolding deep_copy read_boxed addresses_boxed
  boxed-Copies none next = (refl, Ascends.ends (omega arith))
  boxed-Copies (some p) next =
      let h = lawful p.value (suc next) in (ap some h.0, Ascends.takes (omega arith) h.1)
