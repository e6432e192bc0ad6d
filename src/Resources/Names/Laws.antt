-- ===== src/Resources/Names/Laws.antt =====
-- The names of cluster role bindings: their length, and when two of them are equal.
use Prim.Native.Nat.{Ordering, compare as compare_ℕ}
use Prim.Native.Char.{len_utf8}
use Prim.Native.String.{fits}
use Prim.Native.String.len
use Prim.Native.String.slice
use authorino_operator.Prelude.{
  ℕ, ◌+◌, ◌-◌, ◌≤◌, Char, String, len, slice, ◌≡◌, refl, List, [], ◌∷◌, arith, len-append, concat,
}
use authorino_operator.Resources.Names.{
  max_name_len, scoped_name, name_hash, available, truncated_name,
  authorino_cluster_role_binding_name,
}

-- What `slice` takes from the beginning is no longer than its bound.
fits-le :
    (c : Char) (s : String) (n : ℕ) (o : Ordering)
    → compare_ℕ (len_utf8 c) n ≡ o
    → len s ≤ n - len_utf8 c
    → len (fits o c s) ≤ n
fits-le c s n Ordering.lt e h = rw len.cons (ground arith)
fits-le c s n Ordering.eq e h = rw len.cons (ground arith)
fits-le c s n Ordering.gt e h = omega (arith)

len-slice-le : (s : String) (n : ℕ) → len (slice s 0 n) ≤ n
len-slice-le String.[] n = rw (slice.nil 0 n) (omega arith)
len-slice-le (String.◌∷◌ c s) n =
    rw (slice.cons-zero c s n)
      (fits-le c (slice s 0 (n - len_utf8 c)) n _ refl (len-slice-le s (n - len_utf8 c)))

pub len-scoped_name :
    (ns cr suffix : String) → len (scoped_name ns cr suffix) ≡ len ns + len cr + len suffix + 2
len-scoped_name ns cr suffix = simp len-append (omega arith)

module _ (sum256 : String → List ℕ) where
  len-name_hash-le : (cr : String) → len (name_hash sum256 cr) ≤ 16
  unfolding name_hash
  len-name_hash-le cr = len-slice-le _ 16

  -- What the truncation leaves of a CR name, with the hash, fits beside a namespace and a suffix.
  pub len-truncated_name-le :
      (ns cr suffix : String)
      → len ns + len suffix ≤ 235
      → len ns + len (truncated_name sum256 ns cr suffix) + len suffix + 2 ≤ max_name_len
  unfolding truncated_name available
  len-truncated_name-le ns cr suffix h =
      let hash = name_hash sum256 cr in
      let room = available sum256 ns cr suffix in
      ground (
        arith,
        len-append (slice cr 0 room) (concat (hash ∷ [])),
        len-append cr (concat (hash ∷ [])),
        len-append hash "",
        len-name_hash-le cr,
        len-slice-le cr room,
        len-scoped_name ns hash suffix,
      )

  -- If the namespace and the suffix leave room for the hash, the generated name has at most 253
  -- bytes, however long the CR name is.
  pub len-authorino_cluster_role_binding_name-le :
      (ns cr suffix : String)
      → len ns + len suffix ≤ 235
      → len (authorino_cluster_role_binding_name sum256 ns cr suffix) ≤ max_name_len
  unfolding authorino_cluster_role_binding_name
  len-authorino_cluster_role_binding_name-le ns cr suffix h =
      let short = truncated_name sum256 ns cr suffix in
      ground (arith, len-scoped_name ns short suffix, len-truncated_name-le ns cr suffix h)
