-- ===== src/Prelude/Assoc.antt =====
-- Go maps with string keys, as lists of entries, and `map[string]bool` sets, as lists of keys.
-- A read takes the first entry of its key, and a write replaces it in place.
use mathlib.Core.List.Memᴰ
use mathlib.Core.Path.{◌≡◌, refl, subst, ap}
use mathlib.Core.Logic.{◌⊎◌, inl, inr}
use mathlib.Core.Option.{Option, none, some}
use mathlib.Core.List.{List, [], ◌∷◌, Memᴰ}
use native.Mathlib.Omega.{arith}
use built_on_envoy.Prelude.Tests.{◌==◌, eq_iff, Bool-cases, if◌then◌else◌}
use built_on_envoy.Prelude.Strings.{Bytes, bytes_eq}

abbrev pub GoMap {ℓ} : Type ℓ → Type ℓ
GoMap V = List (Bytes × V)

module _ {ℓ} {V : Type ℓ} where
  -- v, ok := m[k]
  unfoldable pub lookup : Bytes → GoMap V → Option V
  lookup key [] = none
  lookup key ((other, v) ∷ rest) = if other == key then some v else lookup key rest

  -- m[k] = v
  unfoldable pub insert : Bytes → V → GoMap V → GoMap V
  insert key v [] = (key, v) ∷ []
  insert key v ((other, old) ∷ rest) =
      if other == key then (key, v) ∷ rest else (other, old) ∷ insert key v rest

  pub lookup-insert :
      (written read : Bytes) (v : V) (entries : GoMap V)
      → lookup read (insert written v entries)
        ≡ (if written == read then some v else lookup read entries)
  unfolding insert lookup
  lookup-insert written read v [] = refl
  lookup-insert written read v ((other, old) ∷ rest) =
      let later = lookup-insert written read v rest in
      ground (arith, later, eq_iff other read, eq_iff other written, eq_iff written read)

module _ {ℓ} {V : Type ℓ} where
  -- No key stands twice.
  abbrev pub IsMap : GoMap V → Type ℓ
  IsMap [] = Unit
  IsMap ((k, v) ∷ m) = (lookup k m ≡ none) × IsMap m

  pub insert-IsMap : (k : Bytes) (v : V) (m : GoMap V) → IsMap m → IsMap (insert k v m)
  unfolding insert
  insert-IsMap k v [] h = (unfold lookup in refl, tt)
  insert-IsMap k v ((j, w) ∷ m) h = elim (Bool-cases (j == k)) [
    | inl e ↦ rw e (subst (λ x. lookup x m ≡ none) ((eq_iff j k).0 e) h.0, h.1)
    | inr e ↦
        rw e (ground (arith, lookup-insert k j v m, eq_iff j k, eq_iff k j), insert-IsMap k v m h.1)
  ]

  pub mem_of_lookup : (k : Bytes) (v : V) (m : GoMap V) → lookup k m ≡ some v → Memᴰ (k, v) m
  unfolding lookup
  mem_of_lookup k v [] h = cc
  mem_of_lookup k v ((j, w) ∷ m) h = elim (Bool-cases (j == k)) [
    | inl e ↦ Memᴰ.head (ground (arith, eq_iff j k))
    | inr e ↦ Memᴰ.tail (mem_of_lookup k v m (ground arith))
  ]

  pub lookup_of_mem :
      (k : Bytes) (v : V) (m : GoMap V) → IsMap m → Memᴰ (k, v) m → lookup k m ≡ some v
  unfolding lookup
  lookup_of_mem k v [] i h = elim h [ ]
  lookup_of_mem k v ((j, w) ∷ m) i (Memᴰ.head e) = ground (arith, eq_iff j k)
  lookup_of_mem k v ((j, w) ∷ m) i (Memᴰ.tail h) =
      ground (arith, eq_iff j k, lookup_of_mem k v m i.1 h)

  pub mem-insert :
      (k j : Bytes) (v w : V) (m : GoMap V)
      → Memᴰ (j, w) (insert k v m)
      → ((j ≡ k) × (w ≡ v)) ⊎ Memᴰ (j, w) m
  unfolding insert
  mem-insert k j v w [] (Memᴰ.head e) =
      inl (ap (λ (x : Bytes × V). x.0) e, ap (λ (x : Bytes × V). x.1) e)
  mem-insert k j v w [] (Memᴰ.tail h) = elim h [ ]
  mem-insert k j v w ((i, u) ∷ m) h = elim (Bool-cases (i == k)) [
    | inl e ↦ elim (Memᴰ.cases_cons (rw e at h)) [
      | inl q ↦ inl (ap (λ (x : Bytes × V). x.0) q, ap (λ (x : Bytes × V). x.1) q)
      | inr r ↦ inr (Memᴰ.tail r)
    ]
    | inr e ↦ elim (Memᴰ.cases_cons (rw e at h)) [
      | inl q ↦ inr (Memᴰ.head q)
      | inr r ↦ elim (mem-insert k j v w m r) [ inl q ↦ inl q | inr s ↦ inr (Memᴰ.tail s) ]
    ]
  ]
