-- ===== src/Prelude/Sort.antt =====
-- `sort.Slice`, as an insertion sort by a strict order. Go's sort is not stable: where two items
-- may tie, only what holds of every sort is to be concluded, and where none do the result is unique.
use mathlib.Core.List.Permᴰ
use mathlib.Core.Logic.{inl, inr, ◌↔◌}
use mathlib.Core.Path.{◌≡◌, refl, ◌∙◌, subst}
use mathlib.Core.Bool.{Bool, true, false}
use mathlib.Core.List.{List, [], ◌∷◌, Memᴰ, Permᴰ}
use native.Mathlib.Omega.{arith}
use built_on_envoy.Prelude.Tests.{if◌then◌else◌, Bool-cases}
use built_on_envoy.Prelude.Strings.{Bytes, bytes_ltb, bytes_ltb_asym, bytes_ltb_trans}
use built_on_envoy.Prelude.Lists.{All, All-imp}

module _ {ℓ} {A : Type ℓ} (less : A → A → Bool) where
  unfoldable pub insert_sorted : A → List A → List A
  insert_sorted a [] = a ∷ []
  insert_sorted a (x ∷ xs) = if less x a then x ∷ insert_sorted a xs else a ∷ x ∷ xs

  unfoldable pub sort_slice : List A → List A
  unfolding insert_sorted
  sort_slice [] = []
  sort_slice (x ∷ xs) = insert_sorted x (sort_slice xs)

  -- The laws that `sort.Slice` asks of its test.
  pub record IsStrictWeak : Type ℓ where
    pub asym : (a b : A) → less a b ≡ true → less b a ≡ false
    pub trans : (a b c : A) → less b a ≡ false → less c b ≡ false → less c a ≡ false

  -- Neither of two items is below the other.
  abbrev pub Tied : A → A → Type 0
  Tied a b = (less a b ≡ false) × (less b a ≡ false)

  abbrev pub Untied : List A → Type ℓ
  Untied [] = Unit
  Untied (x ∷ xs) = All (λ y. ¬ Tied x y) xs × Untied xs

  abbrev pub IsSorted : List A → Type ℓ
  IsSorted [] = Unit
  IsSorted (x ∷ xs) = All (λ y. less y x ≡ false) xs × IsSorted xs

  insert_sorted-perm : (a : A) (xs : List A) → Permᴰ (insert_sorted a xs) (a ∷ xs)
  unfolding insert_sorted
  insert_sorted-perm a [] = Permᴰ.refl (a ∷ [])
  insert_sorted-perm a (x ∷ xs) = elim (Bool-cases (less x a)) [
    | inl e ↦ rw e (Permᴰ.trans (Permᴰ.cons refl (insert_sorted-perm a xs)) (Permᴰ.swap refl refl))
    | inr e ↦ rw e (Permᴰ.refl (a ∷ x ∷ xs))
  ]

  pub sort_slice-perm : (xs : List A) → Permᴰ (sort_slice xs) xs
  unfolding sort_slice
  sort_slice-perm [] = Permᴰ.nil
  sort_slice-perm (x ∷ xs) =
      Permᴰ.trans (insert_sorted-perm x (sort_slice xs)) (Permᴰ.cons refl (sort_slice-perm xs))

  insert_sorted-All {κ} :
      (P : A → Type κ) (a : A) (xs : List A) → P a → All P xs → All P (insert_sorted a xs)
  unfolding insert_sorted
  insert_sorted-All P a [] p h = (p, tt)
  insert_sorted-All P a (x ∷ xs) p h = elim (Bool-cases (less x a)) [
    | inl e ↦ rw e (h.0, insert_sorted-All P a xs p h.1)
    | inr e ↦ rw e (p, h)
  ]

  pub sort_slice-All {κ} : (P : A → Type κ) (xs : List A) → All P xs → All P (sort_slice xs)
  unfolding sort_slice
  sort_slice-All P [] h = tt
  sort_slice-All P (x ∷ xs) h = insert_sorted-All P x (sort_slice xs) h.0 (sort_slice-All P xs h.1)

  module _ (laws : IsStrictWeak) where
    insert_sorted-IsSorted : (a : A) (xs : List A) → IsSorted xs → IsSorted (insert_sorted a xs)
    unfolding insert_sorted
    insert_sorted-IsSorted a [] s = (tt, tt)
    insert_sorted-IsSorted a (x ∷ xs) s = elim (Bool-cases (less x a)) [
      | inl e ↦ rw e (
        insert_sorted-All (λ y. less y x ≡ false) a xs (laws.asym x a e) s.0,
        insert_sorted-IsSorted a xs s.1,
      )
      | inr e ↦ rw e ((e, All-imp _ _ (λ y h. laws.trans a x y e h) xs s.0), s)
    ]

    pub sort_slice-IsSorted : (xs : List A) → IsSorted (sort_slice xs)
    unfolding sort_slice
    sort_slice-IsSorted [] = tt
    sort_slice-IsSorted (x ∷ xs) = insert_sorted-IsSorted x (sort_slice xs) (sort_slice-IsSorted xs)

    insert_sorted_comm :
        (a b : A) (xs : List A)
        → ¬ Tied a b
        → insert_sorted a (insert_sorted b xs) ≡ insert_sorted b (insert_sorted a xs)
    unfolding insert_sorted
    insert_sorted_comm a b [] h = ground (arith, laws.asym a b)
    insert_sorted_comm a b (x ∷ xs) h =
        ground (arith, laws.asym a b, laws.trans a b x, laws.trans b a x, insert_sorted_comm a b xs)

module _ {ℓ} {A : Type ℓ} where
  pub All-perm {κ} : (P : A → Type κ) {xs ys : List A} → Permᴰ xs ys → All P xs → All P ys
  All-perm P Permᴰ.nil h = tt
  All-perm P (Permᴰ.cons e p) h = (subst P e h.0, All-perm P p h.1)
  All-perm P (Permᴰ.swap e f) h = (subst P f h.1.0, (subst P e h.0, h.1.1))
  All-perm P (Permᴰ.trans p q) h = All-perm P q (All-perm P p h)

module _ {ℓ} {A : Type ℓ} where
  pub mem-perm : {a : A} {xs ys : List A} → Permᴰ xs ys → Memᴰ a xs → Memᴰ a ys
  mem-perm Permᴰ.nil m = m
  mem-perm (Permᴰ.cons e p) (Memᴰ.head q) = Memᴰ.head (q ∙ e)
  mem-perm (Permᴰ.cons e p) (Memᴰ.tail m) = Memᴰ.tail (mem-perm p m)
  mem-perm (Permᴰ.swap e f) (Memᴰ.head q) = Memᴰ.tail (Memᴰ.head (q ∙ e))
  mem-perm (Permᴰ.swap e f) (Memᴰ.tail (Memᴰ.head q)) = Memᴰ.head (q ∙ f)
  mem-perm (Permᴰ.swap e f) (Memᴰ.tail (Memᴰ.tail m)) = Memᴰ.tail (Memᴰ.tail m)
  mem-perm (Permᴰ.trans p q) m = mem-perm q (mem-perm p m)

module _ {ℓ} {A : Type ℓ} (less : A → A → Bool) where
  pub mem-sort_slice : (a : A) (xs : List A) → Memᴰ a (sort_slice less xs) ↔ Memᴰ a xs
  mem-sort_slice a xs =
      (mem-perm (sort_slice-perm less xs), mem-perm (Permᴰ.symm (sort_slice-perm less xs)))

module _ {ℓ} {A : Type ℓ} (less : A → A → Bool) (laws : IsStrictWeak less) where
  Untied-perm : {xs ys : List A} → Permᴰ xs ys → Untied less xs → Untied less ys
  Untied-perm Permᴰ.nil h = tt
  Untied-perm (Permᴰ.cons {l₂ = ys} e p) h =
      (subst (λ b. All (λ y. ¬ Tied less b y) ys) e (All-perm _ p h.0), Untied-perm p h.1)
  Untied-perm (Permᴰ.swap {a = a} {b = b} {b' = b'} {l = l} e f) h =
      subst (λ y. Untied less (y ∷ b' ∷ l)) f
        (subst (λ x. Untied less (b ∷ x ∷ l)) e (((λ t. h.0.0 (t.1, t.0)), h.1.0), (h.0.1, h.1.1)))
  Untied-perm (Permᴰ.trans p q) h = Untied-perm q (Untied-perm p h)

  -- Where no two items tie, the result does not depend on the order of the input.
  pub sort_slice-eq_of_perm :
      {xs ys : List A} → Permᴰ xs ys → Untied less xs → sort_slice less xs ≡ sort_slice less ys
  unfolding sort_slice
  sort_slice-eq_of_perm Permᴰ.nil h = refl
  sort_slice-eq_of_perm (Permᴰ.cons e p) h = cc (sort_slice-eq_of_perm p h.1)
  sort_slice-eq_of_perm (Permᴰ.swap {a = a} {b = b} {l = l} e f) h =
      cc (insert_sorted_comm less laws a b (sort_slice less l) h.0.0)
  sort_slice-eq_of_perm (Permᴰ.trans p q) h =
      sort_slice-eq_of_perm p h ∙ sort_slice-eq_of_perm q (Untied-perm p h)

-- The order of items by a key that is a string.
module _ {ℓ} {A : Type ℓ} (key : A → Bytes) where
  abbrev pub by_key : A → A → Bool
  by_key a b = bytes_ltb (key a) (key b)

  pub by_key-IsStrictWeak : IsStrictWeak by_key
  by_key-IsStrictWeak = record {
    asym = λ a b. bytes_ltb_asym (key a) (key b);
    trans = λ a b c. bytes_ltb_trans (key a) (key b) (key c);
  }
