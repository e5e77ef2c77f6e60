-- ===== src/FaultInjection/Shuffle.antt =====
-- `cryptoShuffle` of dynamic-fault-injection/internal/fault/distribution.go. `choose n` is what
-- `cryptoIntn(n)` draws; the shuffle draws once for each bound.
use mathlib.Core.List.{Perm}
use mathlib.Core.List.Perm
use mathlib.Core.List.{Permᴰ}
use built_on_envoy.Prelude.{
  ℕ, zero, suc, ◌+◌, ◌-◌, ◌<◌, ◌≤◌, Option, none, some, List, [], ◌∷◌, ◌≡◌, refl, ◌∙◌, subst, arith,
  length, get_elem?, set, length-set, get_elem?_total, get_elem?-set_self, get_elem?-set_ne, inl,
  inr, nat_beq, Bool-cases,
}

-- What `rand.Int` promises: a draw below `n` is below `n`.
abbrev pub IsFair : (ℕ → ℕ) → Type 0
IsFair choose = (n : ℕ) → 0 < n → choose n < n

module _ {ℓ} {A : Type ℓ} where
  -- values[i], values[j] = values[j], values[i]; an index out of range is a panic, `none`
  unfoldable pub swap : ℕ → ℕ → List A → Option (List A)
  swap i j values = elim (get_elem? values i) [
    | none ↦ none
    | some a ↦ elim (get_elem? values j) [ none ↦ none | some b ↦ some (set (set values i b) j a) ]
  ]

  -- for i := n - 1; i > 0; i-- { swap(i, cryptoIntn(i + 1)) }, from i down
  unfoldable pub shuffle_from : (ℕ → ℕ) → ℕ → List A → Option (List A)
  shuffle_from choose zero values = some values
  shuffle_from choose (suc i) values = elim (swap (suc i) (choose (suc i + 1)) values) [
    | none ↦ none
    | some swapped ↦ shuffle_from choose i swapped
  ]

  unfoldable pub crypto_shuffle : (ℕ → ℕ) → List A → Option (List A)
  crypto_shuffle choose values = shuffle_from choose (length values - 1) values

  -- `result` is there, and is a reordering of `values`.
  abbrev pub IsReordering : Option (List A) → List A → Type ℓ
  IsReordering result values =
      (ys : List A) × (result ≡ some ys) × (length ys ≡ length values) × Perm ys values

  set-perm :
      (xs : List A) (i : ℕ) (a b : A) → get_elem? xs i ≡ some a → Permᴰ (b ∷ xs) (a ∷ set xs i b)
  unfolding get_elem? set
  set-perm [] i a b h = cc
  set-perm (x ∷ xs) zero a b h = Permᴰ.swap refl (ground arith)
  set-perm (x ∷ xs) (suc i) a b h =
      Permᴰ.trans (Permᴰ.swap refl refl)
        (Permᴰ.trans (Permᴰ.cons refl (set-perm xs i a b h)) (Permᴰ.swap refl refl))

  -- What a swap in range does, given what stands at the two places.
  swap-perm_at :
      (i j : ℕ) (xs : List A) (a b : A)
      → get_elem? xs i ≡ some a
      → get_elem? xs j ≡ some b
      → Perm (set (set xs i b) j a) xs
  swap-perm_at i j xs a b hi hj =
      let there : get_elem? (set xs i b) j ≡ some b = elim (Bool-cases (nat_beq i j)) [
        | inl e ↦
            subst (λ k. get_elem? (set xs i b) k ≡ some b) (ground arith)
              (get_elem?-set_self xs i a b hi)
        | inr ne ↦ get_elem?-set_ne xs i j b (λ e. ground arith) ∙ hj
      ] in
      Perm.symm
        (Perm.cons_inv ∣ Permᴰ.trans (set-perm xs i a b hi) (set-perm (set xs i b) j b a there) ∣₁)

  swap_at :
      (i j : ℕ) (xs : List A) (a b : A)
      → get_elem? xs i ≡ some a
      → get_elem? xs j ≡ some b
      → swap i j xs ≡ some (set (set xs i b) j a)
  unfolding swap
  swap_at i j xs a b hi hj = rw (hi, hj, swap) refl

  swap-IsReordering :
      (i j : ℕ) (xs : List A) → i < length xs → j < length xs → IsReordering (swap i j xs) xs
  swap-IsReordering i j xs hi hj =
      let (a, ga) = get_elem?_total xs i hi in
      let (b, gb) = get_elem?_total xs j hj in
      (
        set (set xs i b) j a,
        swap_at i j xs a b ga gb,
        length-set (set xs i b) j a ∙ length-set xs i b,
        swap-perm_at i j xs a b ga gb,
      )

  shuffle_from-IsReordering :
      (choose : ℕ → ℕ)
      → IsFair choose
      → (i : ℕ) (xs : List A) → i ≤ length xs - 1
      → IsReordering (shuffle_from choose i xs) xs
  unfolding shuffle_from
  shuffle_from-IsReordering choose fair zero xs h = (xs, refl, refl, Perm.refl xs)
  shuffle_from-IsReordering choose fair (suc i) xs h =
      let (ys, e, n, p) =
        swap-IsReordering (suc i) (choose (suc i + 1)) xs (omega arith)
          (omega (arith, fair (suc i + 1) (omega arith))) in
      let (zs, f, m, q) = shuffle_from-IsReordering choose fair i ys (omega arith) in
      (zs, rw (e, shuffle_from) f, m ∙ n, Perm.trans q p)

  pub crypto_shuffle-IsReordering :
      (choose : ℕ → ℕ) (xs : List A) → IsFair choose → IsReordering (crypto_shuffle choose xs) xs
  unfolding crypto_shuffle
  crypto_shuffle-IsReordering choose xs fair =
      shuffle_from-IsReordering choose fair (length xs - 1) xs (omega arith)
