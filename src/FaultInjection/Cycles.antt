-- ===== src/FaultInjection/Cycles.antt =====
-- What successive calls of `StatefulProbabilityDistribution.Sample` return, cycle by cycle.
use mathlib.Core.List.{Perm}
use mathlib.Core.List.Perm
use built_on_envoy.Prelude.{
  ℕ, suc, ◌+◌, ◌<◌, some, false, List, [], ◌∷◌, ◌++◌, ◌≡◌, refl, sym, ◌∙◌, subst, inl, inr, arith,
  ltb, map, length, drop, drop_step, drop_all, get_elem?_total, concat, All, All-imp, Bool-cases,
  Option-cases,
}
use built_on_envoy.FaultInjection.Shuffle.{IsFair, crypto_shuffle-IsReordering}
use built_on_envoy.FaultInjection.Stateful.{
  StatefulProbabilityDistribution, next, sample, samples, IsInCycle, IsBoundary, next_at,
  sample_within, sample_past,
}

module _ {ℓ} {A : Type ℓ} where
  abbrev at : List A → ℕ → StatefulProbabilityDistribution A
  at values index = record { values = values; index = index }

  samples_step :
      (choose : ℕ → ℕ) (chooses : List (ℕ → ℕ)) (s t u : StatefulProbabilityDistribution A) (a : A)
      (out : List A)
      → sample choose s ≡ some (a, t)
      → samples chooses t ≡ some (out, u)
      → samples (choose ∷ chooses) s ≡ some (a ∷ out, u)
  unfolding samples
  samples_step choose chooses s t u a out h k = rw (h, k, samples) refl

  -- Inside a cycle the values follow one another, to the end.
  samples_rest :
      (chooses : List (ℕ → ℕ)) (values : List A) (i : ℕ)
      → i + length chooses ≡ length values
      → samples chooses (at values i) ≡ some (drop i values, at values (length values))
  unfolding samples
  samples_rest [] values i h =
      let e : i ≡ length values = omega arith in
      rw (drop_all i values (omega arith), e, samples) refl
  samples_rest (choose ∷ chooses) values i h =
      let (a, ga) = get_elem?_total values i (omega arith) in
      rw (drop_step values i a ga) (
        samples_step choose chooses (at values i) (at values (suc i)) (at values (length values)) a
          (drop (suc i) values)
          (sample_within choose values i (ground arith) ∙ next_at values i a ga)
          (samples_rest chooses values (suc i) (omega arith)))

  -- Past the end, a sample is the first of a reordering of the values.
  Reshuffled : (ℕ → ℕ) → StatefulProbabilityDistribution A → Type ℓ
  Reshuffled choose s =
      (ys : List A) × (sample choose s ≡ next (at ys 0))
      × (length ys ≡ length s.values)
      × Perm ys s.values

  reshuffle :
      (choose : ℕ → ℕ) (s : StatefulProbabilityDistribution A)
      → IsFair choose
      → ltb s.index (length s.values) ≡ false
      → Reshuffled choose s
  unfolding Reshuffled
  reshuffle choose s fair past =
      let (ys, e, n, p) = crypto_shuffle-IsReordering choose s.values fair in
      (ys, sample_past choose s.values ys s.index past e, n, p)

  abbrev Sampled : (ℕ → ℕ) → StatefulProbabilityDistribution A → Type ℓ
  Sampled choose s =
      (a : A) × (t : StatefulProbabilityDistribution A) × (sample choose s ≡ some (a, t))
      × IsInCycle t
      × (length t.values ≡ length s.values)

  -- One sample always succeeds, if there are values at all.
  pub sample_total :
      (choose : ℕ → ℕ) (s : StatefulProbabilityDistribution A)
      → IsFair choose
      → 0 < length s.values
      → (a : A) × (t : StatefulProbabilityDistribution A) × (sample choose s ≡ some (a, t))
        × IsInCycle t
        × (length t.values ≡ length s.values)
  unfolding Reshuffled
  sample_total choose s fair k = elim (Bool-cases (ltb s.index (length s.values))) [
    | inl within ↦
        let (a, ga) = get_elem?_total s.values s.index (ground arith) in
        (
          a,
          at s.values (suc s.index),
          sample_within choose s.values s.index within ∙ next_at s.values s.index a ga,
          ground arith,
          refl,
        )
    | inr past ↦
        let (ys, e, n, p) = reshuffle choose s fair past in
        let (a, ga) = get_elem?_total ys 0 (omega arith) in
        (a, at ys 1, e ∙ next_at ys 0 a ga, omega arith, n)
  ]

  -- The calls with `chooses` succeed with `out` and `t`: a reordering of the values, and the end of the
  -- cycle.
  pub record IsCycle (chooses : List (ℕ → ℕ)) (s : StatefulProbabilityDistribution A) (out : List A)
      (t : StatefulProbabilityDistribution A) : Type ℓ where
    pub succeeds : samples chooses s ≡ some (out, t)
    pub all_values : Perm out s.values
    pub at_end : t.index ≡ length t.values
    pub same_length : length t.values ≡ length s.values
    pub same_values : Perm t.values s.values

  cycle_from_start :
      (chooses : List (ℕ → ℕ)) (values : List A)
      → length chooses ≡ length values
      → samples chooses (at values 0) ≡ some (values, at values (length values))
  unfolding drop
  cycle_from_start chooses values h = samples_rest chooses values 0 (omega arith)

  IsCycle-from_end :
      (choose : ℕ → ℕ) (chooses : List (ℕ → ℕ)) (s : StatefulProbabilityDistribution A)
      → IsFair choose
      → suc (length chooses) ≡ length s.values
      → s.index ≡ length s.values
      → (out : List A) × (t : StatefulProbabilityDistribution A) × IsCycle
          (choose ∷ chooses)
          s
          out
          t
  unfolding Reshuffled samples
  IsCycle-from_end choose chooses s fair h e =
      let (ys, q, n, p) = reshuffle choose s fair (ground arith) in
      let same : sample choose s ≡ sample choose (at ys 0) =
        q ∙ sym (sample_within choose ys 0 (ground arith)) in
      (
        ys,
        at ys (length ys),
        record {
          succeeds = rw (samples, same) (cycle_from_start (choose ∷ chooses) ys (omega arith));
          all_values = p;
          at_end = refl;
          same_length = n;
          same_values = p;
        },
      )

  IsCycle-from_zero :
      (chooses : List (ℕ → ℕ)) (s : StatefulProbabilityDistribution A)
      → s.index ≡ 0
      → length chooses ≡ length s.values
      → IsCycle chooses s s.values (at s.values (length s.values))
  IsCycle-from_zero chooses s e h = record {
    succeeds =
        subst
          (λ i. samples chooses (at s.values i) ≡ some (s.values, at s.values (length s.values)))
          (sym e) (cycle_from_start chooses s.values h);
    all_values = Perm.refl s.values;
    at_end = refl;
    same_length = refl;
    same_values = Perm.refl s.values;
  }

  -- From the start of a cycle, as many samples as there are values succeed, and the state is at the start
  -- of a cycle again.
  samples-IsCycle :
      (chooses : List (ℕ → ℕ)) (s : StatefulProbabilityDistribution A)
      → All IsFair chooses
      → IsBoundary s
      → length chooses ≡ length s.values
      → (out : List A) × (t : StatefulProbabilityDistribution A) × IsCycle chooses s out t
  samples-IsCycle chooses s fair (inl e) h =
      (s.values, at s.values (length s.values), IsCycle-from_zero chooses s e h)
  samples-IsCycle [] s fair (inr e) h =
      (s.values, at s.values (length s.values), IsCycle-from_zero [] s (omega arith) h)
  samples-IsCycle (choose ∷ chooses) s fair (inr e) h = IsCycle-from_end choose chooses s fair.0 h e

  -- What successful calls consist of.
  Split :
      (ℕ → ℕ)
      → List (ℕ → ℕ)
      → StatefulProbabilityDistribution A
      → List A
      → StatefulProbabilityDistribution A
      → Type ℓ
  Split choose chooses s out u =
      (a : A) × (t : StatefulProbabilityDistribution A) × (rest : List A) × (sample choose s
        ≡ some (a, t))
      × (samples chooses t ≡ some (rest, u))
      × (out ≡ a ∷ rest)

  samples-Split :
      (choose : ℕ → ℕ) (chooses : List (ℕ → ℕ)) (s u : StatefulProbabilityDistribution A)
      (out : List A)
      → samples (choose ∷ chooses) s ≡ some (out, u)
      → Split choose chooses s out u
  unfolding samples Split
  samples-Split choose chooses s u out h = elim (Option-cases (sample choose s)) [
    | inl e ↦ cc
    | inr ((a, t), e) ↦ elim (Option-cases (samples chooses t)) [
      | inl f ↦ cc
      | inr ((rest, v), f) ↦ (a, t, rest, e, cc, cc)
    ]
  ]

  samples-append :
      (xs ys : List (ℕ → ℕ)) (s t u : StatefulProbabilityDistribution A) (out more : List A)
      → samples xs s ≡ some (out, t)
      → samples ys t ≡ some (more, u)
      → samples (xs ++ ys) s ≡ some (out ++ more, u)
  unfolding samples Split
  samples-append [] ys s t u out more h k = cc
  samples-append (x ∷ xs) ys s t u out more h k =
      let (a, v, rest, e, f, g) = samples-Split x xs s t out h in
      rw g (
        samples_step x (xs ++ ys) s v u a (rest ++ more) e
          (samples-append xs ys v t u rest more f k))

  rounds-perm :
      {B : Type 0} (rounds : List B) (xs ys : List A)
      → Perm xs ys
      → Perm (concat (map (λ r. xs) rounds)) (concat (map (λ r. ys) rounds))
  unfolding concat
  rounds-perm [] xs ys p = Perm.refl []
  rounds-perm (r ∷ rounds) xs ys p = Perm.append p (rounds-perm rounds xs ys p)

  -- From the start of a cycle, any number of rounds of as many samples as there are values succeed, and
  -- together return each value once a round (as often as it is among the values, in each round).
  pub samples_rounds :
      (rounds : List (List (ℕ → ℕ))) (s : StatefulProbabilityDistribution A)
      → IsBoundary s
      → All (λ chooses. All IsFair chooses × (length chooses ≡ length s.values)) rounds
      → (out : List A) × (t : StatefulProbabilityDistribution A) × (samples (concat rounds) s
          ≡ some (out, t))
        × Perm out (concat (map (λ chooses. s.values) rounds))
  unfolding samples concat
  samples_rounds [] s b h = ([], s, refl, Perm.refl [])
  samples_rounds (chooses ∷ rounds) s b h =
      let (out, t, c) = samples-IsCycle chooses s h.0.0 b h.0.1 in
      let all =
        All-imp (λ r. All IsFair r × (length r ≡ length s.values))
          (λ r. All IsFair r × (length r ≡ length t.values)) (λ r w. (w.0, w.1 ∙ sym c.same_length))
          rounds h.1 in
      let (more, u, e, p) = samples_rounds rounds t (inr c.at_end) all in
      (
        out ++ more,
        u,
        samples-append chooses (concat rounds) s t u out more c.succeeds e,
        Perm.append c.all_values
            (Perm.trans p (rounds-perm rounds t.values s.values c.same_values)),
      )
