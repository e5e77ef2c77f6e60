-- ===== src/FaultInjection/Weights.antt =====
-- The weighted choice of a response: which entry is chosen, and that a sample never fails.

use built_on_envoy.Prelude.{
  ◌^◌, ℕ, zero, suc, ◌+◌, ◌<◌, ◌≤◌, some, true, List, [], ◌∷◌, ◌≡◌, ◌∙◌, refl, sym, subst, inl, inr,
  arith, ltb, get_elem?, set, take, All, Bool-cases, Option-cases,
}
use built_on_envoy.Prelude.Int.{ℤ}
use built_on_envoy.FaultInjection.Floats.{Floats}
use built_on_envoy.FaultInjection.Interpolate.{sample_with_value}
use built_on_envoy.FaultInjection.Shuffle.{IsFair}
use built_on_envoy.FaultInjection.Cycles.{sample_total}
use built_on_envoy.FaultInjection.Response.{
  DurationDistribution, ResponseEntry, ResponseDistribution, ResponseSample, Draws, sample_duration,
  is_positive, select, choose_entry, sample_entry, sample_response, total, IsShare, HasSamples,
  IsSampleable, IsValid,
}

module _ (F : Floats) where
  IsShare-zero :
      (r c : ℕ) (e : ResponseEntry F) (es : List (ResponseEntry F))
      → c ≤ r
      → ltb r (c + e.weight) ≡ true
      → IsShare F c (e ∷ es) r 0
  unfolding get_elem? take total
  IsShare-zero r c e es h k = record {
    entry = e;
    present = refl;
    above = omega arith;
    below = ground arith;
  }

  IsShare-suc :
      (r c i : ℕ) (e : ResponseEntry F) (es : List (ResponseEntry F))
      → IsShare F (c + e.weight) es r i
      → IsShare F c (e ∷ es) r (suc i)
  unfolding get_elem? take total
  IsShare-suc r c i e es s = record {
    entry = s.entry;
    present = s.present;
    above = omega (arith, s.above);
    below = omega (arith, s.below);
  }

  select_sound :
      (r c : ℕ) (entries : List (ResponseEntry F)) (i : ℕ)
      → c ≤ r
      → select F r c entries ≡ some i
      → IsShare F c entries r i
  unfolding select
  select_sound r c [] i h k = cc
  select_sound r c (e ∷ es) i h k = elim (Bool-cases (ltb r (c + e.weight))) [
    | inl q ↦
        let z : 0 ≡ i = ground arith in
        subst (λ j. IsShare F c (e ∷ es) r j) z (IsShare-zero r c e es h q)
    | inr q ↦ elim (Option-cases (select F r (c + e.weight) es)) [
      | inl n ↦ absurd (ground arith)
      | inr (j, n) ↦
          let z : suc j ≡ i = ground arith in
          subst (λ j. IsShare F c (e ∷ es) r j) z
            (IsShare-suc r c j e es (select_sound r (c + e.weight) es j (ground arith) n))
    ]
  ]

  select-total :
      (r c : ℕ) (entries : List (ResponseEntry F))
      → r < c + total F entries
      → c ≤ r
      → (i : ℕ) × (select F r c entries ≡ some i)
  unfolding select total
  select-total r c [] h k = absurd (omega arith)
  select-total r c (e ∷ es) h k = elim (Bool-cases (ltb r (c + e.weight))) [
    | inl q ↦ (0, ground arith)
    | inr q ↦
        let (i, n) = select-total r (c + e.weight) es (omega arith) (ground arith) in
        (suc i, ground arith)
  ]

  total-set :
      (entries : List (ResponseEntry F)) (i : ℕ) (e new : ResponseEntry F)
      → get_elem? entries i ≡ some e
      → new.weight ≡ e.weight
      → total F (set entries i new) ≡ total F entries
  unfolding total get_elem? set
  total-set [] i e new h k = refl
  total-set (x ∷ xs) zero e new h k = let q : x.weight ≡ e.weight = cc in omega arith
  total-set (x ∷ xs) (suc i) e new h k = omega (arith, total-set xs i e new h k)

  set-IsSampleable :
      (entries : List (ResponseEntry F)) (i : ℕ) (new : ResponseEntry F)
      → All (IsSampleable F) entries
      → IsSampleable F new
      → All (IsSampleable F) (set entries i new)
  unfolding set
  set-IsSampleable [] i new h k = tt
  set-IsSampleable (x ∷ xs) zero new h k = (k, h.1)
  set-IsSampleable (x ∷ xs) (suc i) new h k = (h.0, set-IsSampleable xs i new h.1 k)

  get_elem?-IsSampleable :
      (entries : List (ResponseEntry F)) (i : ℕ) (e : ResponseEntry F)
      → All (IsSampleable F) entries
      → get_elem? entries i ≡ some e
      → IsSampleable F e
  unfolding get_elem?
  get_elem?-IsSampleable [] i e h k = cc
  get_elem?-IsSampleable (x ∷ xs) zero e h k =
      let q : x ≡ e = cc in subst (λ y. IsSampleable F y) q h.0
  get_elem?-IsSampleable (x ∷ xs) (suc i) e h k = get_elem?-IsSampleable xs i e h.1 k

  abbrev with_distribution : ResponseEntry F → DurationDistribution F → ResponseEntry F
  with_distribution e d = record {
    status = e.status;
    weight = e.weight;
    distribution = d;
    local_response = e.local_response;
  }

  sample_duration_total :
      (draws : Draws F) (distribution : DurationDistribution F)
      → IsFair draws.shuffle
      → HasSamples F distribution
      → (d : ℤ) × (after : DurationDistribution F) × (sample_duration F draws distribution
          ≡ some (d, after))
        × HasSamples F after
  unfolding sample_duration
  sample_duration_total draws (DurationDistribution.stateful s) fair h =
      let (d, t, e, q, n) = sample_total draws.shuffle s fair h in
      (d, DurationDistribution.stateful t, rw (e, sample_duration) refl, omega arith)
  sample_duration_total draws (DurationDistribution.stateless ps) fair h =
      (sample_with_value F draws.fraction ps, DurationDistribution.stateless ps, refl, tt)

  positive_word : (n : ℕ) → 0 < n → n < 2 ^ 63 → is_positive n ≡ true
  unfolding is_positive
  positive_word n h k = ground arith

  sample_response_at :
      (draws : Draws F) (rd : ResponseDistribution F) (i : ℕ) (e : ResponseEntry F) (d : ℤ)
      (distribution : DurationDistribution F)
      → is_positive rd.total_weight ≡ true
      → select F draws.weight 0 rd.entries ≡ some i
      → get_elem? rd.entries i ≡ some e
      → sample_duration F draws e.distribution ≡ some (d, distribution)
      → sample_response F draws rd
        ≡ some (
          record { status = e.status; duration = d; local_response = e.local_response },
          record {
            entries = set rd.entries i (with_distribution e distribution);
            total_weight = rd.total_weight;
          },
        )
  unfolding sample_response choose_entry sample_entry
  sample_response_at draws rd i e d distribution b sel g s =
      let c : choose_entry F draws.weight rd.entries ≡ i = rw (sel, choose_entry) refl in
      rw (b, sample_response, c, g, sample_entry, s, c) refl

  -- With a draw below the total weight, the sample of a valid distribution succeeds with the status and
  -- response of the entry into whose share the draw falls, and leaves the distribution valid.
  pub sample_response_total :
      (draws : Draws F) (rd : ResponseDistribution F)
      → IsValid F rd
      → draws.weight < rd.total_weight
      → IsFair draws.shuffle
      → (out : ResponseSample) × (after : ResponseDistribution F) × (i : ℕ) × (share : IsShare F 0
          rd.entries draws.weight i)
        × (sample_response F draws rd ≡ some (out, after))
        × (out.status ≡ share.entry.status)
        × (out.local_response ≡ share.entry.local_response)
        × (after.total_weight ≡ rd.total_weight)
        × IsValid F after
  sample_response_total draws rd valid h fair =
      let (i, sel) =
        select-total draws.weight 0 rd.entries (omega (arith, valid.total_ok)) (omega arith) in
      let share = select_sound draws.weight 0 rd.entries i (omega arith) sel in
      let e = share.entry in
      let (d, dist, eq, ok) =
        sample_duration_total draws e.distribution fair
          (get_elem?-IsSampleable rd.entries i e valid.sampleable share.present) in
      (
        record { status = e.status; duration = d; local_response = e.local_response },
        record {
          entries = set rd.entries i (with_distribution e dist);
          total_weight = rd.total_weight;
        },
        i,
        share,
        sample_response_at draws rd i e d dist
            (positive_word rd.total_weight (omega arith) valid.in_range) sel share.present eq,
        refl,
        refl,
        refl,
        record {
          total_ok =
              valid.total_ok
              ∙ sym (total-set rd.entries i e (with_distribution e dist) share.present refl);
          in_range = valid.in_range;
          sampleable = set-IsSampleable rd.entries i (with_distribution e dist) valid.sampleable ok;
        },
      )
