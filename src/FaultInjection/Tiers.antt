-- ===== src/FaultInjection/Tiers.antt =====
-- What a sample of dynamic-fault-injection/internal/fault/distribution.go by load is: from which distribution
-- it comes, and what the grey zone adds to it.
use built_on_envoy.Prelude.{◌<◌, Option, none, some, true, false, ◌≡◌, refl, Bool-cases, inl, inr}
use built_on_envoy.Prelude.Int.{ℤ, pos, ◌+ℤ◌}
use built_on_envoy.FaultInjection.Floats.{Floats}
use built_on_envoy.FaultInjection.Shuffle.{IsFair}
use built_on_envoy.FaultInjection.GreyZone.{GreyZoneState, calculate_grey_zone_penalty}
use built_on_envoy.FaultInjection.Response.{
  ResponseDistribution, ResponseSample, Draws, sample_response, IsValid,
}
use built_on_envoy.FaultInjection.Weights.{sample_response_total}
use built_on_envoy.FaultInjection.Load.{
  LoadBased, Tier, tier, penalize, grey_position, sample_tier, sample_load, sample_healthy,
  sample_tipping, add_penalty, delayed, with_healthy, with_tipping,
}

module _ (F : Floats) where
  -- The distribution that a tier samples.
  abbrev pub used : Tier F → LoadBased F → ResponseDistribution F
  used Tier.healthy_tier lb = lb.healthy
  used Tier.tipping_tier lb = lb.tipping_point
  used Tier.grey_healthy lb = lb.healthy
  used Tier.grey_tipping lb = lb.tipping_point

  -- What is added to the sampled duration.
  abbrev pub added : Tier F → ℤ → ℤ → ℤ
  added Tier.healthy_tier penalty d = d
  added Tier.tipping_tier penalty d = d
  added Tier.grey_healthy penalty d = d +ℤ penalty
  added Tier.grey_tipping penalty d = d +ℤ penalty

  pub record BothValid (lb : LoadBased F) : Type 0 where
    pub healthy_valid : IsValid F lb.healthy
    pub tipping_valid : IsValid F lb.tipping_point

  -- The result is a sample of the tier's distribution and its penalty, and the state after is valid, with
  -- the given grey zone.
  pub record Samples (t : Tier F) (draws : Draws F) (penalty : ℤ) (gz : Option (GreyZoneState F))
      (lb : LoadBased F) (result : Option (ResponseSample × LoadBased F)) : Type 0 where
    pub sampled : ResponseSample
    pub distribution : ResponseDistribution F
    pub after : LoadBased F
    pub is_sample : sample_response F draws (used t lb) ≡ some (sampled, distribution)
    pub out : ResponseSample
    pub succeeds : result ≡ some (out, after)
    pub status_kept : out.status ≡ sampled.status
    pub local_response_kept : out.local_response ≡ sampled.local_response
    pub penalty_added : out.duration ≡ added t penalty sampled.duration
    pub valid : BothValid after
    pub grey_zone_kept : after.grey_zone ≡ gz

  sample-IsValid :
      (draws : Draws F) (rd : ResponseDistribution F)
      → IsValid F rd
      → draws.weight < rd.total_weight
      → IsFair draws.shuffle
      → (s : ResponseSample) × (after : ResponseDistribution F) × (sample_response F draws rd
          ≡ some (s, after))
        × IsValid F after
  sample-IsValid draws rd v h fair =
      let (s, after, i, share, e, q, r, w, ok) = sample_response_total F draws rd v h fair in
      (s, after, e, ok)

  sample_tier_total :
      (t : Tier F) (draws : Draws F) (penalty : ℤ) (gz : Option (GreyZoneState F))
      (lb : LoadBased F)
      → BothValid lb
      → draws.weight < (used t lb).total_weight
      → IsFair draws.shuffle
      → Samples t draws penalty gz lb (sample_tier F t draws penalty gz lb)
  unfolding sample_tier sample_healthy sample_tipping add_penalty delayed
  sample_tier_total Tier.healthy_tier draws penalty gz lb v h fair =
      let (s, rd, e, ok) = sample-IsValid draws lb.healthy v.healthy_valid h fair in
      record {
        sampled = s;
        distribution = rd;
        after = with_healthy F rd gz lb;
        out = s;
        is_sample = e;
        succeeds = rw (e, sample_tier, sample_healthy) refl;
        status_kept = refl;
        local_response_kept = refl;
        penalty_added = refl;
        valid = record { healthy_valid = ok; tipping_valid = v.tipping_valid };
        grey_zone_kept = refl;
      }
  sample_tier_total Tier.tipping_tier draws penalty gz lb v h fair =
      let (s, rd, e, ok) = sample-IsValid draws lb.tipping_point v.tipping_valid h fair in
      record {
        sampled = s;
        distribution = rd;
        after = with_tipping F rd gz lb;
        out = s;
        is_sample = e;
        succeeds = rw (e, sample_tier, sample_tipping) refl;
        status_kept = refl;
        local_response_kept = refl;
        penalty_added = refl;
        valid = record { healthy_valid = v.healthy_valid; tipping_valid = ok };
        grey_zone_kept = refl;
      }
  sample_tier_total Tier.grey_healthy draws penalty gz lb v h fair =
      let (s, rd, e, ok) = sample-IsValid draws lb.healthy v.healthy_valid h fair in
      record {
        sampled = s;
        distribution = rd;
        after = with_healthy F rd gz lb;
        out = delayed F penalty s;
        is_sample = e;
        succeeds = rw (e, sample_tier, sample_healthy, add_penalty) refl;
        status_kept = refl;
        local_response_kept = refl;
        penalty_added = refl;
        valid = record { healthy_valid = ok; tipping_valid = v.tipping_valid };
        grey_zone_kept = refl;
      }
  sample_tier_total Tier.grey_tipping draws penalty gz lb v h fair =
      let (s, rd, e, ok) = sample-IsValid draws lb.tipping_point v.tipping_valid h fair in
      record {
        sampled = s;
        distribution = rd;
        after = with_tipping F rd gz lb;
        out = delayed F penalty s;
        is_sample = e;
        succeeds = rw (e, sample_tier, sample_tipping, add_penalty) refl;
        status_kept = refl;
        local_response_kept = refl;
        penalty_added = refl;
        valid = record { healthy_valid = v.healthy_valid; tipping_valid = ok };
        grey_zone_kept = refl;
      }

  -- Where a load and a draw belong, said of the thresholds and the place between them.
  abbrev pub IsTier : LoadBased F → F.Float → F.Float → Tier F → Type 0
  IsTier lb load draw Tier.healthy_tier = F.le load lb.healthy_threshold ≡ true
  IsTier lb load draw Tier.tipping_tier =
      (F.le load lb.healthy_threshold ≡ false) × (F.le lb.tipping_threshold load ≡ true)
  IsTier lb load draw Tier.grey_healthy =
      (F.le load lb.healthy_threshold ≡ false)
      × (F.le lb.tipping_threshold load ≡ false)
      × (F.lt
            (F.div (F.sub load lb.healthy_threshold)
              (F.sub lb.tipping_threshold lb.healthy_threshold))
            draw
          ≡ true)
  IsTier lb load draw Tier.grey_tipping =
      (F.le load lb.healthy_threshold ≡ false)
      × (F.le lb.tipping_threshold load ≡ false)
      × (F.lt
            (F.div (F.sub load lb.healthy_threshold)
              (F.sub lb.tipping_threshold lb.healthy_threshold))
            draw
          ≡ false)

  -- The penalty and the grey zone after a sample: none, or those of the place between the thresholds, which
  -- is held between 0 and 1.
  abbrev pub MovesOn :
      LoadBased F → F.Float → ℤ → Option (GreyZoneState F) → ℤ → Option (GreyZoneState F) → Type 0
  MovesOn lb load now none penalty after = (penalty ≡ pos 0) × (after ≡ none)
  MovesOn lb load now (some gz) penalty after =
      (z : GreyZoneState F) × (after ≡ some z)
      × ((penalty, z)
          ≡ calculate_grey_zone_penalty F gz
              (F.min
                (F.max
                  (F.div (F.sub load lb.healthy_threshold)
                    (F.sub lb.tipping_threshold lb.healthy_threshold))
                  (F.of_int (pos 0)))
                (F.of_int (pos 1)))
              now)

  tier-IsTier : (lb : LoadBased F) (load draw : F.Float) → IsTier lb load draw (tier F lb load draw)
  unfolding tier grey_position
  tier-IsTier lb load draw = elim (Bool-cases (F.le load lb.healthy_threshold)) [
    | inl e ↦ rw (e, tier) e
    | inr e ↦ elim (Bool-cases (F.le lb.tipping_threshold load)) [
      | inl f ↦ rw (e, f, tier) (e, f)
      | inr f ↦ elim (Bool-cases (F.lt (grey_position F lb load) draw)) [
        | inl g ↦ rw (e, f, g, tier) (e, f, g)
        | inr g ↦ rw (e, f, g, tier) (e, f, g)
      ]
    ]
  ]

  penalize-MovesOn :
      (lb : LoadBased F) (load : F.Float) (now : ℤ) (gz : Option (GreyZoneState F))
      → MovesOn lb load now gz
          (penalize F gz (grey_position F lb load) now).0
          (penalize F gz (grey_position F lb load) now).1
  unfolding penalize grey_position
  penalize-MovesOn lb load now none = (refl, refl)
  penalize-MovesOn lb load now (some gz) = (_, refl, refl)

  -- With fair draws, a sample of a valid distribution succeeds. It is of the healthy distribution at or below
  -- the healthy threshold, else of the tipping point at or above the tipping threshold, else of the healthy one
  -- if the draw exceeds the place of the load between the thresholds, and of the tipping point if not. Between
  -- the thresholds only, the penalty of the grey zone is added, for the place held between 0 and 1; the grey
  -- zone moves on whatever the load.
  pub sample_load_total :
      (draws : Draws F) (draw : F.Float) (now : ℤ) (lb : LoadBased F) (load : F.Float)
      → BothValid lb
      → ((t : Tier F) → IsTier lb load draw t → draws.weight < (used t lb).total_weight)
      → IsFair draws.shuffle
      → (t : Tier F) × (penalty : ℤ) × (gz : Option (GreyZoneState F)) × IsTier lb load draw t
        × MovesOn lb load now lb.grey_zone penalty gz
        × Samples t draws penalty gz lb (sample_load F draws draw now lb load)
  unfolding sample_load
  sample_load_total draws draw now lb load v h fair =
      let t = tier F lb load draw in
      let here = tier-IsTier lb load draw in
      let penalized = penalize F lb.grey_zone (grey_position F lb load) now in
      (
        t,
        penalized.0,
        penalized.1,
        here,
        penalize-MovesOn lb load now lb.grey_zone,
        sample_tier_total t draws penalized.0 penalized.1 lb v (h t here) fair,
      )
