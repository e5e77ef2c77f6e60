-- ===== src/FaultInjection/Ready.antt =====
-- The distributions that are built from an accepted configuration of fault injection can be sampled.
use built_on_envoy.Prelude.{
  none, true, subst, ◌%◌, ◌^◌, ◌+◌, ℕ, suc, ◌<◌, ◌≤◌, Option, some, Bool, false, Bytes, bytes_eq,
  bytes_beq, text, List, [], ◌∷◌, ◌≡◌, ◌⊎◌, refl, arith, length, All, inl, inr,
}
use built_on_envoy.Prelude.Int.{ℤ, pos, negsuc, ◌≤ℤ◌}
use built_on_envoy.FaultInjection.Floats.{Floats, Percentile}
use built_on_envoy.FaultInjection.Shuffle.{IsFair}
use built_on_envoy.FaultInjection.Interpolate.{new_stateful}
use built_on_envoy.FaultInjection.Response.{
  DurationDistribution, stateful, stateless, ResponseEntry, ResponseDistribution, total, HasSamples,
  IsSampleable, IsValid,
}
use built_on_envoy.FaultInjection.Load.{LoadBased}
use built_on_envoy.FaultInjection.Config.{StatusDistribution, no_items}
use built_on_envoy.FaultInjection.Validate.{LoadTier, LoadBasedConfig, IsValidStatus}
use built_on_envoy.FaultInjection.Accepted.{IsValidLoad}
use built_on_envoy.FaultInjection.Build.{
  built, Shuffles, BuildDraws, new_duration_distribution, new_entry, build_entry, build_entries,
  new_response_distribution, new_grey_zone, new_load_based, build_load,
}

abbrev pub IsMode : Bytes → Type 0
IsMode mode = (mode ≡ text "stateful") ⊎ (mode ≡ text "stateless")

abbrev pub AreFair : Shuffles → Type 0
AreFair shuffles = (i : ℕ) → IsFair (shuffles i)

abbrev pub AreFairDraws : BuildDraws → Type 0
AreFairDraws draws = AreFair draws.responses × AreFair draws.healthy × AreFair draws.tipping

natural_of : (k : ℕ) (z : ℤ) → pos k ≤ℤ z → (n : ℕ) × (z ≡ pos n) × (k ≤ n)
natural_of k (pos n) h = (n, refl, omega (arith, h))
natural_of k (negsuc n) h = absurd (omega (arith, h))

-- What a resolution adds to the total; validation leaves no negative one.
abbrev pub weight_of : ℤ → ℕ
weight_of (pos n) = n
weight_of (negsuc n) = 0

abbrev pub resolutions : List StatusDistribution → ℕ
resolutions [] = 0
resolutions (sd ∷ sds) = weight_of sd.resolution + resolutions sds

-- The sum of the resolutions fits an int, and a stateful distribution finds room for its values.
abbrev pub Fits : (ℕ → Bool) → Bytes → List StatusDistribution → Type 0
Fits can_make mode sds =
    (resolutions sds < 2 ^ 63)
    × (mode ≡ text "stateful"
        → All (λ (sd : StatusDistribution). can_make (weight_of sd.resolution) ≡ true) sds)

module _ (F : Floats) (parse_duration : Bytes → Option ℤ) (can_make : ℕ → Bool) where
  -- A distribution is built from percentiles and a positive resolution.
  duration_built :
      (choose : ℕ → ℕ) (ps : List (Percentile F)) (n : ℕ) (mode : Bytes)
      → IsMode mode
      → IsFair choose
      → 1 ≤ n
      → (mode ≡ text "stateful" → can_make n ≡ true)
      → (d : DurationDistribution F) × (new_duration_distribution F parse_duration can_make choose
            ps
            (pos n)
            mode
          ≡ built d)
        × HasSamples F d
  unfolding new_duration_distribution bytes_beq
  duration_built choose ps n mode (inl e) fair h room =
      let (s, made, index, len, p) = new_stateful F can_make choose ps n (room e) fair in
      (stateful s, rw (e, new_duration_distribution, made) refl, omega (arith, len, h))
  duration_built choose ps n mode (inr e) fair h room =
      (stateless ps, rw (e, new_duration_distribution) refl, tt)

  module _ (valid_name valid_value : Bytes → Bool) where
    entry_built :
        (choose : ℕ → ℕ) (mode : Bytes) (sd : StatusDistribution)
        → IsMode mode
        → IsFair choose
        → IsValidStatus F parse_duration valid_name valid_value sd
        → (mode ≡ text "stateful" → can_make (weight_of sd.resolution) ≡ true)
        → (e : ResponseEntry F) × (build_entry F parse_duration can_make choose mode sd ≡ built e)
          × IsSampleable F e
          × (1 ≤ e.weight)
          × (e.weight ≡ weight_of sd.resolution)
    unfolding build_entry new_entry
    entry_built choose mode sd m fair v room =
        let (ps, parsed) = v.parsed in
        let (status, s, low) = natural_of 200 sd.status v.status_low in
        let (weight, w, positive) = natural_of 1 sd.resolution v.resolution_positive in
        let known : weight ≡ weight_of sd.resolution = rw w refl in
        let (d, made, samples) =
          duration_built choose ps weight mode m fair positive (λ e. cc (known, room e)) in
        (
          record {
            status = status;
            weight = weight;
            distribution = d;
            local_response = sd.local_response;
          },
          rw (parsed, build_entry, s, w, made) refl,
          samples,
          positive,
          known,
        )

    entries_built :
        (shuffles : Shuffles) (i : ℕ) (mode : Bytes) (sds : List StatusDistribution)
        → IsMode mode
        → AreFair shuffles
        → All (IsValidStatus F parse_duration valid_name valid_value) sds
        → (mode ≡ text "stateful"
            → All (λ (sd : StatusDistribution). can_make (weight_of sd.resolution) ≡ true) sds)
        → (es : List (ResponseEntry F)) × (build_entries F parse_duration can_make shuffles i mode
              sds
            ≡ built es)
          × All (IsSampleable F) es
          × (length sds ≤ total F es)
          × (total F es ≡ resolutions sds)
    unfolding build_entries total
    entries_built shuffles i mode [] m fair v room = ([], refl, tt, omega arith, refl)
    entries_built shuffles i mode (sd ∷ sds) m fair v room =
        let (e, made, samples, positive, weight) =
          entry_built (shuffles i) mode sd m (fair i) v.0 (λ k. (room k).0) in
        let (es, rest, all, weights, sum) =
          entries_built shuffles (suc i) mode sds m fair v.1 (λ k. (room k).1) in
        (
          e ∷ es,
          rw (made, build_entries, rest) refl,
          (samples, all),
          omega (arith, positive, weights),
          omega (arith, weight, sum),
        )

    -- A valid distribution that some draw selects from.
    abbrev pub IsReady : ResponseDistribution F → Type 0
    IsReady rd = IsValid F rd × (0 < rd.total_weight)

    pub response_built :
        (shuffles : Shuffles) (sds : List StatusDistribution) (mode : Bytes)
        → IsMode mode
        → AreFair shuffles
        → no_items sds ≡ false
        → All (IsValidStatus F parse_duration valid_name valid_value) sds
        → Fits can_make mode sds
        → (rd : ResponseDistribution F) × (new_response_distribution F parse_duration can_make
              shuffles sds mode
            ≡ built rd)
          × IsReady rd
    unfolding new_response_distribution no_items
    response_built shuffles [] mode m fair n v fits = cc
    response_built shuffles (sd ∷ sds) mode m fair n v fits =
        let (es, made, all, weights, sum) =
          entries_built shuffles 0 mode (sd ∷ sds) m fair v fits.1 in
        let small : total F es < 2 ^ 63 = omega (arith, sum, fits.0) in
        let exact : total F es % 2 ^ 64 ≡ total F es = omega (arith, small) in
        (
          record { entries = es; total_weight = total F es % 2 ^ 64 },
          rw (made, new_response_distribution) refl,
          (
            record { total_ok = exact; in_range = omega (arith, small); sampleable = all },
            omega (arith, weights, exact),
          ),
        )

    abbrev pub IsReadyLoad : LoadBased F → Type 0
    IsReadyLoad lb = IsReady lb.healthy × IsReady lb.tipping_point

    abbrev pub FitsTier : Bytes → Option (LoadTier F) → Type 0
    FitsTier mode none = Unit
    FitsTier mode (some t) = Fits can_make mode t.responses

    abbrev pub FitsLoad : Bytes → Option (LoadBasedConfig F) → Type 0
    FitsLoad mode none = Unit
    FitsLoad mode (some lb) = FitsTier mode lb.healthy × FitsTier mode lb.tipping_point

    pub load_built :
        (draws : BuildDraws) (mode : Bytes) (lb : LoadBasedConfig F)
        → IsMode mode
        → AreFairDraws draws
        → IsValidLoad F parse_duration valid_name valid_value lb
        → FitsLoad mode (some lb)
        → (load : LoadBased F) × (build_load F parse_duration can_make draws mode (some lb)
            ≡ built (some load))
          × IsReadyLoad load
    unfolding build_load new_load_based
    load_built draws mode lb m fair v fits =
        let (h, made_h, ready_h) =
          response_built draws.healthy v.healthy.responses mode m fair.1 v.healthy_some
            v.healthy_valid (subst (FitsTier mode) v.healthy_there fits.0) in
        let (t, made_t, ready_t) =
          response_built draws.tipping v.tipping_point.responses mode m fair.2 v.tipping_some
            v.tipping_valid (subst (FitsTier mode) v.tipping_there fits.1) in
        let load : LoadBased F = record {
          healthy = h;
          tipping_point = t;
          healthy_threshold = v.healthy.threshold_in_flight;
          tipping_threshold = v.tipping_point.threshold_in_flight;
          grey_zone = new_grey_zone F parse_duration can_make lb.grey_zone;
        } in
        let made : new_load_based F parse_duration can_make draws v.healthy v.tipping_point
              lb.grey_zone mode
            ≡ built load =
          rw (made_h, new_load_based, made_t) refl in
        (load, rw (v.healthy_there, build_load, v.tipping_there, made) refl, (ready_h, ready_t))
