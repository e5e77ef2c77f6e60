-- ===== src/FaultInjection/GreyZone.antt =====
-- `greyZoneState` and `calculateGreyZonePenalty` of dynamic-fault-injection/internal/fault/distribution.go:
-- the penalty between the load thresholds, with spikes that decay. Times are integers, and the zero time
-- of `recoveryStart` is `none`.
use built_on_envoy.Prelude.{
  Option, none, some, Bool, true, false, List, [], ◌∷◌, ◌≡◌, refl, arith, if◌then◌else◌, All, ◌⊎◌,
}
use built_on_envoy.Prelude.Int.{ℤ, pos, ◌-ℤ◌, ltb_ℤ}
use built_on_envoy.FaultInjection.Floats.{Floats}

module _ (F : Floats) where
  pub record GreyZoneState : Type 0 where
    pub penalty_base : ℤ
    pub spike_penalty_duration : ℤ
    pub spike_threshold : F.Float
    pub spike_penalty_multiplier : F.Float
    pub recovery_rate : F.Float
    pub recovery_start : Option ℤ
    pub in_spike : Bool

  abbrev pub with_spike : GreyZoneState → Option ℤ → Bool → GreyZoneState
  with_spike gz start spike = record {
    penalty_base = gz.penalty_base;
    spike_penalty_duration = gz.spike_penalty_duration;
    spike_threshold = gz.spike_threshold;
    spike_penalty_multiplier = gz.spike_penalty_multiplier;
    recovery_rate = gz.recovery_rate;
    recovery_start = start;
    in_spike = spike;
  }

  unfoldable pub base_penalty : GreyZoneState → F.Float → ℤ
  base_penalty gz grey_position = F.to_int (F.mul (F.of_int gz.penalty_base) grey_position)

  -- float64(basePenalty) * gz.spikePenaltyMultiplier
  unfoldable pub spike_penalty : GreyZoneState → F.Float → F.Float
  spike_penalty gz grey_position =
      F.mul (F.of_int (base_penalty gz grey_position)) gz.spike_penalty_multiplier

  unfoldable pub remaining : GreyZoneState → ℤ → F.Float
  remaining gz elapsed =
      F.sub (F.of_int (pos 1))
        (F.mul (F.div (F.of_int elapsed) (F.of_int gz.spike_penalty_duration)) gz.recovery_rate)

  -- In a spike, below its threshold, the recovery having begun at `start`.
  unfoldable pub recover : GreyZoneState → F.Float → ℤ → ℤ → ℤ × GreyZoneState
  recover gz grey_position now start =
      if ltb_ℤ (now -ℤ start) gz.spike_penalty_duration
      then (
        F.to_int (F.mul (spike_penalty gz grey_position) (remaining gz (now -ℤ start))),
        with_spike gz (some start) true,
      )
      else (base_penalty gz grey_position, with_spike gz none false)

  unfoldable pub calculate_grey_zone_penalty : GreyZoneState → F.Float → ℤ → ℤ × GreyZoneState
  calculate_grey_zone_penalty gz grey_position now =
      if F.le gz.spike_threshold grey_position
      then (F.to_int (spike_penalty gz grey_position), with_spike gz none true)
      else if gz.in_spike
      then recover gz grey_position now (elim gz.recovery_start [ none ↦ now | some start ↦ start ])
      else (base_penalty gz grey_position, gz)

  -- The state after calls, each with its position and time.
  unfoldable pub after_calls : List (F.Float × ℤ) → GreyZoneState → GreyZoneState
  after_calls [] gz = gz
  after_calls ((p, now) ∷ calls) gz = after_calls calls (calculate_grey_zone_penalty gz p now).1

  -- A call below the threshold, at a time when the spike that recovers since `start` still lasts.
  abbrev pub IsDuring : GreyZoneState → ℤ → F.Float × ℤ → Type 0
  IsDuring gz start call =
      (F.le gz.spike_threshold call.0 ≡ false)
      × (ltb_ℤ (call.1 -ℤ start) gz.spike_penalty_duration ≡ true)

  penalty_recovering :
      (gz : GreyZoneState) (start : ℤ) (p : F.Float) (now : ℤ)
      → F.le gz.spike_threshold p ≡ false
      → calculate_grey_zone_penalty (with_spike gz (some start) true) p now
        ≡ recover (with_spike gz (some start) true) p now start
  unfolding calculate_grey_zone_penalty
  penalty_recovering gz start p now h = rw (h, calculate_grey_zone_penalty) refl

  recover_during :
      (gz : GreyZoneState) (start : ℤ) (p : F.Float) (now : ℤ)
      → ltb_ℤ (now -ℤ start) gz.spike_penalty_duration ≡ true
      → (recover gz p now start).1 ≡ with_spike gz (some start) true
  unfolding recover
  recover_during gz start p now h = rw (h, recover) refl

  recovering :
      (calls : List (F.Float × ℤ)) (gz : GreyZoneState) (start : ℤ)
      → All (IsDuring gz start) calls
      → after_calls calls (with_spike gz (some start) true) ≡ with_spike gz (some start) true
  unfolding after_calls
  recovering [] gz start h = refl
  recovering ((p, now) ∷ calls) gz start h =
      rw
        (
          after_calls,
          penalty_recovering gz start p now h.0.0,
          recover_during (with_spike gz (some start) true) start p now h.0.1,
        )
        (recovering calls gz start h.1)

  -- The first call below the threshold, at `start`, begins the recovery.
  recovery_begins :
      (gz : GreyZoneState) (p : F.Float) (start : ℤ)
      → IsDuring gz start (p, start)
      → (calculate_grey_zone_penalty (with_spike gz none true) p start).1
        ≡ with_spike gz (some start) true
  unfolding calculate_grey_zone_penalty recover
  recovery_begins gz p start h = rw (h.0, calculate_grey_zone_penalty, recover, h.1) refl

  -- A spike is counted from the first call below the threshold: calls below the threshold within
  -- `spike_penalty_duration` of that call leave it on and do not restart it, and a later one at which the
  -- duration has passed ends it, with the penalty without a spike.
  pub after_calls_recovery :
      (gz : GreyZoneState) (p q : F.Float) (start now : ℤ) (calls : List (F.Float × ℤ))
      → IsDuring gz start (p, start)
      → All (IsDuring gz start) calls
      → F.le gz.spike_threshold q ≡ false
      → ltb_ℤ (now -ℤ start) gz.spike_penalty_duration ≡ false
      → (after_calls ((p, start) ∷ calls) (with_spike gz none true)
          ≡ with_spike gz (some start) true)
        × (calculate_grey_zone_penalty
              (after_calls ((p, start) ∷ calls) (with_spike gz none true))
              q
              now
            ≡ (base_penalty gz q, with_spike gz none false))
  unfolding calculate_grey_zone_penalty recover base_penalty after_calls
  after_calls_recovery gz p q start now calls first during below over =
      let e : after_calls ((p, start) ∷ calls) (with_spike gz none true)
          ≡ with_spike gz (some start) true =
        rw (after_calls, recovery_begins gz p start first) (recovering calls gz start during) in
      (e, rw (e, below, calculate_grey_zone_penalty, recover, over) refl)

  -- A recovery has begun only in a spike.
  abbrev pub IsConsistent : GreyZoneState → Type 0
  IsConsistent gz = (gz.in_spike ≡ true) ⊎ (gz.recovery_start ≡ none)

  pub penalty-IsConsistent :
      (gz : GreyZoneState) (p : F.Float) (now : ℤ)
      → IsConsistent gz
      → IsConsistent (calculate_grey_zone_penalty gz p now).1
  unfolding calculate_grey_zone_penalty recover
  penalty-IsConsistent gz p now h = ground arith
