-- ===== src/FaultInjection/Percentiles.antt =====
-- dynamic-fault-injection/internal/config/percentile.go: a map of percentiles to durations, parsed and
-- sorted. The map is a list, in the order in which Go happens to walk it. time.ParseDuration is a parameter.
use mathlib.Core.List.{Permᴰ}
use built_on_envoy.Prelude.{
  Option, none, some, Bool, false, Bytes, List, [], ◌∷◌, ◌≡◌, ◌≢◌, refl, arith, nat_eq, ◌==◌, ◌||◌,
  if◌then◌else◌, All, Bool-cases, inl, inr, ◌⊎◌, subst,
}
use built_on_envoy.Prelude.Int.{ℤ, pos, ltb_ℤ, ◌≤ℤ◌}
use built_on_envoy.Prelude.Sort.{sort_slice, sort_slice-All, sort_slice-perm}
use built_on_envoy.FaultInjection.Floats.{Floats, Percentile}

pub data PercentileError : Type 0 where
  no_entries : PercentileError
  no_p : Bytes → PercentileError
  bad_number : Bytes → PercentileError
  out_of_range : Bytes → PercentileError
  bad_duration : Bytes → PercentileError
  negative_duration : Bytes → PercentileError
  decreasing : PercentileError

-- A value or an error.
pub data Result (E : Type 0) (A : Type 0) : Type 0 where
  err : E → Result E A
  ok : A → Result E A

pub Result-cases :
    {E A : Type 0} (r : Result E A) → ((e : E) × (r ≡ Result.err e)) ⊎ ((a : A) × (r ≡ Result.ok a))
Result-cases (Result.err e) = inl (e, refl)
Result-cases (Result.ok a) = inr (a, refl)

module _ (F : Floats) (parse_duration : Bytes → Option ℤ) where
  unfoldable pub check_range : Bytes → F.Float → Result PercentileError F.Float
  check_range key val =
      if F.lt val (F.of_int (pos 0)) || F.lt (F.of_int (pos 100)) val
      then Result.err (PercentileError.out_of_range key)
      else Result.ok (F.div val (F.of_int (pos 100)))

  unfoldable pub parse_percentile_key : Bytes → Result PercentileError F.Float
  parse_percentile_key [] = Result.err (PercentileError.no_p [])
  parse_percentile_key (c ∷ num_str) =
      if c == b'p'
      then elim (F.parse_float num_str) [
        | none ↦ Result.err (PercentileError.bad_number (c ∷ num_str))
        | some val ↦ check_range (c ∷ num_str) val
      ]
      else Result.err (PercentileError.no_p (c ∷ num_str))

  unfoldable pub check_duration : Bytes → F.Float → Option ℤ → Result PercentileError (Percentile F)
  check_duration key quantile none = Result.err (PercentileError.bad_duration key)
  check_duration key quantile (some dur) =
      if ltb_ℤ dur (pos 0)
      then Result.err (PercentileError.negative_duration key)
      else Result.ok (record { quantile = quantile; duration = dur })

  unfoldable pub parse_entry : Bytes → Bytes → Result PercentileError (Percentile F)
  parse_entry key dur_str = elim (parse_percentile_key key) [
    | Result.err e ↦ Result.err e
    | Result.ok quantile ↦ check_duration key quantile (parse_duration dur_str)
  ]

  unfoldable pub parse_entries : List (Bytes × Bytes) → Result PercentileError (List (Percentile F))
  parse_entries [] = Result.ok []
  parse_entries ((key, dur_str) ∷ dist) = elim (parse_entry key dur_str) [
    | Result.err e ↦ Result.err e
    | Result.ok p ↦ elim (parse_entries dist) [
      | Result.err e ↦ Result.err e
      | Result.ok ps ↦ Result.ok (p ∷ ps)
    ]
  ]

  -- Whether some duration is below the one before it, the first of which is `prev`.
  unfoldable pub decreases : ℤ → List (Percentile F) → Bool
  decreases prev [] = false
  decreases prev (p ∷ ps) = ltb_ℤ p.duration prev || decreases p.duration ps

  unfoldable pub is_decreasing : List (Percentile F) → Bool
  is_decreasing [] = false
  is_decreasing (p ∷ ps) = decreases p.duration ps

  unfoldable pub check_sorted : List (Percentile F) → Result PercentileError (List (Percentile F))
  check_sorted ps = if is_decreasing ps then Result.err PercentileError.decreasing else Result.ok ps

  unfoldable pub by_quantile : Percentile F → Percentile F → Bool
  by_quantile p q = F.lt p.quantile q.quantile

  unfoldable pub parse_percentile_distribution :
      List (Bytes × Bytes) → Result PercentileError (List (Percentile F))
  parse_percentile_distribution [] = Result.err PercentileError.no_entries
  parse_percentile_distribution (d ∷ dist) = elim (parse_entries (d ∷ dist)) [
    | Result.err e ↦ Result.err e
    | Result.ok ps ↦ check_sorted (sort_slice by_quantile ps)
  ]

  -- The durations do not fall, and none is below `prev`.
  abbrev pub IsAscending : ℤ → List (Percentile F) → Type 0
  IsAscending prev [] = Unit
  IsAscending prev (p ∷ ps) = (prev ≤ℤ p.duration) × IsAscending p.duration ps

  -- One percentile for each entry, as it parses.
  abbrev pub AreParsed : List (Bytes × Bytes) → List (Percentile F) → Type 0
  AreParsed [] [] = Unit
  AreParsed [] (p ∷ ps) = ⊥
  AreParsed (d ∷ dist) [] = ⊥
  AreParsed (d ∷ dist) (p ∷ ps) = (parse_entry d.0 d.1 ≡ Result.ok p) × AreParsed dist ps

  abbrev IsNonNegative : Percentile F → Type 0
  IsNonNegative p = pos 0 ≤ℤ p.duration

  check_duration-IsNonNegative :
      (key : Bytes) (quantile : F.Float) (dur : Option ℤ) (p : Percentile F)
      → check_duration key quantile dur ≡ Result.ok p
      → IsNonNegative p
  unfolding check_duration
  check_duration-IsNonNegative key quantile none p h = cc
  check_duration-IsNonNegative key quantile (some dur) p h = elim (Bool-cases (ltb_ℤ dur (pos 0))) [
    | inl e ↦ absurd (ground arith)
    | inr e ↦
        let q : record { quantile = quantile; duration = dur } ≡ p = ground arith in
        subst (λ (x : Percentile F). pos 0 ≤ℤ x.duration) q (ground arith)
  ]

  parse_entry-IsNonNegative :
      (key dur_str : Bytes) (p : Percentile F)
      → parse_entry key dur_str ≡ Result.ok p
      → IsNonNegative p
  unfolding parse_entry
  parse_entry-IsNonNegative key dur_str p h = elim (Result-cases (parse_percentile_key key)) [
    | inl (e, q) ↦ cc
    | inr (quantile, q) ↦
        check_duration-IsNonNegative key quantile (parse_duration dur_str) p
          (rw (q, parse_entry) at h)
  ]

  decreases-IsAscending :
      (prev : ℤ) (ps : List (Percentile F)) → decreases prev ps ≡ false → IsAscending prev ps
  unfolding decreases
  decreases-IsAscending prev [] h = tt
  decreases-IsAscending prev (p ∷ ps) h =
      (ground arith, decreases-IsAscending p.duration ps (ground arith))

  parse_entries-AreParsed :
      (dist : List (Bytes × Bytes)) (ps : List (Percentile F))
      → parse_entries dist ≡ Result.ok ps
      → AreParsed dist ps × All IsNonNegative ps
  unfolding parse_entries
  parse_entries-AreParsed [] [] h = (tt, tt)
  parse_entries-AreParsed [] (p ∷ ps) h = cc
  parse_entries-AreParsed ((key, dur_str) ∷ dist) ps h =
      elim (Result-cases (parse_entry key dur_str)) [
        | inl (e, q) ↦ cc
        | inr (p, q) ↦ elim (Result-cases (parse_entries dist)) [
          | inl (e, r) ↦ cc
          | inr (qs, r) ↦
              let same : p ∷ qs ≡ ps = ground arith in
              let (parsed, positive) = parse_entries-AreParsed dist qs r in
              subst (λ xs. AreParsed ((key, dur_str) ∷ dist) xs × All IsNonNegative xs) same
                ((q, parsed), (parse_entry-IsNonNegative key dur_str p q, positive))
        ]
      ]

  check_sorted-IsAscending :
      (qs ps : List (Percentile F))
      → All IsNonNegative qs
      → check_sorted qs ≡ Result.ok ps
      → (qs ≡ ps) × IsAscending (pos 0) qs
  unfolding check_sorted is_decreasing
  check_sorted-IsAscending [] ps h k = (ground arith, tt)
  check_sorted-IsAscending (q ∷ qs) ps h k = elim (Bool-cases (decreases q.duration qs)) [
    | inl e ↦ absurd (ground arith)
    | inr e ↦ (ground arith, (h.0, decreases-IsAscending q.duration qs e))
  ]

  -- What a map of percentiles is parsed to: a percentile for each of its entries, which there are, in an
  -- order in which the durations, none of them negative, do not fall.
  pub parse_percentile_distribution_sound :
      (dist : List (Bytes × Bytes)) (ps : List (Percentile F))
      → parse_percentile_distribution dist ≡ Result.ok ps
      → (dist ≢ [])
        × IsAscending (pos 0) ps
        × ((qs : List (Percentile F)) × AreParsed dist qs × Permᴰ ps qs)
  unfolding parse_percentile_distribution
  parse_percentile_distribution_sound [] ps h = cc
  parse_percentile_distribution_sound (d ∷ dist) ps h =
      elim (Result-cases (parse_entries (d ∷ dist))) [
        | inl (e, q) ↦ cc
        | inr (qs, q) ↦
            let (parsed, positive) = parse_entries-AreParsed (d ∷ dist) qs q in
            let (same, ascending) =
              check_sorted-IsAscending (sort_slice by_quantile qs) ps
                (sort_slice-All by_quantile IsNonNegative qs positive)
                (rw (q, parse_percentile_distribution) at h) in
            (
              (λ e. cc),
              subst (IsAscending (pos 0)) same ascending,
              (qs, parsed, subst (λ xs. Permᴰ xs qs) same (sort_slice-perm by_quantile qs)),
            )
      ]
