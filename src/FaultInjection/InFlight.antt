-- ===== src/FaultInjection/InFlight.antt =====
-- The global count `activeRequests` of dynamic-fault-injection/plugin.go over many filters: a step relation
-- over the filters' creations, requests and ends, in any order. A request that panics changes nothing here.
use built_on_envoy.Prelude.{
  ℕ, zero, suc, ◌+◌, Option, none, some, false, Bytes, List, [], ◌∷◌, ◌≡◌, refl, ◌∙◌, arith,
  if◌then◌else◌, get_elem?, set, Option-cases, inl, inr, subst, ap, sym,
}
use built_on_envoy.Prelude.Int.{ℤ, pos, ◌+ℤ◌, ◌-ℤ◌}
use built_on_envoy.FaultInjection.Floats.{Floats}
use built_on_envoy.FaultInjection.Response.{ResponseSample}
use built_on_envoy.FaultInjection.Filter.{
  Factory, Filter, Chance, Counted, start_request, release_request, record_sample, enter_request,
  on_request_headers, sample_request,
}

module _ (F : Floats) where
  -- A filter and the place of its factory, which filters share.
  pub record Stream : Type 0 where
    pub factory : ℕ
    pub filter : Filter

  pub record System : Type 0 where
    pub active_requests : ℤ
    pub factories : List (Factory F)
    pub streams : List Stream

  -- The zero value that Create starts from.
  abbrev pub new_filter : Filter
  new_filter = record {
    sample = record { status = 0; duration = pos 0; local_response = none };
    matched = false;
    counted = false;
    request_entry_in_flight = pos 0;
    request_start = pos 0;
  }

  abbrev with_stream : System → ℕ → Stream → Counted → List (Factory F) → System
  with_stream s i st c factories = record {
    active_requests = c.active_requests;
    factories = factories;
    streams = set s.streams i (record { factory = st.factory; filter = c.filter });
  }

  pub data Step (s : System) : System → Type 0 where
    create :
        (k : ℕ)
        → Step s (record {
          active_requests = s.active_requests;
          factories = s.factories;
          streams = record { factory = k; filter = new_filter } ∷ s.streams;
        })
    request :
        (i : ℕ) (st : Stream) (factory after : Factory F) (chance : Chance F)
        (headers : Bytes → Bytes) (c : Counted)
        → get_elem? s.streams i ≡ some st
        → get_elem? s.factories st.factory ≡ some factory
        → on_request_headers F chance headers s.active_requests factory st.filter ≡ some (c, after)
        → Step s (with_stream s i st c (set s.factories st.factory after))
    release :
        (i : ℕ) (st : Stream)
        → get_elem? s.streams i ≡ some st
        → Step s (with_stream s i st (release_request s.active_requests st.filter) s.factories)

  -- From no streams and a count of zero.
  pub data Reach (factories : List (Factory F)) : System → Type 0 where
    begin :
        Reach factories (record { active_requests = pos 0; factories = factories; streams = [] })
    then_step : {s t : System} → Reach factories s → Step s t → Reach factories t

  abbrev pub bit : Filter → ℕ
  bit f = if f.counted then 1 else 0

  unfoldable pub count_active : List Stream → ℕ
  count_active [] = 0
  count_active (st ∷ sts) = bit st.filter + count_active sts

  count_active-set :
      (sts : List Stream) (i : ℕ) (st new : Stream)
      → get_elem? sts i ≡ some st
      → count_active (set sts i new) + bit st.filter ≡ count_active sts + bit new.filter
  unfolding count_active get_elem? set
  count_active-set [] i st new h = cc
  count_active-set (x ∷ xs) zero st new h = let q : x ≡ st = cc in ground arith
  count_active-set (x ∷ xs) (suc i) st new h = omega (arith, count_active-set xs i st new h)

  -- The count and the filter agree, `n` being what the other filters add.
  abbrev Balanced : ℕ → ℤ → Filter → Counted → Type 0
  Balanced n active f c = active ≡ pos (n + bit f) → c.active_requests ≡ pos (n + bit c.filter)

  release_request-Balanced :
      (n : ℕ) (active : ℤ) (f : Filter) → Balanced n active f (release_request active f)
  unfolding release_request ◌-ℤ◌
  release_request-Balanced n active f h = ground arith

  start_request-Balanced :
      (n : ℕ) (active : ℤ) (f : Filter) → Balanced n active f (start_request active f)
  unfolding start_request ◌+ℤ◌
  start_request-Balanced n active f h = ground arith

  enter_request-Balanced :
      (n : ℕ) (active now : ℤ) (f : Filter) → Balanced n active f (enter_request active now f)
  unfolding enter_request start_request ◌+ℤ◌
  enter_request-Balanced n active now f h = ground arith

  bit-record_sample : (s : Option ResponseSample) (f : Filter) → bit (record_sample s f) ≡ bit f
  unfolding record_sample
  bit-record_sample none f = refl
  bit-record_sample (some s) f = refl

  on_request_headers-Balanced :
      (n : ℕ) (chance : Chance F) (headers : Bytes → Bytes) (active : ℤ) (factory after : Factory F)
      (f : Filter) (c : Counted)
      → on_request_headers F chance headers active factory f ≡ some (c, after)
      → Balanced n active f c
  unfolding on_request_headers
  on_request_headers-Balanced n chance headers active factory after f c h b =
      elim (Option-cases (sample_request F chance active headers factory)) [
        | inl e ↦ cc
        | inr ((s, x), e) ↦
            let q : enter_request active chance.now (record_sample s f) ≡ c = ground arith in
            subst (λ (d : Counted). d.active_requests ≡ pos (n + bit d.filter)) q
              (enter_request-Balanced n active chance.now (record_sample s f)
                (b ∙ ap (λ k. pos (n + k)) (sym (bit-record_sample s f))))
      ]

  -- A change of one stream that agrees with the count keeps the count right.
  Right : System → Type 0
  Right s = s.active_requests ≡ pos (count_active s.streams)

  others :
      (sts : List Stream) (i : ℕ) (st : Stream)
      → get_elem? sts i ≡ some st
      → (n : ℕ) × (count_active sts ≡ n + bit st.filter)
  unfolding count_active get_elem?
  others [] i st h = cc
  others (x ∷ xs) zero st h = let q : x ≡ st = cc in (count_active xs, ground arith)
  others (x ∷ xs) (suc i) st h = let (n, e) = others xs i st h in (bit x.filter + n, omega arith)

  with_stream-Right :
      (s : System) (i : ℕ) (st : Stream) (c : Counted) (factories : List (Factory F))
      → get_elem? s.streams i ≡ some st
      → ((n : ℕ) → Balanced n s.active_requests st.filter c)
      → Right s
      → Right (with_stream s i st c factories)
  unfolding Right
  with_stream-Right s i st c factories h b r =
      let (n, e) = others s.streams i st h in
      let new : Stream = record { factory = st.factory; filter = c.filter } in
      b n (r ∙ ap (λ k. pos k) e)
      ∙ ap (λ k. pos k) (omega (arith, count_active-set s.streams i st new h))

  step-Right : (s t : System) → Step s t → Right s → Right t
  unfolding Right count_active
  step-Right s t (create k) r = r ∙ ap (λ k. pos k) (omega arith)
  step-Right s t (request i st factory after chance headers c h g e) r =
      with_stream-Right s i st c (set s.factories st.factory after) h
        (λ n.
          on_request_headers-Balanced n chance headers s.active_requests factory after st.filter c
            e)
        r
  step-Right s t (release i st h) r =
      with_stream-Right s i st (release_request s.active_requests st.filter) s.factories h
        (λ n. release_request-Balanced n s.active_requests st.filter) r

  -- However filters are created, take requests, and complete or are destroyed, once or several times and in
  -- any order, the global count is that of the filters with a request that is counted and not released.
  pub active_requests-count_active :
      (factories : List (Factory F)) (s : System)
      → Reach factories s
      → s.active_requests ≡ pos (count_active s.streams)
  unfolding Right count_active
  active_requests-count_active factories s Reach.begin = refl
  active_requests-count_active factories s (Reach.then_step {s = r} reach step) =
      step-Right r s step (active_requests-count_active factories r reach)

  -- A stream that ends twice is released once.
  pub release_request_idem :
      (active : ℤ) (f : Filter)
      → release_request (release_request active f).active_requests (release_request active f).filter
        ≡ release_request active f
  unfolding release_request
  release_request_idem active f = ground arith
