-- ===== src/Openfga/Trace.antt =====
-- What can be seen of the effects of openfga's handlers: the decisions that are counted and written, the
-- statuses of local responses, and how often the request is continued.
use built_on_envoy.Prelude.{
  ℕ, suc, Bytes, List, [], ◌∷◌, ◌++◌, none, some, ◌≡◌, inl, inr, refl, if◌then◌else◌, Bool-cases,
  Option-cases,
}
use built_on_envoy.Prelude.Int.{ℤ}
use built_on_envoy.Openfga.Config.{ParsedConfig, MetadataKey}
use built_on_envoy.Openfga.Handler.{
  Decision, Effect, set_metadata, count, record_duration, local_response, continue_request, Metrics,
  inc, record_check, write_metadata, continue_as,
}

pub record Trace : Type 0 where
  pub counted : List Decision
  pub written : List (Bytes × Bytes × Decision)
  pub statuses : List ℤ
  pub continues : ℕ

unfoldable pub observe : List Effect → Trace
observe [] = record { counted = []; written = []; statuses = []; continues = 0 }
observe (set_metadata ns key d ∷ es) =
    let t = observe es in
    record {
      counted = t.counted;
      written = (ns, key, d) ∷ t.written;
      statuses = t.statuses;
      continues = t.continues;
    }
observe (count d ∷ es) =
    let t = observe es in
    record {
      counted = d ∷ t.counted;
      written = t.written;
      statuses = t.statuses;
      continues = t.continues;
    }
observe (record_duration ms ∷ es) = observe es
observe (local_response status headers body detail ∷ es) =
    let t = observe es in
    record {
      counted = t.counted;
      written = t.written;
      statuses = status ∷ t.statuses;
      continues = t.continues;
    }
observe (continue_request ∷ es) =
    let t = observe es in
    record {
      counted = t.counted;
      written = t.written;
      statuses = t.statuses;
      continues = suc t.continues;
    }

-- One decision, counted and written as far as that is configured, with these statuses and continuations.
abbrev pub decided : Metrics → ParsedConfig → Decision → List ℤ → ℕ → Trace
decided m c d statuses continues = record {
  counted = if m.enabled then d ∷ [] else [];
  written = elim c.metadata [ none ↦ [] | some k ↦ (k.namespace, k.key, d) ∷ [] ];
  statuses = statuses;
  continues = continues;
}

module _ (m : Metrics) (c : ParsedConfig) (d : Decision) where
  -- A list of effects that holds those of a decision shows the decision, if it does so in each of the four
  -- configurations: the decision is counted or not, and written or not.
  observe_cases :
      (f : List Effect → List Effect → List Effect) (s : List ℤ) (n : ℕ)
      → ((k : MetadataKey)
          → observe (f (set_metadata k.namespace k.key d ∷ []) (count d ∷ [])) ≡ record {
            counted = d ∷ [];
            written = (k.namespace, k.key, d) ∷ [];
            statuses = s;
            continues = n;
          })
      → ((k : MetadataKey)
          → observe (f (set_metadata k.namespace k.key d ∷ []) []) ≡ record {
            counted = [];
            written = (k.namespace, k.key, d) ∷ [];
            statuses = s;
            continues = n;
          })
      → observe (f [] (count d ∷ []))
        ≡ record { counted = d ∷ []; written = []; statuses = s; continues = n }
      → observe (f [] []) ≡ record { counted = []; written = []; statuses = s; continues = n }
      → observe (f (write_metadata c d) (inc m d)) ≡ decided m c d s n
  unfolding write_metadata inc
  observe_cases f s n both written counted neither = elim (Bool-cases m.enabled) [
    | inl e ↦ elim (Option-cases c.metadata) [
      | inl g ↦ rw (e, inc, g, write_metadata) counted
      | inr (k, g) ↦ rw (e, inc, g, write_metadata) (both k)
    ]
    | inr e ↦ elim (Option-cases c.metadata) [
      | inl g ↦ rw (e, inc, g, write_metadata) neither
      | inr (k, g) ↦ rw (e, inc, g, write_metadata) (written k)
    ]
  ]

  pub observe-pass : observe (write_metadata c d ++ inc m d) ≡ decided m c d [] 0
  unfolding observe
  observe-pass = observe_cases (λ w i. w ++ i) [] 0 (λ k. refl) (λ k. refl) refl refl

  pub observe-continue : observe (continue_as m c d) ≡ decided m c d [] 1
  unfolding observe
  observe-continue =
      observe_cases (λ w i. w ++ (i ++ (continue_request ∷ []))) [] 1 (λ k. refl) (λ k. refl) refl
        refl

  module _ (status : ℤ) (headers : List (Bytes × Bytes)) (body detail : Bytes) where
    pub observe-answer :
        observe (write_metadata c d ++ (local_response status headers body detail ∷ inc m d))
        ≡ decided m c d (status ∷ []) 0
    unfolding observe
    observe-answer =
        observe_cases (λ w i. w ++ (local_response status headers body detail ∷ i)) (status ∷ []) 0
          (λ k. refl) (λ k. refl) refl refl

    pub observe-answer_last :
        observe
          (write_metadata c d ++ (inc m d ++ (local_response status headers body detail ∷ [])))
        ≡ decided m c d (status ∷ []) 0
    unfolding observe
    observe-answer_last =
        observe_cases (λ w i. w ++ (i ++ (local_response status headers body detail ∷ [])))
          (status ∷ []) 0 (λ k. refl) (λ k. refl) refl refl

pub observe-record_check :
    (m : Metrics) (ms : ℕ) (es : List Effect) → observe (record_check m ms ++ es) ≡ observe es
unfolding observe record_check
observe-record_check m ms es = elim (Bool-cases m.has_check_duration) [
  | inl e ↦ rw (e, record_check) refl
  | inr e ↦ rw (e, record_check) refl
]
