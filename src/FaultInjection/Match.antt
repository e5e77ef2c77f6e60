-- ===== src/FaultInjection/Match.antt =====
-- dynamic-fault-injection/internal/fault/match.go and the match configuration of internal/config/config.go.
-- Headers are a function to their first value, empty where a header is not there.
use built_on_envoy.Prelude.{
  ℕ, ap, subst, test_of_ne, has_prefix, has_prefix_sound, has_prefix_complete, Bytes, bytes_eq,
  nat_eq, eq_iff, ◌==◌, Bool, true, false, not, ◌&&◌, List, [], ◌∷◌, ◌++◌, All, ◌≡◌, ◌≢◌, ◌↔◌, ◌⊎◌,
  inl, inr, refl, arith, if◌then◌else◌, Bool-cases,
}

pub record HeaderMatchConfig : Type 0 where
  pub name : Bytes
  pub exact_match : Bytes
  pub present_match : Bool

pub record MatchConfig : Type 0 where
  pub prefix : Bytes
  pub exact : Bytes
  pub headers : List HeaderMatchConfig

-- The part before the first `?`, or all of it.
unfoldable pub strip_query : Bytes → Bytes
strip_query [] = []
strip_query (c ∷ s) = if c == b'?' then [] else c ∷ strip_query s

unfoldable pub match_header : HeaderMatchConfig → (Bytes → Bytes) → Bool
match_header hm headers =
    if hm.present_match
    then not (headers hm.name == [])
    else if not (hm.exact_match == [])
    then headers hm.name == hm.exact_match
    else true

unfoldable pub match_headers : List HeaderMatchConfig → (Bytes → Bytes) → Bool
match_headers [] headers = true
match_headers (hm ∷ hms) headers = match_header hm headers && match_headers hms headers

-- MatchRoute
unfoldable pub match_route : MatchConfig → Bytes → (Bytes → Bytes) → Bool
match_route m path headers =
    if not (m.prefix == []) && not (has_prefix path m.prefix)
    then false
    else if not (m.exact == []) && not (strip_query path == m.exact)
    then false
    else match_headers m.headers headers

-- What one header condition asks for.
abbrev pub HeaderHolds : (Bytes → Bytes) → HeaderMatchConfig → Type 0
HeaderHolds headers hm =
    ((hm.present_match ≡ true) × (headers hm.name ≢ []))
    ⊎ ((hm.present_match ≡ false) × ((hm.exact_match ≡ []) ⊎ (headers hm.name ≡ hm.exact_match)))

-- `path` is `s`, which has no question mark, or `s` and a query.
abbrev pub IsPathWithQuery : Bytes → Bytes → Type 0
IsPathWithQuery s path =
    All (λ (c : ℕ). c ≢ b'?') s × ((path ≡ s) ⊎ ((query : Bytes) × (path ≡ s ++ b'?' ∷ query)))

-- What the configuration asks for: the path begins with the prefix, it is the exact path up to its query,
-- and each header condition holds; an empty prefix or path asks for nothing.
pub record Matches (m : MatchConfig) (path : Bytes) (headers : Bytes → Bytes) : Type 0 where
  pub prefix_holds : (rest : Bytes) × (path ≡ m.prefix ++ rest)
  pub exact_holds : (m.exact ≡ []) ⊎ IsPathWithQuery m.exact path
  pub headers_hold : All (HeaderHolds headers) m.headers

strip_query-IsPathWithQuery : (path : Bytes) → IsPathWithQuery (strip_query path) path
unfolding strip_query
strip_query-IsPathWithQuery [] = (tt, inl refl)
strip_query-IsPathWithQuery (c ∷ path) = elim (Bool-cases (c == b'?')) [
  | inl e ↦ rw (e, strip_query) (tt, inr (path, ap (λ (x : ℕ). x ∷ path) ((eq_iff c b'?').0 e)))
  | inr e ↦
      let (plain, parts) = strip_query-IsPathWithQuery path in
      rw (e, strip_query) (((λ k. cc ((eq_iff c b'?').1 k)), plain), longer path parts)
]
  where
    longer :
        (s : Bytes)
        → (s ≡ strip_query s) ⊎ ((query : Bytes) × (s ≡ strip_query s ++ b'?' ∷ query))
        → (c ∷ s ≡ c ∷ strip_query s)
          ⊎ ((query : Bytes) × (c ∷ s ≡ c ∷ strip_query s ++ b'?' ∷ query))
    longer s (inl h) = inl (ap (λ (x : Bytes). c ∷ x) h)
    longer s (inr (query, h)) = inr (query, ap (λ (x : Bytes). c ∷ x) h)

strip_query-plain :
    (s : Bytes)
    → All (λ (c : ℕ). c ≢ b'?') s
    → (strip_query s ≡ s) × ((query : Bytes) → strip_query (s ++ b'?' ∷ query) ≡ s)
unfolding strip_query
strip_query-plain [] h = (refl, λ query. refl)
strip_query-plain (c ∷ s) h =
    let other = test_of_ne c b'?' h.0 in
    let (bare, queried) = strip_query-plain s h.1 in
    (
      rw (other, strip_query) (ap (λ (x : Bytes). c ∷ x) bare),
      λ query. rw (other, strip_query) (ap (λ (x : Bytes). c ∷ x) (queried query)),
    )

strip_query_of_parts : (s path : Bytes) → IsPathWithQuery s path → strip_query path ≡ s
strip_query_of_parts s path (plain, inl e) = rw e (strip_query-plain s plain).0
strip_query_of_parts s path (plain, inr (query, e)) = rw e ((strip_query-plain s plain).1 query)

match_header_iff :
    (hm : HeaderMatchConfig) (headers : Bytes → Bytes)
    → (match_header hm headers ≡ true) ↔ HeaderHolds headers hm
unfolding match_header
match_header_iff hm headers = (
  λ h. ground (
    arith,
    eq_iff (headers hm.name) [],
    eq_iff hm.exact_match [],
    eq_iff (headers hm.name) hm.exact_match,
  ),
  λ h. ground (
    arith,
    eq_iff (headers hm.name) [],
    eq_iff hm.exact_match [],
    eq_iff (headers hm.name) hm.exact_match,
  ),
)

match_headers_sound :
    (hms : List HeaderMatchConfig) (headers : Bytes → Bytes)
    → match_headers hms headers ≡ true
    → All (HeaderHolds headers) hms
unfolding match_headers
match_headers_sound [] headers h = tt
match_headers_sound (hm ∷ hms) headers h =
    ((match_header_iff hm headers).0 (ground arith), match_headers_sound hms headers (ground arith))

match_headers_complete :
    (hms : List HeaderMatchConfig) (headers : Bytes → Bytes)
    → All (HeaderHolds headers) hms
    → match_headers hms headers ≡ true
unfolding match_headers
match_headers_complete [] headers h = refl
match_headers_complete (hm ∷ hms) headers h =
    rw ((match_header_iff hm headers).1 h.0, match_headers_complete hms headers h.1)

match_route_sound :
    (m : MatchConfig) (path : Bytes) (headers : Bytes → Bytes)
    → match_route m path headers ≡ true
    → Matches m path headers
unfolding match_route
match_route_sound m path headers h = record {
  prefix_holds = elim (Bool-cases (m.prefix == [])) [
    | inl e ↦ (path, ground (arith, eq_iff m.prefix []))
    | inr e ↦ has_prefix_sound path m.prefix (ground arith)
  ];
  exact_holds = elim (Bool-cases (m.exact == [])) [
    | inl e ↦ inl ((eq_iff m.exact []).0 e)
    | inr e ↦
        let same : strip_query path ≡ m.exact = ground (arith, eq_iff (strip_query path) m.exact) in
        inr (subst (λ (s : Bytes). IsPathWithQuery s path) same (strip_query-IsPathWithQuery path))
  ];
  headers_hold = match_headers_sound m.headers headers (ground arith);
}

match_route_complete :
    (m : MatchConfig) (path : Bytes) (headers : Bytes → Bytes)
    → Matches m path headers
    → match_route m path headers ≡ true
unfolding match_route
match_route_complete m path headers v =
    let (rest, e) = v.prefix_holds in
    let exact : (m.exact ≡ []) ⊎ (strip_query path ≡ m.exact) = elim v.exact_holds [
      | inl h ↦ inl h
      | inr h ↦ inr (strip_query_of_parts m.exact path h)
    ] in
    let begins : has_prefix path m.prefix ≡ true = rw e (has_prefix_complete m.prefix rest) in
    ground (
      arith,
      begins,
      eq_iff m.exact [],
      eq_iff (strip_query path) m.exact,
      match_headers_complete m.headers headers v.headers_hold,
    )

-- A request matches exactly if its path begins with the prefix, its path up to the first question mark is the
-- exact path, and each header condition holds, where an empty prefix or exact path asks for nothing.
pub match_route_iff :
    (m : MatchConfig) (path : Bytes) (headers : Bytes → Bytes)
    → (match_route m path headers ≡ true) ↔ Matches m path headers
match_route_iff m path headers =
    (match_route_sound m path headers, match_route_complete m path headers)
