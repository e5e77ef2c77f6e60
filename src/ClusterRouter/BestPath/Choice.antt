-- ===== src/ClusterRouter/BestPath/Choice.antt =====
-- What `Compute` (cluster-router/graph/bestpath.go) chooses for a target: the local terminal, or a best
-- one of the candidates that the peers offer.
use built_on_envoy.Prelude.{
  Bytes, bytes_eq, ◌==◌, eq_iff, true, false, Option, none, some, List, [], ◌∷◌, Memᴰ, All, ◌≡◌,
  ◌⊎◌, refl, ap, arith, inl, inr, Bool-cases, ◌∙◌, if◌then◌else◌,
}
use built_on_envoy.Prelude.Assoc.{GoMap, lookup, lookup-insert}
use built_on_envoy.ClusterRouter.Graph.{Route}
use built_on_envoy.ClusterRouter.BestPath.{better, is_empty, offer}
use built_on_envoy.ClusterRouter.BestPath.Order.{better-IsStrictWeak}
use built_on_envoy.ClusterRouter.BestPath.Offers.{offer_all}

-- What an offer does to the entry of one target.
pub pick : Bytes → Route → Option Route → Option Route
pick t c cur =
    if c.target_cluster == t
    then (elim cur [
      | none ↦ some c
      | some e ↦ if is_empty e.as_path then some e else if better c e then some c else some e
    ])
    else cur

pub pick_all : Bytes → List Route → Option Route → Option Route
pick_all t [] cur = cur
pick_all t (c ∷ cs) cur = pick_all t cs (pick t c cur)

lookup-offer :
    (t : Bytes) (c : Route) (out : GoMap Route) → lookup t (offer c out) ≡ pick t c (lookup t out)
unfolding offer pick
lookup-offer t c out =
    ground (arith, lookup-insert c.target_cluster t c out, eq_iff c.target_cluster t)

pub lookup-offer_all :
    (t : Bytes) (cs : List Route) (out : GoMap Route)
    → lookup t (offer_all cs out) ≡ pick_all t cs (lookup t out)
unfolding offer_all pick_all
lookup-offer_all t [] out = refl
lookup-offer_all t (c ∷ cs) out = rw (← lookup-offer t c out) (lookup-offer_all t cs (offer c out))

-- A route with an empty path is local, and stays.
pub pick_all_local :
    (t : Bytes) (cs : List Route) (e : Route)
    → is_empty e.as_path ≡ true
    → pick_all t cs (some e) ≡ some e
unfolding pick_all pick
pick_all_local t [] e h = refl
pick_all_local t (c ∷ cs) e h = ground (arith, pick_all_local t cs e h)

better_refl : (a : Route) → better a a ≡ false
better_refl a = elim (Bool-cases (better a a)) [
  | inl e ↦ better-IsStrictWeak.asym a a e
  | inr e ↦ e
]

better_asym : (a b : Route) → better a b ≡ true → better b a ≡ false
better_asym = better-IsStrictWeak.asym

better_trans : (a b c : Route) → better b a ≡ false → better c b ≡ false → better c a ≡ false
better_trans = better-IsStrictWeak.trans

module _ (t : Bytes) where
  pick-none_cases :
      (c : Route) → (pick t c none ≡ none) ⊎ ((pick t c none ≡ some c) × (c.target_cluster ≡ t))
  unfolding pick
  pick-none_cases c = ground (arith, eq_iff c.target_cluster t)

  pick-some_cases :
      (c e : Route)
      → (pick t c (some e) ≡ some e)
        ⊎ ((pick t c (some e) ≡ some c) × (c.target_cluster ≡ t) × (better c e ≡ true))
  unfolding pick
  pick-some_cases c e = ground (arith, eq_iff c.target_cluster t)

  pick_cases :
      (c : Route) (cur : Option Route)
      → (pick t c cur ≡ cur) ⊎ ((pick t c cur ≡ some c) × (c.target_cluster ≡ t))
  pick_cases c none = pick-none_cases c
  pick_cases c (some e) = elim (pick-some_cases c e) [ inl h ↦ inl h | inr h ↦ inr (h.0, h.1) ]

  -- The chosen route is the entry there was, or an offer for the target.
  pub pick_all_source :
      (cs : List Route) (cur : Option Route) (r : Route)
      → pick_all t cs cur ≡ some r
      → (cur ≡ some r) ⊎ (Memᴰ r cs × (r.target_cluster ≡ t))
  unfolding pick_all
  pick_all_source [] cur r h = inl h
  pick_all_source (c ∷ cs) cur r h = elim (pick_all_source cs (pick t c cur) r h) [
    | inr (m, e) ↦ inr (Memᴰ.tail m, e)
    | inl e ↦ elim (pick_cases c cur) [
      | inl k ↦ inl (cc)
      | inr (k, at) ↦
          let same : r ≡ c = ground (arith, e, k) in
          inr (Memᴰ.head same, ap (λ (x : Route). x.target_cluster) same ∙ at)
    ]
  ]

  -- An entry is replaced by better ones only.
  pick_all_keeps :
      (cs : List Route) (e : Route)
      → (r : Route) × (pick_all t cs (some e) ≡ some r) × (better e r ≡ false)
  unfolding pick_all
  pick_all_keeps [] e = (e, refl, better_refl e)
  pick_all_keeps (c ∷ cs) e = elim (pick-some_cases c e) [
    | inl h ↦ rw h (pick_all_keeps cs e)
    | inr (h, at, b) ↦
        let (r, k, worse) = pick_all_keeps cs c in
        rw h (r, k, better_trans r c e worse (better_asym c e b))
  ]

  -- An entry that gives way to `c` if `c` is better.
  abbrev pub Yields : Route → Option Route → Type 0
  Yields c cur =
      (cur ≡ none)
      ⊎ ((e : Route) × (cur ≡ some e) × ((is_empty e.as_path ≡ false) ⊎ (better c e ≡ false)))

  pick-Yields :
      (q c : Route) (cur : Option Route)
      → is_empty q.as_path ≡ false
      → Yields c cur
      → Yields c (pick t q cur)
  pick-Yields q c cur learned y = elim (pick_cases q cur) [
    | inl h ↦ rw h y
    | inr (h, _) ↦ inr (q, h, inl learned)
  ]

  pick_best :
      (c : Route) (cur : Option Route)
      → c.target_cluster ≡ t
      → Yields c cur
      → (x : Route) × (pick t c cur ≡ some x) × (better c x ≡ false)
  unfolding pick
  pick_best c cur at (inl e) = (c, ground (arith, eq_iff c.target_cluster t), better_refl c)
  pick_best c cur at (inr (e, h, y)) = elim (Bool-cases (is_empty e.as_path)) [
    | inl local ↦ (e, ground (arith, eq_iff c.target_cluster t), ground arith)
    | inr learned ↦ elim (Bool-cases (better c e)) [
      | inl b ↦ (c, ground (arith, eq_iff c.target_cluster t), better_refl c)
      | inr b ↦ (e, ground (arith, eq_iff c.target_cluster t), b)
    ]
  ]

  -- No offer for the target is better than the chosen route.
  pub pick_all_best :
      (cs : List Route) (cur : Option Route) (c : Route)
      → All (λ q. is_empty q.as_path ≡ false) cs
      → Memᴰ c cs
      → c.target_cluster ≡ t
      → Yields c cur
      → (r : Route) × (pick_all t cs cur ≡ some r) × (better c r ≡ false)
  unfolding pick_all
  pick_all_best [] cur c l m at y = elim m [ ]
  pick_all_best (q ∷ cs) cur c l (Memᴰ.head e) at y =
      let (x, h, b) = pick_best c cur at y in
      let (r, k, worse) = pick_all_keeps cs x in rw (← e, h) (r, k, better_trans r x c worse b)
  pick_all_best (q ∷ cs) cur c l (Memᴰ.tail m) at y =
      pick_all_best cs (pick t q cur) c l.1 m at (pick-Yields q c cur l.0 y)
