-- ===== src/ClusterRouter/BestPath/Accepted.antt =====
-- The list of candidates in the order of the loops of `Compute` (cluster-router/graph/bestpath.go)
-- holds exactly the routes of the relation `Offered`.
use mathlib.Core.List.Memᴰ
use built_on_envoy.Prelude.{
  Bytes, bytes_eq, true, false, some, List, [], ◌∷◌, Memᴰ, ◌≡◌, ◌⊎◌, refl, sym, ap, arith, inl, inr,
  Bool-cases, Option-cases, ◌∙◌, subst,
}
use built_on_envoy.Prelude.Assoc.{GoMap, lookup}
use built_on_envoy.ClusterRouter.Graph.{PeerSpec, LocalCluster, Route}
use built_on_envoy.ClusterRouter.BestPath.{
  PeerAdvertisement, has_in_path, valid_advertised_route, candidate,
}
use built_on_envoy.ClusterRouter.BestPath.Offers.{
  IsFirstValid, Accepts, Offered, seen_after, offer_of, route_offers, peer_offers, offers,
  mem_of_has_in_path, not-mem_of_has_in_path, has_in_path_of_not-mem,
}

seen_after_sound :
    (r : Route) (seen : List Bytes) (t : Bytes)
    → Memᴰ t (seen_after r seen)
    → Memᴰ t seen ⊎ ((valid_advertised_route r ≡ true) × (t ≡ r.target_cluster))
unfolding seen_after
seen_after_sound r seen t = elim (Bool-cases (valid_advertised_route r)) [
  | inr e ↦ rw e (λ m. inl m)
  | inl e ↦ elim (Bool-cases (has_in_path seen r.target_cluster)) [
    | inl h ↦ rw (e, h) (λ m. inl m)
    | inr h ↦ rw (e, h) elim [ Memᴰ.head q ↦ inr (refl, q) | Memᴰ.tail m ↦ inl m ]
  ]
]

seen_after_keeps :
    (r : Route) (seen : List Bytes) (t : Bytes) → Memᴰ t seen → Memᴰ t (seen_after r seen)
unfolding seen_after
seen_after_keeps r seen t m = elim (Bool-cases (valid_advertised_route r)) [
  | inr e ↦ rw e m
  | inl e ↦ elim (Bool-cases (has_in_path seen r.target_cluster)) [
    | inl h ↦ rw (e, h) m
    | inr h ↦ rw (e, h) (Memᴰ.tail m)
  ]
]

seen_after_adds :
    (r : Route) (seen : List Bytes)
    → valid_advertised_route r ≡ true
    → Memᴰ r.target_cluster (seen_after r seen)
unfolding seen_after
seen_after_adds r seen e = elim (Bool-cases (has_in_path seen r.target_cluster)) [
  | inl h ↦ rw (e, h) (mem_of_has_in_path seen r.target_cluster h)
  | inr h ↦ rw (e, h) (Memᴰ.head refl)
]

module _ (local_envoy_id : Bytes) (p : PeerSpec) where
  -- What the loop takes from one route: nothing, or the candidate made from it.
  abbrev Taken : Route → List Bytes → Route → Type 0
  Taken r seen c =
      (valid_advertised_route r ≡ true)
      × (has_in_path seen r.target_cluster ≡ false)
      × (has_in_path r.as_path local_envoy_id ≡ false)
      × (has_in_path r.as_path p.id ≡ false)
      × (c ≡ candidate p r)

  offer_of_cases :
      (r : Route) (seen : List Bytes)
      → (offer_of local_envoy_id p r seen ≡ [])
        ⊎ (Taken r seen (candidate p r) × (offer_of local_envoy_id p r seen ≡ candidate p r ∷ []))
  unfolding offer_of
  offer_of_cases r seen = ground arith

  offer_of_sound :
      (r : Route) (seen : List Bytes) (c : Route)
      → Memᴰ c (offer_of local_envoy_id p r seen)
      → Taken r seen c
  offer_of_sound r seen c = elim (offer_of_cases r seen) [
    | inl e ↦ rw e elim [ ]
    | inr (t, e) ↦ rw e elim [ Memᴰ.head q ↦ (t.0, t.1, t.2, t.3, q) | Memᴰ.tail m ↦ elim m [ ] ]
  ]

  offer_of_complete :
      (r : Route) (seen : List Bytes) (c : Route)
      → Taken r seen c
      → Memᴰ c (offer_of local_envoy_id p r seen)
  unfolding offer_of
  offer_of_complete r seen c t = rw (t.0, t.1, t.2, t.3) (Memᴰ.head t.4)

  route_offers_sound :
      (routes : List Route) (seen : List Bytes) (c : Route)
      → Memᴰ c (route_offers local_envoy_id p routes seen)
      → (a : Accepts local_envoy_id p routes c) × ¬ Memᴰ a.route.target_cluster seen
  unfolding route_offers
  route_offers_sound [] seen c m = elim m [ ]
  route_offers_sound (r ∷ routes) seen c m =
      elim (Memᴰ.append_cases (offer_of local_envoy_id p r seen) m) [
        | inl now ↦
            let (v, fresh, out, back, e) = offer_of_sound r seen c now in
            (
              record {
                route = r;
                first = IsFirstValid.here refl v;
                no_loop = not-mem_of_has_in_path _ _ out;
                no_return = not-mem_of_has_in_path _ _ back;
                made = e;
              },
              not-mem_of_has_in_path _ _ fresh,
            )
        | inr rest ↦
            let (a, fresh) = route_offers_sound routes (seen_after r seen) c rest in
            (
              record {
                route = a.route;
                first =
                    IsFirstValid.later
                      (λ v e.
                        fresh
                          (subst (λ t. Memᴰ t (seen_after r seen)) e (seen_after_adds r seen v)))
                      a.first;
                no_loop = a.no_loop;
                no_return = a.no_return;
                made = a.made;
              },
              λ m. fresh (seen_after_keeps r seen _ m),
            )
      ]

  route_offers_complete :
      (routes : List Route) (seen : List Bytes) (c r : Route)
      → IsFirstValid r routes
      → ¬ Memᴰ local_envoy_id r.as_path
      → ¬ Memᴰ p.id r.as_path
      → c ≡ candidate p r
      → ¬ Memᴰ r.target_cluster seen
      → Memᴰ c (route_offers local_envoy_id p routes seen)
  unfolding route_offers
  route_offers_complete [] seen c r f out back made fresh = elim f [ ]
  route_offers_complete (q ∷ routes) seen c r (IsFirstValid.here e v) out back made fresh =
      Memᴰ.append_left _ (
        offer_of_complete q seen c (
          v,
          has_in_path_of_not-mem _ _ (subst (λ x. ¬ Memᴰ x.target_cluster seen) e fresh),
          has_in_path_of_not-mem _ _ (subst (λ x. ¬ Memᴰ local_envoy_id x.as_path) e out),
          has_in_path_of_not-mem _ _ (subst (λ x. ¬ Memᴰ p.id x.as_path) e back),
          made ∙ ap (candidate p) e,
        ))
  route_offers_complete (q ∷ routes) seen c r (IsFirstValid.later other f) out back made fresh =
      Memᴰ.append_right (offer_of local_envoy_id p q seen) (
        route_offers_complete routes (seen_after q seen) c r f out back made λ m.
          elim (seen_after_sound q seen _ m) [ inl old ↦ fresh old | inr (v, e) ↦ other v (sym e) ])

module _ (local_envoy_id : Bytes) (locals : GoMap LocalCluster) where
  peer_offers_sound :
      (pa : PeerAdvertisement) (c : Route)
      → Memᴰ c (peer_offers local_envoy_id locals pa)
      → (l : LocalCluster) × (lookup pa.peer.local_cluster locals ≡ some l)
        × Accepts local_envoy_id pa.peer pa.adv.routes c
  unfolding peer_offers
  peer_offers_sound pa c = elim (Option-cases (lookup pa.peer.local_cluster locals)) [
    | inl e ↦ rw (e, peer_offers) elim [ ]
    | inr (l, e) ↦
        rw (e, peer_offers)
          λ m. (l, refl, (route_offers_sound local_envoy_id pa.peer pa.adv.routes [] c m).0)
  ]

  peer_offers_complete :
      (pa : PeerAdvertisement) (c : Route) (l : LocalCluster)
      → lookup pa.peer.local_cluster locals ≡ some l
      → Accepts local_envoy_id pa.peer pa.adv.routes c
      → Memᴰ c (peer_offers local_envoy_id locals pa)
  unfolding peer_offers
  peer_offers_complete pa c l e a =
      rw (e, peer_offers)
        (route_offers_complete local_envoy_id pa.peer pa.adv.routes [] c a.route a.first a.no_loop
          a.no_return a.made (λ m. elim m [ ]))

  pub offers_sound :
      (advs : List PeerAdvertisement) (c : Route)
      → Memᴰ c (offers local_envoy_id locals advs)
      → Offered local_envoy_id locals advs c
  unfolding offers
  offers_sound [] c m = elim m [ ]
  offers_sound (pa ∷ advs) c m = elim (Memᴰ.append_cases (peer_offers local_envoy_id locals pa) m) [
    | inl here ↦
        let (l, e, a) = peer_offers_sound pa c here in
        record { source = pa; received = Memᴰ.head refl; cluster = l; known = e; accepted = a }
    | inr rest ↦
        let o = offers_sound advs c rest in
        record {
          source = o.source;
          received = Memᴰ.tail o.received;
          cluster = o.cluster;
          known = o.known;
          accepted = o.accepted;
        }
  ]

  pub offers_complete :
      (advs : List PeerAdvertisement) (c : Route) (pa : PeerAdvertisement) (l : LocalCluster)
      → Memᴰ pa advs
      → lookup pa.peer.local_cluster locals ≡ some l
      → Accepts local_envoy_id pa.peer pa.adv.routes c
      → Memᴰ c (offers local_envoy_id locals advs)
  unfolding offers
  offers_complete [] c pa l m known a = elim m [ ]
  offers_complete (q ∷ advs) c pa l (Memᴰ.head e) known a = Memᴰ.append_left _ (
      subst (λ x. Memᴰ c (peer_offers local_envoy_id locals x)) e
        (peer_offers_complete pa c l known a))
  offers_complete (q ∷ advs) c pa l (Memᴰ.tail m) known a =
      Memᴰ.append_right (peer_offers local_envoy_id locals q)
        (offers_complete advs c pa l m known a)
