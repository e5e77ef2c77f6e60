-- ===== src/ClusterRouter/BestPath/Advertise.antt =====
-- `AdvertiseTo` of cluster-router/graph/bestpath.go: split horizon.
use mathlib.Core.List.Memᴰ
use mathlib.Core.List.Permᴰ
use mathlib.Core.List.{Permᴰ}
use built_on_envoy.Prelude.{
  Bytes, Bool, subst, [], ◌∷◌, Memᴰ, All, ◌≡◌, ◌≢◌, ◌↔◌, refl, sym, ap, inl, inr, ◌∙◌, Bool-cases,
  bytes_ltb_total, All-imp, false,
}
use built_on_envoy.Prelude.Assoc.{GoMap}
use built_on_envoy.Prelude.Sort.{
  by_key, IsSorted, mem-sort_slice, sort_slice-IsSorted, by_key-IsStrictWeak, sort_slice-eq_of_perm,
  Untied,
}
use built_on_envoy.ClusterRouter.Graph.{Route, Table}
use built_on_envoy.ClusterRouter.BestPath.{has_in_path, withhold, advertise_to}
use built_on_envoy.ClusterRouter.BestPath.Offers.{not-mem_of_has_in_path, has_in_path_of_not-mem}

withhold_sound :
    (id : Bytes) (routes : GoMap Route) (r : Route)
    → Memᴰ r (withhold id routes)
    → (k : Bytes) × Memᴰ (k, r) routes × (has_in_path r.as_path id ≡ false)
unfolding withhold
withhold_sound id [] r m = elim m [ ]
withhold_sound id ((k, q) ∷ routes) r m = elim (Bool-cases (has_in_path q.as_path id)) [
  | inl e ↦ let (j, n, h) = withhold_sound id routes r (rw e at m) in (j, Memᴰ.tail n, h)
  | inr e ↦ elim (Memᴰ.cases_cons (rw e at m)) [
    | inl same ↦ (
      k,
      Memᴰ.head (ap (λ (x : Route). (k, x)) same),
      ap (λ (x : Route). has_in_path x.as_path id) same ∙ e,
    )
    | inr rest ↦ let (j, n, h) = withhold_sound id routes r rest in (j, Memᴰ.tail n, h)
  ]
]

withhold_complete :
    (id k : Bytes) (routes : GoMap Route) (r : Route)
    → Memᴰ (k, r) routes
    → has_in_path r.as_path id ≡ false
    → Memᴰ r (withhold id routes)
unfolding withhold
withhold_complete id k [] r m h = elim m [ ]
withhold_complete id k ((j, q) ∷ routes) r (Memᴰ.head e) h =
    let same : r ≡ q = ap (λ (x : Bytes × Route). x.1) e in
    let shown : has_in_path q.as_path id ≡ false =
      ap (λ (x : Route). has_in_path x.as_path id) (sym same) ∙ h in
    rw shown (Memᴰ.head same)
withhold_complete id k ((j, q) ∷ routes) r (Memᴰ.tail m) h =
    elim (Bool-cases (has_in_path q.as_path id)) [
      | inl e ↦ rw e (withhold_complete id k routes r m h)
      | inr e ↦ rw e (Memᴰ.tail (withhold_complete id k routes r m h))
    ]

-- A peer is sent exactly the routes of the table whose path does not go through it.
pub advertise_to-mem :
    (t : Table) (peer_id : Bytes) (r : Route)
    → Memᴰ r (advertise_to t peer_id)
      ↔ ((k : Bytes) × Memᴰ (k, r) t.routes × ¬ Memᴰ peer_id r.as_path)
unfolding advertise_to
advertise_to-mem t id r = (
  λ m.
      let (k, n, h) =
        withhold_sound id t.routes r ((mem-sort_slice _ r (withhold id t.routes)).0 m) in
      (k, n, not-mem_of_has_in_path _ _ h),
  λ s.
      (mem-sort_slice _ r (withhold id t.routes)).1
        (withhold_complete id s.0 t.routes r s.1 (has_in_path_of_not-mem _ _ s.2)),
)

abbrev pub by_target : Route → Route → Bool
by_target = by_key (λ r. r.target_cluster)

-- They are sent in the order of their targets.
pub advertise_to-IsSorted :
    (t : Table) (peer_id : Bytes) → IsSorted by_target (advertise_to t peer_id)
unfolding advertise_to
advertise_to-IsSorted t id =
    sort_slice-IsSorted by_target (by_key-IsStrictWeak (λ (r : Route). r.target_cluster))
      (withhold id t.routes)

-- No two entries of the map have routes to one target.
abbrev pub DistinctTargets : GoMap Route → Type 0
DistinctTargets [] = Unit
DistinctTargets ((k, r) ∷ routes) =
    All (λ e. r.target_cluster ≢ e.1.target_cluster) routes × DistinctTargets routes

withhold-All :
    (id : Bytes) (P : Route → Type 0) (routes : GoMap Route)
    → All (λ e. P e.1) routes
    → All P (withhold id routes)
unfolding withhold
withhold-All id P [] h = tt
withhold-All id P ((k, r) ∷ routes) h = elim (Bool-cases (has_in_path r.as_path id)) [
  | inl e ↦ rw e (withhold-All id P routes h.1)
  | inr e ↦ rw e (h.0, withhold-All id P routes h.1)
]

Untied-withhold :
    (id : Bytes) (routes : GoMap Route)
    → DistinctTargets routes
    → Untied by_target (withhold id routes)
unfolding withhold
Untied-withhold id [] d = tt
Untied-withhold id ((k, r) ∷ routes) d = elim (Bool-cases (has_in_path r.as_path id)) [
  | inl e ↦ rw e (Untied-withhold id routes d.1)
  | inr e ↦ rw e (
    withhold-All id (λ q. ¬ ((by_target r q ≡ false) × (by_target q r ≡ false))) routes
        (All-imp _ _ (λ q ne t. ne (bytes_ltb_total r.target_cluster q.1.target_cluster t.0 t.1))
          routes d.0),
    Untied-withhold id routes d.1,
  )
]

withhold_cons :
    (id : Bytes) (e : Bytes × Route) (routes others : GoMap Route)
    → Permᴰ (withhold id routes) (withhold id others)
    → Permᴰ (withhold id (e ∷ routes)) (withhold id (e ∷ others))
unfolding withhold
withhold_cons id e routes others p = elim (Bool-cases (has_in_path e.1.as_path id)) [
  | inl h ↦ rw h p
  | inr h ↦ rw h (Permᴰ.cons refl p)
]

withhold_swap :
    (id : Bytes) (d e : Bytes × Route) (routes : GoMap Route)
    → Permᴰ (withhold id (d ∷ e ∷ routes)) (withhold id (e ∷ d ∷ routes))
unfolding withhold
withhold_swap id d e routes = elim (Bool-cases (has_in_path d.1.as_path id)) [
  | inl h ↦ rw h (Permᴰ.refl (withhold id (e ∷ routes)))
  | inr h ↦ elim (Bool-cases (has_in_path e.1.as_path id)) [
    | inl k ↦ rw (h, k) (Permᴰ.refl (d.1 ∷ withhold id routes))
    | inr k ↦ rw (h, k) (Permᴰ.swap refl refl)
  ]
]

withhold-perm :
    (id : Bytes) {routes others : GoMap Route}
    → Permᴰ routes others
    → Permᴰ (withhold id routes) (withhold id others)
withhold-perm id Permᴰ.nil = Permᴰ.refl (withhold id [])
withhold-perm id (Permᴰ.cons {a = a} {l₁ = l} {l₂ = m} e p) =
    subst (λ x. Permᴰ (withhold id (a ∷ l)) (withhold id (x ∷ m))) e
      (withhold_cons id a l m (withhold-perm id p))
withhold-perm id (Permᴰ.swap {a = a} {b = b} {b' = b'} {l = l} e f) =
    subst (λ y. Permᴰ (withhold id (a ∷ b ∷ l)) (withhold id (y ∷ b' ∷ l))) f
      (subst (λ x. Permᴰ (withhold id (a ∷ b ∷ l)) (withhold id (b ∷ x ∷ l))) e
        (withhold_swap id a b l))
withhold-perm id (Permᴰ.trans p q) = Permᴰ.trans (withhold-perm id p) (withhold-perm id q)

-- What is sent does not depend on the order in which the map of routes is walked.
pub advertise_to-eq_of_perm :
    (t u : Table) (peer_id : Bytes)
    → Permᴰ t.routes u.routes
    → DistinctTargets t.routes
    → advertise_to t peer_id ≡ advertise_to u peer_id
unfolding advertise_to
advertise_to-eq_of_perm t u id p d =
    sort_slice-eq_of_perm by_target (by_key-IsStrictWeak (λ (r : Route). r.target_cluster))
      (withhold-perm id p) (Untied-withhold id t.routes d)
