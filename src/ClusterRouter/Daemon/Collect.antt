-- ===== src/ClusterRouter/Daemon/Collect.antt =====
-- `collectPeers` (cluster-router/graph/daemon.go): the goroutines do not affect one another, and what
-- they return is fresh.
use built_on_envoy.Prelude.{
  ℕ, Bytes, bytes_eq, eq_iff, ◌==◌, Option, none, some, List, [], ◌∷◌, Memᴰ, All, All-imp, ◌≡◌, ◌≢◌,
  refl, sym, ap, arith, inl, inr, Bool-cases, subst,
}
use built_on_envoy.Prelude.Int.{ℤ}
use built_on_envoy.Prelude.Assoc.{GoMap, lookup, lookup-insert}
use built_on_envoy.ClusterRouter.Graph.{PeerSpec, Advertisement}
use built_on_envoy.ClusterRouter.BestPath.{PeerAdvertisement}
use built_on_envoy.ClusterRouter.Peer.{Fetched, ok, err}
use built_on_envoy.ClusterRouter.Daemon.{
  PeerCacheEntry, is_fresh, cached, collect_peer, append_used, collect_peers,
}

abbrev pub DistinctIds : List PeerSpec → Type 0
DistinctIds [] = Unit
DistinctIds (p ∷ peers) = All (λ q. p.id ≢ q.id) peers × DistinctIds peers

-- What one peer contributes, from the cache as it stood before the tick.
unfoldable pub contribution :
    ℤ → ℕ → PeerSpec → Fetched → Option PeerCacheEntry → Option PeerAdvertisement
contribution stale_after now p (ok adv) entry = some (record { peer = p; adv = adv })
contribution stale_after now p (err e) entry = cached stale_after now p entry

unfoldable pub contributions :
    ℤ → ℕ → (PeerSpec → Fetched) → GoMap PeerCacheEntry → List PeerSpec → List PeerAdvertisement
contributions stale_after now fetch cache [] = []
contributions stale_after now fetch cache (p ∷ peers) =
    append_used (contribution stale_after now p (fetch p) (lookup p.id cache))
      (contributions stale_after now fetch cache peers)

-- `Q` holds of each cached advertisement, with the peer id that it is cached under.
abbrev pub CacheHolds {ℓ} : (Bytes → Advertisement → Type ℓ) → GoMap PeerCacheEntry → Type ℓ
CacheHolds Q cache =
    (id : Bytes) (entry : PeerCacheEntry) → lookup id cache ≡ some entry → Q id entry.adv

module _ (stale_after : ℤ) (now : ℕ) where
  collect_peer-contribution :
      (p : PeerSpec) (f : Fetched) (cache : GoMap PeerCacheEntry)
      → (collect_peer stale_after now p f cache).0
        ≡ contribution stale_after now p f (lookup p.id cache)
  unfolding collect_peer contribution
  collect_peer-contribution p (ok adv) cache = refl
  collect_peer-contribution p (err e) cache = refl

  -- A goroutine writes the entry of its own peer only.
  collect_peer-other :
      (p : PeerSpec) (f : Fetched) (cache : GoMap PeerCacheEntry) (id : Bytes)
      → p.id ≢ id
      → lookup id (collect_peer stale_after now p f cache).1 ≡ lookup id cache
  unfolding collect_peer
  collect_peer-other p (ok adv) cache id ne =
      ground
        (arith, lookup-insert p.id id (record { adv = adv; received = now }) cache, eq_iff p.id id)
  collect_peer-other p (err e) cache id ne = refl

  contributions-cong :
      (fetch : PeerSpec → Fetched) (cache other : GoMap PeerCacheEntry) (peers : List PeerSpec)
      → All (λ q. lookup q.id cache ≡ lookup q.id other) peers
      → contributions stale_after now fetch cache peers
        ≡ contributions stale_after now fetch other peers
  unfolding contributions
  contributions-cong fetch cache other [] h = refl
  contributions-cong fetch cache other (p ∷ peers) h =
      rw (h.0, contributions-cong fetch cache other peers h.1)

  -- With distinct peer ids, each peer contributes what it would alone: its own fetch, or its own cache
  -- entry as it was before the tick.
  pub collect_peers-contributions :
      (fetch : PeerSpec → Fetched) (peers : List PeerSpec) (cache : GoMap PeerCacheEntry)
      → DistinctIds peers
      → (collect_peers stale_after now fetch peers cache).0
        ≡ contributions stale_after now fetch cache peers
  unfolding collect_peers contributions
  collect_peers-contributions fetch [] cache d = refl
  collect_peers-contributions fetch (p ∷ peers) cache d = rw (
    collect_peer-contribution p (fetch p) cache,
    collect_peers-contributions fetch peers (collect_peer stale_after now p (fetch p) cache).1 d.1,
    contributions-cong fetch (collect_peer stale_after now p (fetch p) cache).1 cache peers
        (All-imp _ _ (λ q ne. collect_peer-other p (fetch p) cache q.id ne) peers d.0),
  )

  -- What holds of every fetched and every cached advertisement holds of those that are used, and again
  -- of the cache.
  module _ {ℓ} (Q : Bytes → Advertisement → Type ℓ) where
    abbrev UsedHolds : PeerSpec → Option PeerAdvertisement → Type ℓ
    UsedHolds p used = (pa : PeerAdvertisement) → used ≡ some pa → (pa.peer ≡ p) × Q p.id pa.adv

    used_of_cached :
        (p : PeerSpec) (entry : Option PeerCacheEntry)
        → ((e : PeerCacheEntry) → entry ≡ some e → Q p.id e.adv)
        → UsedHolds p (cached stale_after now p entry)
    unfolding cached
    used_of_cached p none h pa e = cc
    used_of_cached p (some entry) h pa e = elim (Bool-cases (is_fresh stale_after now entry)) [
      | inr f ↦ cc (rw f at e)
      | inl f ↦
          let same : record { peer = p; adv = entry.adv } ≡ pa = ground arith in
          (
            ap (λ (x : PeerAdvertisement). x.peer) (sym same),
            subst (Q p.id) (ap (λ (x : PeerAdvertisement). x.adv) same) (h entry refl),
          )
    ]

    collect_peer-holds :
        (p : PeerSpec) (f : Fetched) (cache : GoMap PeerCacheEntry)
        → ((adv : Advertisement) → f ≡ ok adv → Q p.id adv)
        → CacheHolds Q cache
        → UsedHolds p (collect_peer stale_after now p f cache).0
          × CacheHolds Q (collect_peer stale_after now p f cache).1
    unfolding collect_peer
    collect_peer-holds p (err e) cache fetched h =
        (used_of_cached p (lookup p.id cache) (h p.id), h)
    collect_peer-holds p (ok adv) cache fetched h = (
      λ pa e.
          let same : record { peer = p; adv = adv } ≡ pa = ground arith in
          (
            ap (λ (x : PeerAdvertisement). x.peer) (sym same),
            subst (Q p.id) (ap (λ (x : PeerAdvertisement). x.adv) same) (fetched adv refl),
          ),
      λ id entry e. elim (Bool-cases (p.id == id)) [
        | inl k ↦
            let same : record { adv = adv; received = now } ≡ entry =
              ground (arith, lookup-insert p.id id (record { adv = adv; received = now }) cache) in
            subst (λ x. Q id x) (ap (λ (x : PeerCacheEntry). x.adv) same)
              (subst (λ x. Q x adv) ((eq_iff p.id id).0 k) (fetched adv refl))
        | inr k ↦
            h id entry
              (ground (arith, lookup-insert p.id id (record { adv = adv; received = now }) cache))
      ],
    )

    append_used-All {κ} :
        (P : PeerAdvertisement → Type κ) (used : Option PeerAdvertisement)
        (out : List PeerAdvertisement)
        → ((pa : PeerAdvertisement) → used ≡ some pa → P pa)
        → All P out
        → All P (append_used used out)
    unfolding append_used
    append_used-All P none out h all = all
    append_used-All P (some pa) out h all = (h pa refl, all)

    pub collect_peers-holds :
        (fetch : PeerSpec → Fetched) (peers : List PeerSpec) (cache : GoMap PeerCacheEntry)
        → ((p : PeerSpec) (adv : Advertisement) → fetch p ≡ ok adv → Q p.id adv)
        → CacheHolds Q cache
        → All
            (λ pa. Memᴰ pa.peer peers × Q pa.peer.id pa.adv)
            (collect_peers stale_after now fetch peers cache).0
          × CacheHolds Q (collect_peers stale_after now fetch peers cache).1
    unfolding collect_peers
    collect_peers-holds fetch [] cache fetched h = (tt, h)
    collect_peers-holds fetch (p ∷ peers) cache fetched h =
        let (used, kept) = collect_peer-holds p (fetch p) cache (fetched p) h in
        let (all, last) =
          collect_peers-holds fetch peers (collect_peer stale_after now p (fetch p) cache).1 fetched
            kept in
        (
          append_used-All _ (collect_peer stale_after now p (fetch p) cache).0 _
              (λ pa e.
                let (same, q) = used pa e in
                (
                  Memᴰ.head same,
                  subst (λ x. Q x pa.adv) (ap (λ (x : PeerSpec). x.id) (sym same)) q,
                ))
              (All-imp _ _ (λ pa x. (Memᴰ.tail x.0, x.1)) _ all),
          last,
        )
