-- ===== src/ClusterRouter/BestPath/Order.antt =====
-- `better` of cluster-router/graph/bestpath.go compares routes by a strict weak order.
use built_on_envoy.Prelude.{◌≡◌, true, false, arith, bytes_ltb_asym, bytes_ltb_trans}
use built_on_envoy.Prelude.Sort.{IsStrictWeak}
use built_on_envoy.ClusterRouter.Graph.{Route}
use built_on_envoy.ClusterRouter.BestPath.{better, first_hop}

better_asym : (a b : Route) → better a b ≡ true → better b a ≡ false
unfolding better
better_asym a b h = ground (arith, bytes_ltb_asym (first_hop a.as_path) (first_hop b.as_path))

better_trans : (a b c : Route) → better b a ≡ false → better c b ≡ false → better c a ≡ false
unfolding better
better_trans a b c h k =
    ground
      (arith, bytes_ltb_trans (first_hop a.as_path) (first_hop b.as_path) (first_hop c.as_path))

pub better-IsStrictWeak : IsStrictWeak better
better-IsStrictWeak = record { asym = better_asym; trans = better_trans }
