-- ===== src/MultiDc/Meta/Primary.antt =====
-- The metadata nodes behind `validate_and_set_config3`: what they claim, and their primary.
use cloudnative.ListMaps.{add_to_list_map}
use cloudnative.Base.{
  not, String, ℕ, ◌+◌, ◌<◌, List, [], ◌∷◌, length, Dict, has_key, lookup, string_eq, need, raise_if,
  ok, zero, suc, >>=-eq-ok, ok-injective, ◌≡◌, refl, subst, arith, nat_eq,
}
use cloudnative.Config.{Args, StorageNode}
use cloudnative.Claims.Distinct.{claim_all}
use cloudnative.OneKey.Shards.Primary.{primaries}
use cloudnative.Allocate.{Site, place_storage_node}
use cloudnative.Allocate.Claimed.{
  PortsClaimed, PortsClaimed-append, placed_ports, placed_nodes_ports, place_storage_node-claim,
}
use cloudnative.OneDc.Validate.{forbid_paths}
use cloudnative.MultiDc.Managers.{}
use cloudnative.MultiDc.Meta.{place_meta_node, place_meta_nodes, make_primary}

place_meta_node-claim :
    (args : Args) (dc_of : Dict String) (s s' : Site) (dc : String) (n n' : StorageNode)
    → place_meta_node args dc_of s n ≡ ok (s', dc, n')
    → PortsClaimed s.ports (placed_ports "rbr" n') s'.ports × (primaries (n' ∷ []) ≡ 0)
unfolding place_meta_node
place_meta_node-claim args dc_of s s' dc n n' h =
    let (n0, prepared, h0) = >>=-eq-ok (forbid_paths n) _ h in
    let (_, managed, h1) = >>=-eq-ok (raise_if (not (has_key n.ip s.nodemgrs)) _) _ h0 in
    let (dc1, found, h2) = >>=-eq-ok (need n.ip (lookup n.ip dc_of)) _ h1 in
    let ((s1, n1), placed, h3) = >>=-eq-ok (place_storage_node args s "rbr" "128MB" n0) _ h2 in
    subst
      (λ (r : Site × String × StorageNode).
        PortsClaimed s.ports (placed_ports "rbr" r.2) r.0.ports × (primaries (r.2 ∷ []) ≡ 0))
      (ok-injective h3) (place_storage_node-claim args s s1 "rbr" "128MB" n0 n1 placed, refl)

-- Behind the loop over the metadata nodes: what they claimed, none is the primary yet, and they
-- are as many.
pub record MetaPlaced (s s' : Site) (given placed : List StorageNode) : Type 0 where
  pub claimed : PortsClaimed s.ports (placed_nodes_ports "rbr" placed) s'.ports
  pub no_primary : primaries placed ≡ 0
  pub same_length : length placed ≡ length given

pub place_meta_nodes-Placed :
    (args : Args) (dc_of : Dict String) (i : ℕ) (m m' : Dict (List ℕ)) (s s' : Site)
    (ns ns' : List StorageNode)
    → place_meta_nodes args dc_of i m s ns ≡ ok (s', m', ns')
    → MetaPlaced s s' ns ns'
unfolding place_meta_nodes
place_meta_nodes-Placed args dc_of i m m' s s' [] ns' h =
    subst (λ (r : Site × Dict (List ℕ) × List StorageNode). MetaPlaced s r.0 [] r.2)
      (ok-injective h)
      (record { claimed = unfold claim_all in refl; no_primary = refl; same_length = refl })
place_meta_nodes-Placed args dc_of i m m' s s' (n ∷ ns) ns' h =
    let ((s1, dc, n'), first, h1) = >>=-eq-ok (place_meta_node args dc_of s n) _ h in
    let ((s2, m2, ns2), others, h2) =
      >>=-eq-ok (place_meta_nodes args dc_of (i + 1) (add_to_list_map m dc i) s1 ns) _ h1 in
    let rest =
      place_meta_nodes-Placed args dc_of (i + 1) (add_to_list_map m dc i) m2 s1 s2 ns ns2 others in
    let (claimed, unmarked) = place_meta_node-claim args dc_of s s1 dc n n' first in
    subst (λ (r : Site × Dict (List ℕ) × List StorageNode). MetaPlaced s r.0 (n ∷ ns) r.2)
      (ok-injective h2)
      (record {
        claimed = PortsClaimed-append s.ports s1.ports s2.ports _ _ claimed rest.claimed;
        no_primary = omega (arith, rest.no_primary, unmarked);
        same_length = omega (arith, rest.same_length);
      })

pub make_primary-primaries :
    (i : ℕ) (ns : List StorageNode)
    → i < length ns
    → primaries ns ≡ 0
    → primaries (make_primary i ns) ≡ 1
unfolding make_primary
make_primary-primaries i [] l h = elim l [ ]
make_primary-primaries zero (n ∷ ns) l h = omega arith
make_primary-primaries (suc i) (n ∷ ns) l h =
    omega (arith, make_primary-primaries i ns (omega arith) (omega arith))

pub make_primary-ports :
    (i : ℕ) (ns : List StorageNode)
    → placed_nodes_ports "rbr" (make_primary i ns) ≡ placed_nodes_ports "rbr" ns
unfolding make_primary
make_primary-ports i [] = refl
make_primary-ports zero (n ∷ ns) = refl
make_primary-ports (suc i) (n ∷ ns) = rw (make_primary-ports i ns) refl
