-- ===== src/MultiDc/Meta/Positions.antt =====
-- The positions that `dc_meta_map` holds, and the metadata shard behind a bootstrap.
use cloudnative.ListMaps.{add_to_list_map}
use cloudnative.Base.{
  String, ℕ, ◌+◌, ◌<◌, ◌≤◌, eqb, Bool, true, false, not, ◌&&◌, is_some, some, none, Option, List,
  [], ◌∷◌, length, All, All-map, Dict, lookup, need, raise_if, ok, >>=-eq-ok, ok-injective, ◌≡◌,
  refl, subst, arith,
}
use cloudnative.Config.{Args, StorageNode, MetaShard}
use cloudnative.OneKey.Shards.Primary.{primaries}
use cloudnative.Allocate.{Site}
use cloudnative.Allocate.Claimed.{PortsClaimed, placed_nodes_ports}
use cloudnative.MultiDc.{DataCenter}
use cloudnative.MultiDc.Managers.{Centers, too_few, need_two}
use cloudnative.MultiDc.Managers.Claimed.{need_two-enough}
use cloudnative.ListMaps.Members.{AllLists, add_to_list_map-AllLists}
use cloudnative.MultiDc.Meta.{
  place_meta_node, place_meta_nodes, make_primary, first_of, few_metas, primary_name, boot_meta,
  check_meta_mode, validate_meta,
}
use cloudnative.MultiDc.Meta.Primary.{
  place_meta_nodes-Placed, make_primary-primaries, make_primary-ports,
}

-- Every position in the map is below `n`.
abbrev pub Below : ℕ → Dict (List ℕ) → Type 0
Below n m = AllLists (λ i. i < n) m

Below-weaken : (n k : ℕ) (m : Dict (List ℕ)) → n ≤ k → Below n m → Below k m
Below-weaken n k m le b key is h =
    All-map (λ i. i < n) (λ i. i < k) is (λ i l. omega arith) (b key is h)

place_meta_nodes-Below :
    (args : Args) (dc_of : Dict String) (i : ℕ) (m m' : Dict (List ℕ)) (s s' : Site)
    (ns ns' : List StorageNode)
    → Below i m
    → place_meta_nodes args dc_of i m s ns ≡ ok (s', m', ns')
    → Below (i + length ns) m'
unfolding place_meta_nodes
place_meta_nodes-Below args dc_of i m m' s s' [] ns' b h =
    subst (λ (r : Site × Dict (List ℕ) × List StorageNode). Below (i + 0) r.1) (ok-injective h)
      (Below-weaken i (i + 0) m (omega arith) b)
place_meta_nodes-Below args dc_of i m m' s s' (n ∷ ns) ns' b h =
    let ((s1, dc, n'), first, h1) = >>=-eq-ok (place_meta_node args dc_of s n) _ h in
    let ((s2, m2, ns2), others, h2) =
      >>=-eq-ok (place_meta_nodes args dc_of (i + 1) (add_to_list_map m dc i) s1 ns) _ h1 in
    let b1 =
      add_to_list_map-AllLists (λ j. j < i + 1) m dc i (Below-weaken i (i + 1) m (omega arith) b)
        (omega arith) in
    let rest =
      place_meta_nodes-Below args dc_of (i + 1) (add_to_list_map m dc i) m2 s1 s2 ns ns2 b1
        others in
    subst (λ (r : Site × Dict (List ℕ) × List StorageNode). Below (i + length (n ∷ ns)) r.1)
      (ok-injective h2) (Below-weaken _ _ m2 (omega arith) rest)

-- What a bootstrap makes of the metadata shard. The primary is at a position that the map holds
-- under the primary data center.
pub record IsBooted (names : List String) (dcprimary : Option DataCenter) (m : Dict (List ℕ))
    (nodes : List StorageNode) : Type 0 where
  pub two_metas : All (λ dc. too_few m dc ≡ false) names
  pub position : ℕ
  pub others : List ℕ
  pub in_primary_center : lookup (primary_name dcprimary) m ≡ some (position ∷ others)
  pub unmarked : List StorageNode
  pub marked : nodes ≡ make_primary position unmarked
  pub no_other : primaries unmarked ≡ 0
  pub one_primary : primaries nodes ≡ 1

first_of-cons :
    (key : String) (o : Option (List ℕ)) (local : List ℕ) (i : ℕ)
    → need key o ≡ ok local
    → first_of local ≡ ok i
    → (others : List ℕ) × (o ≡ some (i ∷ others))
unfolding first_of
first_of-cons key none local i f g = cc
first_of-cons key (some []) local i f g = cc
first_of-cons key (some (j ∷ js)) local i f g = (js, ground arith)

boot_meta-IsBooted :
    (names : List String) (p : Option DataCenter) (m : Dict (List ℕ)) (given seeds : Option String)
    (nodes nodes' : List StorageNode)
    → Below (length nodes) m
    → primaries nodes ≡ 0
    → boot_meta true names p m given nodes ≡ ok (seeds, nodes')
    → IsBooted names p m nodes'
unfolding boot_meta
boot_meta-IsBooted names p m given seeds nodes nodes' b z h =
    let (_, two, h0) = >>=-eq-ok (need_two few_metas m names) _ h in
    let (local, found, h1) = >>=-eq-ok (need (primary_name p) (lookup (primary_name p) m)) _ h0 in
    let (i, first, h2) = >>=-eq-ok (first_of local) _ h1 in
    let (js, entry) =
      first_of-cons (primary_name p) (lookup (primary_name p) m) local i found first in
    subst (λ (r : Option String × List StorageNode). IsBooted names p m r.1) (ok-injective h2)
      (record {
        two_metas = need_two-enough few_metas m names two;
        position = i;
        others = js;
        in_primary_center = entry;
        unmarked = nodes;
        marked = refl;
        no_other = z;
        one_primary = make_primary-primaries i nodes (b (primary_name p) (i ∷ js) entry).0 z;
      })

boot_meta-ports :
    (firstboot : Bool) (names : List String) (p : Option DataCenter) (m : Dict (List ℕ))
    (given seeds : Option String) (nodes nodes' : List StorageNode)
    → boot_meta firstboot names p m given nodes ≡ ok (seeds, nodes')
    → placed_nodes_ports "rbr" nodes' ≡ placed_nodes_ports "rbr" nodes
unfolding boot_meta
boot_meta-ports false names p m given seeds nodes nodes' h =
    subst
      (λ (r : Option String × List StorageNode).
        placed_nodes_ports "rbr" r.1 ≡ placed_nodes_ports "rbr" nodes)
      (ok-injective h) refl
boot_meta-ports true names p m given seeds nodes nodes' h =
    let (_, two, h0) = >>=-eq-ok (need_two few_metas m names) _ h in
    let (local, found, h1) = >>=-eq-ok (need (primary_name p) (lookup (primary_name p) m)) _ h0 in
    let (i, first, h2) = >>=-eq-ok (first_of local) _ h1 in
    subst
      (λ (r : Option String × List StorageNode).
        placed_nodes_ports "rbr" r.1 ≡ placed_nodes_ports "rbr" nodes)
      (ok-injective h2) (make_primary-ports i nodes)

-- The metadata shard behind the validation: what it claimed, and that a bootstrap set it up.
pub record MetaValid (firstboot : Bool) (names : List String) (p : Option DataCenter) (s s' : Site)
    (m : Dict (List ℕ)) (nodes : List StorageNode) : Type 0 where
  pub claimed : PortsClaimed s.ports (placed_nodes_ports "rbr" nodes) s'.ports
  pub booted : firstboot ≡ true → IsBooted names p m nodes

pub validate_meta-MetaValid :
    (args : Args) (firstboot : Bool) (c : Centers) (p : Option DataCenter) (s s' : Site)
    (meta meta' : MetaShard) (m : Dict (List ℕ))
    → validate_meta args firstboot c p s meta ≡ ok (s', m, meta')
    → MetaValid firstboot c.names p s s' m meta'.nodes
unfolding validate_meta lookup
validate_meta-MetaValid args firstboot c p s s' meta meta' m h =
    let (_, mode, h0) = >>=-eq-ok (check_meta_mode meta.ha_mode) _ h in
    let (_, some_nodes, h1) =
      >>=-eq-ok (raise_if (eqb (length meta.nodes) 0 && not (is_some meta.group_seeds)) _) _ h0 in
    let ((s1, m1, nodes), placed, h2) =
      >>=-eq-ok (place_meta_nodes args c.dc_of 0 [] s meta.nodes) _ h1 in
    let ((seeds, booted), boot, h3) =
      >>=-eq-ok (boot_meta firstboot c.names p m1 meta.group_seeds nodes) _ h2 in
    let q = place_meta_nodes-Placed args c.dc_of 0 [] m1 s s1 meta.nodes nodes placed in
    let b =
      place_meta_nodes-Below args c.dc_of 0 [] m1 s s1 meta.nodes nodes (λ key is e. cc) placed in
    let b1 = Below-weaken _ (length nodes) m1 (omega (arith, q.same_length)) b in
    subst
      (λ (r : Site × Dict (List ℕ) × MetaShard). MetaValid firstboot c.names p s r.0 r.1 r.2.nodes)
      (ok-injective h3)
      (record {
        claimed =
            rw (boot_meta-ports firstboot c.names p m1 meta.group_seeds seeds nodes booted boot)
              q.claimed;
        booted = λ yes.
            boot_meta-IsBooted c.names p m1 meta.group_seeds seeds nodes booted b1 q.no_primary (
              subst (λ fb. boot_meta fb c.names p m1 meta.group_seeds nodes ≡ ok (seeds, booted))
                yes boot);
      })
