-- ===== src/MultiDc/Located/Metas.antt =====
-- The metadata nodes of each data center: what `place_meta_nodes` gathers.
use cloudnative.Base.{
  String, ℕ, zero, suc, ◌+◌, eqb, ◌&&◌, Bool, true, false, is_some, length, map, ap, refl, Option,
  some, List, [], ◌∷◌, ◌++◌, Dict, lookup, has_key, need, not, ok, raise_if, >>=-eq-ok,
  ok-injective, ◌≡◌, sym, subst, ◌∙◌, arith, if◌then◌else◌,
}
use mathlib.Core.List.{append-nil}
use cloudnative.Config.{Args, StorageNode, MetaShard}
use cloudnative.Allocate.{Site, place_storage_node}
use cloudnative.OneDc.Validate.{forbid_paths}
use cloudnative.Allocate.Claimed.{place_storage_node-ip}
use cloudnative.ListMaps.{add_to_list_map}
use cloudnative.NodeMgr.{NodeMgrItem}
use cloudnative.MultiDc.{DataCenter}
use cloudnative.MultiDc.Managers.{Centers, need_two}
use cloudnative.MultiDc.Meta.{
  place_meta_node, place_meta_nodes, make_primary, boot_meta, first_of, few_metas, primary_name,
  check_meta_mode, validate_meta,
}
use cloudnative.MultiDc.Located.{host_center, is_in, entry, entry-step}

-- The positions of the metadata nodes on hosts in a data center, counted from `i`.
unfoldable pub positions_in : List NodeMgrItem → String → ℕ → List StorageNode → List ℕ
positions_in items dc i [] = []
positions_in items dc i (n ∷ ns) =
    let rest = positions_in items dc (i + 1) ns in
    if is_in dc (host_center items n.ip) then i ∷ rest else rest

need-some : (key : String) (o : Option String) (dc : String) → need key o ≡ ok dc → o ≡ some dc
need-some key o dc h = ground arith

forbid_paths-same : (n m : StorageNode) → forbid_paths n ≡ ok m → m ≡ n
unfolding forbid_paths
forbid_paths-same n m h = ground arith

place_meta_node-center :
    (args : Args) (dc_of : Dict String) (s s' : Site) (dc : String) (n n' : StorageNode)
    → place_meta_node args dc_of s n ≡ ok (s', dc, n')
    → (lookup n.ip dc_of ≡ some dc) × (n'.ip ≡ n.ip)
unfolding place_meta_node
place_meta_node-center args dc_of s s' dc n n' h =
    let (prepared, checked, h0) = >>=-eq-ok (forbid_paths n) _ h in
    let (_, managed, h1) = >>=-eq-ok (raise_if (not (has_key n.ip s.nodemgrs)) _) _ h0 in
    let (center, found, h2) = >>=-eq-ok (need n.ip (lookup n.ip dc_of)) _ h1 in
    let ((s1, n1), placed, h3) =
      >>=-eq-ok (place_storage_node args s "rbr" "128MB" prepared) _ h2 in
    subst (λ (r : Site × String × StorageNode). (lookup n.ip dc_of ≡ some r.1) × (r.2.ip ≡ n.ip))
      (ok-injective h3)
      (
        need-some n.ip (lookup n.ip dc_of) center found,
        place_storage_node-ip args s s1 "rbr" "128MB" prepared n1 placed
            ∙ ap (λ (m : StorageNode). m.ip) (forbid_paths-same n prepared checked),
      )

-- Each data center has the positions that it had, and those of the nodes in it.
pub place_meta_nodes-positions_in :
    (args : Args) (items : List NodeMgrItem) (dc_of : Dict String) (i : ℕ) (m m' : Dict (List ℕ))
    (s s' : Site) (ns ns' : List StorageNode)
    → ((ip : String) → lookup ip dc_of ≡ host_center items ip)
    → place_meta_nodes args dc_of i m s ns ≡ ok (s', m', ns')
    → (k : String) → entry m' k ≡ entry m k ++ positions_in items k i ns
unfolding place_meta_nodes positions_in
place_meta_nodes-positions_in args items dc_of i m m' s s' [] ns' at h k =
    subst (λ (r : Site × Dict (List ℕ) × List StorageNode). entry r.1 k ≡ entry m k ++ [])
      (ok-injective h) (sym (append-nil (entry m k)))
place_meta_nodes-positions_in args items dc_of i m m' s s' (n ∷ ns) ns' at h k =
    let ((s1, dc, n'), first, h1) = >>=-eq-ok (place_meta_node args dc_of s n) _ h in
    let ((s2, m2, ns2), others, h2) =
      >>=-eq-ok (place_meta_nodes args dc_of (i + 1) (add_to_list_map m dc i) s1 ns) _ h1 in
    let rest =
      place_meta_nodes-positions_in args items dc_of (i + 1) (add_to_list_map m dc i) m2 s1 s2 ns
        ns2 at others k in
    let place = sym (at n.ip) ∙ (place_meta_node-center args dc_of s s1 dc n n' first).0 in
    subst
      (λ (r : Site × Dict (List ℕ) × List StorageNode).
        entry r.1 k ≡ entry m k ++ positions_in items k i (n ∷ ns))
      (ok-injective h2) (rest ∙ entry-step m _ dc k i (positions_in items k (i + 1) ns) place)

abbrev pub node_hosts : List StorageNode → List String
node_hosts = map (λ (n : StorageNode). n.ip)

-- The nodes stay on their hosts, in their order.
place_meta_nodes-hosts :
    (args : Args) (dc_of : Dict String) (i : ℕ) (m m' : Dict (List ℕ)) (s s' : Site)
    (ns ns' : List StorageNode)
    → place_meta_nodes args dc_of i m s ns ≡ ok (s', m', ns')
    → node_hosts ns' ≡ node_hosts ns
unfolding place_meta_nodes
place_meta_nodes-hosts args dc_of i m m' s s' [] ns' h =
    subst (λ (r : Site × Dict (List ℕ) × List StorageNode). node_hosts r.2 ≡ []) (ok-injective h)
      refl
place_meta_nodes-hosts args dc_of i m m' s s' (n ∷ ns) ns' h =
    let ((s1, dc, n'), first, h1) = >>=-eq-ok (place_meta_node args dc_of s n) _ h in
    let ((s2, m2, ns2), others, h2) =
      >>=-eq-ok (place_meta_nodes args dc_of (i + 1) (add_to_list_map m dc i) s1 ns) _ h1 in
    let rest =
      place_meta_nodes-hosts args dc_of (i + 1) (add_to_list_map m dc i) m2 s1 s2 ns ns2 others in
    subst (λ (r : Site × Dict (List ℕ) × List StorageNode). node_hosts r.2 ≡ node_hosts (n ∷ ns))
      (ok-injective h2) (rw ((place_meta_node-center args dc_of s s1 dc n n' first).1, rest) refl)

make_primary-hosts :
    (i : ℕ) (ns : List StorageNode) → node_hosts (make_primary i ns) ≡ node_hosts ns
unfolding make_primary
make_primary-hosts i [] = refl
make_primary-hosts zero (n ∷ ns) = refl
make_primary-hosts (suc i) (n ∷ ns) = rw (make_primary-hosts i ns) refl

boot_meta-hosts :
    (firstboot : Bool) (names : List String) (p : Option DataCenter) (m : Dict (List ℕ))
    (given seeds : Option String) (nodes nodes' : List StorageNode)
    → boot_meta firstboot names p m given nodes ≡ ok (seeds, nodes')
    → node_hosts nodes' ≡ node_hosts nodes
unfolding boot_meta
boot_meta-hosts false names p m given seeds nodes nodes' h =
    subst (λ (r : Option String × List StorageNode). node_hosts r.1 ≡ node_hosts nodes)
      (ok-injective h) refl
boot_meta-hosts true names p m given seeds nodes nodes' h =
    let (_, two, h0) = >>=-eq-ok (need_two few_metas m names) _ h in
    let (local, found, h1) = >>=-eq-ok (need (primary_name p) (lookup (primary_name p) m)) _ h0 in
    let (i, first, h2) = >>=-eq-ok (first_of local) _ h1 in
    subst (λ (r : Option String × List StorageNode). node_hosts r.1 ≡ node_hosts nodes)
      (ok-injective h2) (make_primary-hosts i nodes)

-- What is gathered of the metadata nodes: their positions, by data center, and their hosts.
pub record MetasGathered (items : List NodeMgrItem) (given nodes : List StorageNode)
    (m : Dict (List ℕ)) : Type 0 where
  pub positions : (k : String) → entry m k ≡ positions_in items k 0 given
  pub hosts : node_hosts nodes ≡ node_hosts given

pub validate_meta-MetasGathered :
    (args : Args) (items : List NodeMgrItem) (firstboot : Bool) (c : Centers)
    (p : Option DataCenter) (s s' : Site) (meta meta' : MetaShard) (m : Dict (List ℕ))
    → ((ip : String) → lookup ip c.dc_of ≡ host_center items ip)
    → validate_meta args firstboot c p s meta ≡ ok (s', m, meta')
    → MetasGathered items meta.nodes meta'.nodes m
unfolding validate_meta lookup
validate_meta-MetasGathered args items firstboot c p s s' meta meta' m at h =
    let (_, mode, h0) = >>=-eq-ok (check_meta_mode meta.ha_mode) _ h in
    let (_, some_nodes, h1) =
      >>=-eq-ok (raise_if (eqb (length meta.nodes) 0 && not (is_some meta.group_seeds)) _) _ h0 in
    let ((s1, m1, nodes), placed, h2) =
      >>=-eq-ok (place_meta_nodes args c.dc_of 0 [] s meta.nodes) _ h1 in
    let ((seeds, booted), boot, h3) =
      >>=-eq-ok (boot_meta firstboot c.names p m1 meta.group_seeds nodes) _ h2 in
    subst (λ (r : Site × Dict (List ℕ) × MetaShard). MetasGathered items meta.nodes r.2.nodes r.1)
      (ok-injective h3)
      (record {
        positions = λ k.
            place_meta_nodes-positions_in args items c.dc_of 0 [] m1 s s1 meta.nodes nodes at placed
              k;
        hosts =
            boot_meta-hosts firstboot c.names p m1 meta.group_seeds seeds nodes booted boot
            ∙ place_meta_nodes-hosts args c.dc_of 0 [] m1 s s1 meta.nodes nodes placed;
      })
