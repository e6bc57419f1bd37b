-- ===== src/Allocate/Claimed.antt =====
-- What placing nodes claims, and how many primaries it leaves.
use mathlib.Core.Path.{subst⁻¹}
use cloudnative.OneKey.Shards.Primary.{bit, primaries, check_primary-bit}
use cloudnative.Base.{
  Result, ◌+◌, true, false, refl, suc, length, Bool, List, Error, Option, ◌∙◌, ok-injective, subst,
  ◌<◌, >>=-eq-ok, String, ◌==◌, ℕ, [], ◌∷◌, ◌++◌, ok, if◌then◌else◌, ◌≡◌, arith, duplicate_port,
  nat_eq,
}
use cloudnative.Config.{StorageNode}
use cloudnative.Claims.{PortMap, add_port_to_machine}
use cloudnative.Claims.Distinct.{claim_all, claim_all-append}
use cloudnative.NodeMgr.{NodeMgr}
use cloudnative.OneKey.Shards.Claimed.{optional_claim}
use cloudnative.Allocate.{
  check_primary, nodemgr_for, set_haspg, Error, Bool, Args, place_comp, some, place_comps,
  place_storage_nodes, CompNode, elect_first, set_server_using_nodemgr, place_storage_node, Site,
  assign_port, assign_mgr_ports, set_storage_using_nodemgr,
}

-- The ports that a storage node claims under a mode.
abbrev pub placed_ports : String → StorageNode → List (String × ℕ)
placed_ports mode n =
    optional_claim n.ip n.port
    ++ (if mode == "mgr" then optional_claim n.ip n.xport ++ optional_claim n.ip n.mgr_port else [])

abbrev pub placed_nodes_ports : String → List StorageNode → List (String × ℕ)
placed_nodes_ports mode [] = []
placed_nodes_ports mode (n ∷ ns) = placed_ports mode n ++ placed_nodes_ports mode ns

-- Going from `p` to `q` claimed just these ports, in this order.
abbrev pub PortsClaimed : PortMap → List (String × ℕ) → PortMap → Type 0
PortsClaimed p cs q = claim_all duplicate_port p cs ≡ ok q

pub PortsClaimed-append :
    (p q r : PortMap) (cs ds : List (String × ℕ))
    → PortsClaimed p cs q
    → PortsClaimed q ds r
    → PortsClaimed p (cs ++ ds) r
PortsClaimed-append p q r cs ds c d = rw (claim_all-append, c) d

assign_port-claim :
    (p q : PortMap) (n n' : NodeMgr) (ip kind : String) (incr port : ℕ) (given : Option ℕ)
    → assign_port p n ip kind incr given ≡ ok (q, n', port)
    → PortsClaimed p ((ip, port) ∷ []) q
unfolding assign_port claim_all add_port_to_machine
assign_port-claim p q n n' ip kind incr port given h = ground arith

set_storage-keeps :
    (site : Site) (node node' : StorageNode) (n : NodeMgr) (buf : String)
    → set_storage_using_nodemgr site.machines node n buf ≡ ok node'
    → (node'.ip ≡ node.ip) × (node'.port ≡ node.port)
unfolding set_storage_using_nodemgr
set_storage-keeps site node node' n buf h = (ground arith, ground arith)

assign_mgr_ports-claim :
    (p q : PortMap) (n n' : NodeMgr) (mode : String) (node node' : StorageNode)
    → assign_mgr_ports p n mode node ≡ ok (q, n', node')
    → PortsClaimed p
        (if mode == "mgr"
          then optional_claim node'.ip node'.xport ++ optional_claim node'.ip node'.mgr_port
          else [])
        q
      × (node'.ip ≡ node.ip)
      × (node'.port ≡ node.port)
unfolding assign_mgr_ports claim_all add_port_to_machine
assign_mgr_ports-claim p q n n' mode node node' h = (ground arith, ground arith, ground arith)

-- The first port of a placed node and its further ones, together.
placed-join :
    (p q r : PortMap) (mode : String) (n : StorageNode) (ip : String) (port : ℕ)
    → PortsClaimed p ((ip, port) ∷ []) q
    → PortsClaimed q
        (if mode == "mgr"
          then optional_claim n.ip n.xport ++ optional_claim n.ip n.mgr_port
          else [])
        r
    → n.ip ≡ ip
    → n.port ≡ some port
    → PortsClaimed p (placed_ports mode n) r
placed-join p q r mode n ip port c d i e =
    let own : optional_claim n.ip n.port ≡ (ip, port) ∷ [] = ground arith in
    PortsClaimed-append p q r (optional_claim n.ip n.port) _ (rw own c) d

pub place_storage_node-claim :
    (args : Args) (s s' : Site) (mode buf : String) (node node' : StorageNode)
    → place_storage_node args s mode buf node ≡ ok (s', node')
    → PortsClaimed s.ports (placed_ports mode node') s'.ports
unfolding place_storage_node
place_storage_node-claim args s s' mode buf node node' h =
    let (n, found, h1) = >>=-eq-ok (nodemgr_for args s node.ip "storage") _ h in
    let ((p1, n1, port), assigned, h2) =
      >>=-eq-ok (assign_port s.ports n node.ip "storage" 2 node.port) _ h1 in
    let (node1, stored, h3) =
      >>=-eq-ok (set_storage_using_nodemgr s.machines (record node { port = some port }) n1 buf) _
        h2 in
    let ((p2, n2, node2), mgr, h4) = >>=-eq-ok (assign_mgr_ports p1 n1 mode node1) _ h3 in
    let kept = set_storage-keeps s (record node { port = some port }) node1 n1 buf stored in
    let (claimed, same_ip, same_port) = assign_mgr_ports-claim p1 p2 n1 n2 mode node1 node2 mgr in
    subst (λ (r : Site × StorageNode). PortsClaimed s.ports (placed_ports mode r.1) r.0.ports)
      (ok-injective h4)
      (placed-join s.ports p1 p2 mode node2 node.ip port
        (assign_port-claim s.ports p1 n n1 node.ip "storage" 2 port node.port assigned) claimed
        (same_ip ∙ kept.0) (same_port ∙ kept.1))

-- A placed node stays on its host.
pub place_storage_node-ip :
    (args : Args) (s s' : Site) (mode buf : String) (node node' : StorageNode)
    → place_storage_node args s mode buf node ≡ ok (s', node')
    → node'.ip ≡ node.ip
unfolding place_storage_node
place_storage_node-ip args s s' mode buf node node' h =
    let (n, found, h1) = >>=-eq-ok (nodemgr_for args s node.ip "storage") _ h in
    let ((p1, n1, port), assigned, h2) =
      >>=-eq-ok (assign_port s.ports n node.ip "storage" 2 node.port) _ h1 in
    let (node1, stored, h3) =
      >>=-eq-ok (set_storage_using_nodemgr s.machines (record node { port = some port }) n1 buf) _
        h2 in
    let ((p2, n2, node2), mgr, h4) = >>=-eq-ok (assign_mgr_ports p1 n1 mode node1) _ h3 in
    subst (λ (r : Site × StorageNode). r.1.ip ≡ node.ip) (ok-injective h4)
      ((assign_mgr_ports-claim p1 p2 n1 n2 mode node1 node2 mgr).1
        ∙ (set_storage-keeps s (record node { port = some port }) node1 n1 buf stored).0)

pub place_storage_nodes-claim :
    (prepare : StorageNode → Result StorageNode) (args : Args) (s s' : Site) (mode buf : String)
    (two : Error) (has has' : Bool) (nodes nodes' : List StorageNode)
    → place_storage_nodes prepare args s mode buf two has nodes ≡ ok (s', has', nodes')
    → PortsClaimed s.ports (placed_nodes_ports mode nodes') s'.ports
unfolding place_storage_nodes
place_storage_nodes-claim prepare args s s' mode buf two has has' [] nodes' h =
    subst
      (λ (r : Site × Bool × List StorageNode).
        PortsClaimed s.ports (placed_nodes_ports mode r.2) r.0.ports)
      (ok-injective h) (unfold claim_all in refl)
place_storage_nodes-claim prepare args s s' mode buf two has has' (n ∷ ns) nodes' h =
    let (m, prepared, h0) = >>=-eq-ok (prepare n) _ h in
    let ((s1, n'), placed, h1) = >>=-eq-ok (place_storage_node args s mode buf m) _ h0 in
    let (has1, marked, h2) = >>=-eq-ok (check_primary two has n') _ h1 in
    let ((s2, has2, ns'), others, h3) =
      >>=-eq-ok (place_storage_nodes prepare args s1 mode buf two has1 ns) _ h2 in
    subst
      (λ (r : Site × Bool × List StorageNode).
        PortsClaimed s.ports (placed_nodes_ports mode r.2) r.0.ports)
      (ok-injective h3)
      (PortsClaimed-append s.ports s1.ports s2.ports _ _
        (place_storage_node-claim args s s1 mode buf m n' placed)
        (place_storage_nodes-claim prepare args s1 s2 mode buf two has1 has2 ns ns' others))

-- Placing keeps the number of nodes, and the running mark counts the primaries.
pub place_storage_nodes-count :
    (prepare : StorageNode → Result StorageNode) (args : Args) (s s' : Site) (mode buf : String)
    (two : Error) (has has' : Bool) (nodes nodes' : List StorageNode)
    → place_storage_nodes prepare args s mode buf two has nodes ≡ ok (s', has', nodes')
    → (length nodes' ≡ length nodes) × (bit has' ≡ bit has + primaries nodes')
unfolding place_storage_nodes
place_storage_nodes-count prepare args s s' mode buf two has has' [] nodes' h =
    subst
      (λ (r : Site × Bool × List StorageNode).
        (length r.2 ≡ 0) × (bit r.1 ≡ bit has + primaries r.2))
      (ok-injective h) (refl, omega arith)
place_storage_nodes-count prepare args s s' mode buf two has has' (n ∷ ns) nodes' h =
    let (m, prepared, h0) = >>=-eq-ok (prepare n) _ h in
    let ((s1, n'), placed, h1) = >>=-eq-ok (place_storage_node args s mode buf m) _ h0 in
    let (has1, marked, h2) = >>=-eq-ok (check_primary two has n') _ h1 in
    let ((s2, has2, ns'), others, h3) =
      >>=-eq-ok (place_storage_nodes prepare args s1 mode buf two has1 ns) _ h2 in
    let rest = place_storage_nodes-count prepare args s1 s2 mode buf two has1 has2 ns ns' others in
    subst
      (λ (r : Site × Bool × List StorageNode).
        (length r.2 ≡ suc (length ns)) × (bit r.1 ≡ bit has + primaries r.2))
      (ok-injective h3)
      (omega (arith, rest.0), omega (arith, rest.1, check_primary-bit two has has1 n' marked))

-- Electing the first node changes no address and no port.
pub elect_first-ports :
    (mode : String) (has : Bool) (ns : List StorageNode)
    → placed_nodes_ports mode (elect_first has ns) ≡ placed_nodes_ports mode ns
unfolding elect_first
elect_first-ports mode true ns = refl
elect_first-ports mode false [] = refl
elect_first-ports mode false (n ∷ ns) = refl

-- With some node, exactly one is the primary behind the election.
pub elect_first-primaries :
    (has : Bool) (ns : List StorageNode)
    → 0 < length ns
    → bit has ≡ primaries ns
    → primaries (elect_first has ns) ≡ 1
unfolding elect_first
elect_first-primaries true ns l h = omega arith
elect_first-primaries false [] l h = elim l [ ]
elect_first-primaries false (n ∷ ns) l h = omega arith

pub elect_first-length :
    (has : Bool) (ns : List StorageNode) → length (elect_first has ns) ≡ length ns
unfolding elect_first
elect_first-length true ns = refl
elect_first-length false [] = refl
elect_first-length false (n ∷ ns) = refl

abbrev pub placed_comp_ports : CompNode → List (String × ℕ)
placed_comp_ports n = optional_claim n.ip n.port ++ optional_claim n.ip n.mysql_port

abbrev pub placed_comps_ports : List CompNode → List (String × ℕ)
placed_comps_ports [] = []
placed_comps_ports (n ∷ ns) = placed_comp_ports n ++ placed_comps_ports ns

set_server-keeps :
    (node node' : CompNode) (n : NodeMgr)
    → set_server_using_nodemgr node n ≡ ok node'
    → placed_comp_ports node' ≡ placed_comp_ports node
unfolding set_server_using_nodemgr
set_server-keeps node node' n h = ground arith

place_comp-claim :
    (args : Args) (s s' : Site) (node node' : CompNode)
    → place_comp args s node ≡ ok (s', node')
    → PortsClaimed s.ports (placed_comp_ports node') s'.ports
unfolding place_comp
place_comp-claim args s s' node node' h =
    let (ms, marked, h0) = >>=-eq-ok (set_haspg s.machines node.ip) _ h in
    let (n, found, h1) =
      >>=-eq-ok (nodemgr_for args (record s { machines = ms }) node.ip "server") _ h0 in
    let ((p1, n1, port), first, h2) =
      >>=-eq-ok (assign_port s.ports n node.ip "server" 1 node.port) _ h1 in
    let ((p2, n2, mysql), second, h3) =
      >>=-eq-ok (assign_port p1 n1 node.ip "server" 2 node.mysql_port) _ h2 in
    let (node1, stored, h4) =
      >>=-eq-ok
        (set_server_using_nodemgr (record node { port = some port; mysql_port = some mysql }) n2) _
        h3 in
    subst (λ (r : Site × CompNode). PortsClaimed s.ports (placed_comp_ports r.1) r.0.ports)
      (ok-injective h4)
      (subst⁻¹ (λ ps. PortsClaimed s.ports ps p2)
        (set_server-keeps (record node { port = some port; mysql_port = some mysql }) node1 n2
          stored)
        (PortsClaimed-append s.ports p1 p2 _ _
          (assign_port-claim s.ports p1 n n1 node.ip "server" 1 port node.port first)
          (assign_port-claim p1 p2 n1 n2 node.ip "server" 2 mysql node.mysql_port second)))

pub place_comps-claim :
    (args : Args) (s s' : Site) (nodes nodes' : List CompNode)
    → place_comps args s nodes ≡ ok (s', nodes')
    → PortsClaimed s.ports (placed_comps_ports nodes') s'.ports
unfolding place_comps
place_comps-claim args s s' [] nodes' h =
    subst (λ (r : Site × List CompNode). PortsClaimed s.ports (placed_comps_ports r.1) r.0.ports)
      (ok-injective h) (unfold claim_all in refl)
place_comps-claim args s s' (n ∷ ns) nodes' h =
    let ((s1, n'), placed, h1) = >>=-eq-ok (place_comp args s n) _ h in
    let ((s2, ns'), others, h2) = >>=-eq-ok (place_comps args s1 ns) _ h1 in
    subst (λ (r : Site × List CompNode). PortsClaimed s.ports (placed_comps_ports r.1) r.0.ports)
      (ok-injective h2)
      (PortsClaimed-append s.ports s1.ports s2.ports _ _ (place_comp-claim args s s1 n n' placed)
        (place_comps-claim args s1 s2 ns ns' others))
