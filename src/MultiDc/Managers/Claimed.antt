-- ===== src/MultiDc/Managers/Claimed.antt =====
-- What the managers of the data centers claim, and what a bootstrap makes sure of.
use cloudnative.ListMaps.{add_to_list_map}
use cloudnative.Base.{
  String, Bool, false, List, [], ◌∷◌, All, Dict, contains, has_key, string_eq, nat_eq, Error, ok,
  raise_if, raise_if-false, >>=-eq-ok, ok-injective, ◌≡◌, refl, subst, arith,
}
use cloudnative.Config.{Args, ClusterMgrNode}
use cloudnative.Machines.{Machines}
use cloudnative.Claims.{PortMap}
use cloudnative.Claims.Distinct.{claim_all}
use cloudnative.NodeMgr.{NodeMgrItem, curports, resolve_nodemgr}
use cloudnative.Allocate.Claimed.{PortsClaimed, PortsClaimed-append}
use cloudnative.OneDc.Validate.{claim_clustermgr}
use cloudnative.OneDc.Validate.Claimed.{
  mgrs_ports, claim_clustermgr-claim, item_ports, items_ports, resolve_nodemgr-claim,
}
use cloudnative.MultiDc.Managers.{
  Centers, given_center, know_center, check_nodemgr, check_nodemgrs, clustermgr_center,
  check_clustermgrs, too_few, need_two,
}

know_center-ports :
    (firstboot : Bool) (c d : Centers) (dc : String)
    → know_center firstboot c dc ≡ ok d
    → d.ports ≡ c.ports
unfolding know_center
know_center-ports firstboot c d dc h = ground arith

check_nodemgr-claim :
    (args : Args) (machines : Machines) (firstboot : Bool) (c d : Centers) (item : NodeMgrItem)
    → check_nodemgr args machines firstboot c item ≡ ok d
    → PortsClaimed c.ports (item_ports args item) d.ports
unfolding check_nodemgr
check_nodemgr-claim args machines firstboot c d item h =
    let (_, fresh, h0) = >>=-eq-ok (raise_if (has_key item.ip c.nodemgrs) _) _ h in
    let (dc, given, h1) = >>=-eq-ok (given_center item) _ h0 in
    let (c1, known, h2) = >>=-eq-ok (know_center firstboot c dc) _ h1 in
    let ((a, b), parsed, h3) = >>=-eq-ok (curports args item) _ h2 in
    let ((p, n), resolved, h4) = >>=-eq-ok (resolve_nodemgr args machines c1.ports item a b) _ h3 in
    subst (λ (r : Centers). PortsClaimed c.ports (item_ports args item) r.ports) (ok-injective h4)
      (subst (λ q. PortsClaimed q (item_ports args item) p)
        (know_center-ports firstboot c c1 dc known)
        (resolve_nodemgr-claim args machines c1.ports p item a b n resolved))

pub check_nodemgrs-claim :
    (args : Args) (machines : Machines) (firstboot : Bool) (c d : Centers)
    (items : List NodeMgrItem)
    → check_nodemgrs args machines firstboot c items ≡ ok d
    → PortsClaimed c.ports (items_ports args items) d.ports
unfolding check_nodemgrs
check_nodemgrs-claim args machines firstboot c d [] h =
    subst (λ (r : Centers). PortsClaimed c.ports [] r.ports) (ok-injective h)
      (unfold claim_all in refl)
check_nodemgrs-claim args machines firstboot c d (i ∷ is) h =
    let (c1, first, others) = >>=-eq-ok (check_nodemgr args machines firstboot c i) _ h in
    PortsClaimed-append c.ports c1.ports d.ports _ _
      (check_nodemgr-claim args machines firstboot c c1 i first)
      (check_nodemgrs-claim args machines firstboot c1 d is others)

pub check_clustermgrs-claim :
    (args : Args) (c : Centers) (p q : PortMap) (ips : List String) (m m' : Dict (List String))
    (ns ns' : List ClusterMgrNode)
    → check_clustermgrs args c p ips m ns ≡ ok (q, m', ns')
    → PortsClaimed p (mgrs_ports ns') q
unfolding check_clustermgrs
check_clustermgrs-claim args c p q ips m m' [] ns' h =
    subst
      (λ (r : PortMap × Dict (List String) × List ClusterMgrNode).
        PortsClaimed p (mgrs_ports r.2) r.0)
      (ok-injective h) (unfold claim_all in refl)
check_clustermgrs-claim args c p q ips m m' (n ∷ ns) ns' h =
    let (_, fresh, h0) = >>=-eq-ok (raise_if (contains n.ip ips) _) _ h in
    let (dc, found, h1) = >>=-eq-ok (clustermgr_center c n) _ h0 in
    let ((p1, n'), first, h2) = >>=-eq-ok (claim_clustermgr args p n) _ h1 in
    let ((p2, m2, ns2), others, h3) =
      >>=-eq-ok (check_clustermgrs args c p1 (n.ip ∷ ips) (add_to_list_map m dc n.ip) ns) _ h2 in
    subst
      (λ (r : PortMap × Dict (List String) × List ClusterMgrNode).
        PortsClaimed p (mgrs_ports r.2) r.0)
      (ok-injective h3)
      (PortsClaimed-append p p1 p2 _ _ (claim_clustermgr-claim args p p1 n n' first) (
        check_clustermgrs-claim args c p1 p2 (n.ip ∷ ips) (add_to_list_map m dc n.ip) m2 ns ns2
          others))

-- Where the loop for two nodes in each data center raises nothing, each has them.
pub need_two-enough {ℓ} :
    {V : Type ℓ} (few : String → Error) (m : Dict (List V)) (dcs : List String)
    → need_two few m dcs ≡ ok tt
    → All (λ dc. too_few m dc ≡ false) dcs
unfolding need_two
need_two-enough few m [] h = tt
need_two-enough few m (dc ∷ dcs) h =
    let (_, first, others) = >>=-eq-ok (raise_if (too_few m dc) (few dc)) _ h in
    (raise_if-false (too_few m dc) (few dc) first, need_two-enough few m dcs others)
