-- ===== src/MultiDc/Located/Managers.antt =====
-- The cluster managers of each data center: what `check_clustermgrs` gathers.
use cloudnative.Base.{
  String, eq_iff, false, some, List, [], ◌∷◌, ◌++◌, All, All-map, map, Dict, lookup, contains,
  string_eq, ok, raise_if, raise_if-false, >>=-eq-ok, ok-injective, ◌≡◌, ◌≢◌, refl, sym, subst, ap,
  ◌∙◌, arith, if◌then◌else◌,
}
use mathlib.Core.List.{append-nil}
use cloudnative.Config.{Args, ClusterMgrNode}
use cloudnative.Claims.{add_port_to_machine, PortMap}
use cloudnative.Claims.Distinct.{Distinct}
use cloudnative.ListMaps.{add_to_list_map}
use cloudnative.NodeMgr.{NodeMgrItem}
use cloudnative.OneDc.Validate.{claim_clustermgr}
use cloudnative.MultiDc.Managers.{Centers, clustermgr_center, check_clustermgrs}
use cloudnative.MultiDc.Located.{host_center, or_else, is_in, entry, entry-step}

abbrev pub mgr_hosts : List ClusterMgrNode → List String
mgr_hosts = map (λ (n : ClusterMgrNode). n.ip)

-- The addresses of the cluster managers in a data center: theirs, or that of the node manager on
-- their host.
unfoldable pub addresses_in : List NodeMgrItem → String → List ClusterMgrNode → List String
addresses_in items dc [] = []
addresses_in items dc (n ∷ ns) =
    let rest = addresses_in items dc ns in
    if is_in dc (or_else n.dc (host_center items n.ip)) then n.ip ∷ rest else rest

clustermgr_center-found :
    (c : Centers) (n : ClusterMgrNode) (dc : String)
    → clustermgr_center c n ≡ ok dc
    → or_else n.dc (lookup n.ip c.dc_of) ≡ some dc
unfolding clustermgr_center
clustermgr_center-found c n dc h = ground arith

-- Each data center has the addresses that it had, and those of the managers in it.
pub check_clustermgrs-addresses_in :
    (args : Args) (items : List NodeMgrItem) (c : Centers) (p q : PortMap) (ips : List String)
    (m m' : Dict (List String)) (ns ns' : List ClusterMgrNode)
    → ((ip : String) → lookup ip c.dc_of ≡ host_center items ip)
    → check_clustermgrs args c p ips m ns ≡ ok (q, m', ns')
    → (k : String) → entry m' k ≡ entry m k ++ addresses_in items k ns
unfolding check_clustermgrs addresses_in
check_clustermgrs-addresses_in args items c p q ips m m' [] ns' at h k =
    subst
      (λ (r : PortMap × Dict (List String) × List ClusterMgrNode). entry r.1 k ≡ entry m k ++ [])
      (ok-injective h) (sym (append-nil (entry m k)))
check_clustermgrs-addresses_in args items c p q ips m m' (n ∷ ns) ns' at h k =
    let (_, fresh, h0) = >>=-eq-ok (raise_if (contains n.ip ips) _) _ h in
    let (dc, found, h1) = >>=-eq-ok (clustermgr_center c n) _ h0 in
    let ((p1, n'), first, h2) = >>=-eq-ok (claim_clustermgr args p n) _ h1 in
    let ((p2, m2, ns2), others, h3) =
      >>=-eq-ok (check_clustermgrs args c p1 (n.ip ∷ ips) (add_to_list_map m dc n.ip) ns) _ h2 in
    let rest =
      check_clustermgrs-addresses_in args items c p1 p2 (n.ip ∷ ips) (add_to_list_map m dc n.ip) m2
        ns ns2 at others k in
    let place : or_else n.dc (host_center items n.ip) ≡ some dc =
      ap (or_else n.dc) (sym (at n.ip)) ∙ clustermgr_center-found c n dc found in
    subst
      (λ (r : PortMap × Dict (List String) × List ClusterMgrNode).
        entry r.1 k ≡ entry m k ++ addresses_in items k (n ∷ ns))
      (ok-injective h3) (rest ∙ entry-step m _ dc k n.ip (addresses_in items k ns) place)

-- A value that is not in a list is none of it.
contains-cons :
    (a x : String) (xs : List String)
    → contains a (x ∷ xs) ≡ false
    → (a ≢ x) × (contains a xs ≡ false)
unfolding contains
contains-cons a x xs h = ground (arith, eq_iff x a)

-- The managers of an accepted list are on hosts that are different, and new.
pub check_clustermgrs-Distinct :
    (args : Args) (c : Centers) (p q : PortMap) (ips : List String) (m m' : Dict (List String))
    (ns ns' : List ClusterMgrNode)
    → check_clustermgrs args c p ips m ns ≡ ok (q, m', ns')
    → All (λ a. contains a ips ≡ false) (mgr_hosts ns) × Distinct (mgr_hosts ns)
unfolding check_clustermgrs
check_clustermgrs-Distinct args c p q ips m m' [] ns' h = (tt, tt)
check_clustermgrs-Distinct args c p q ips m m' (n ∷ ns) ns' h =
    let (_, fresh, h0) = >>=-eq-ok (raise_if (contains n.ip ips) _) _ h in
    let (dc, found, h1) = >>=-eq-ok (clustermgr_center c n) _ h0 in
    let ((p1, n'), first, h2) = >>=-eq-ok (claim_clustermgr args p n) _ h1 in
    let ((p2, m2, ns2), others, h3) =
      >>=-eq-ok (check_clustermgrs args c p1 (n.ip ∷ ips) (add_to_list_map m dc n.ip) ns) _ h2 in
    let (new, distinct) =
      check_clustermgrs-Distinct args c p1 p2 (n.ip ∷ ips) (add_to_list_map m dc n.ip) m2 ns ns2
        others in
    let hosts = mgr_hosts ns in
    (
      (
        raise_if-false (contains n.ip ips) _ fresh,
        All-map _ _ hosts (λ a e. (contains-cons a n.ip ips e).1) new,
      ),
      (All-map _ _ hosts (λ a e. (contains-cons a n.ip ips e).0) new, distinct),
    )

claim_clustermgr-ip :
    (args : Args) (p q : PortMap) (n n' : ClusterMgrNode)
    → claim_clustermgr args p n ≡ ok (q, n')
    → n'.ip ≡ n.ip
unfolding claim_clustermgr
claim_clustermgr-ip args p q n n' h =
    let (p1, a, h1) = >>=-eq-ok (add_port_to_machine p n.ip _) _ h in
    let (p2, b, h2) = >>=-eq-ok (add_port_to_machine p1 n.ip _) _ h1 in
    let (p3, c, h3) = >>=-eq-ok (add_port_to_machine p2 n.ip _) _ h2 in
    subst (λ (r : PortMap × ClusterMgrNode). r.1.ip ≡ n.ip) (ok-injective h3) refl

-- The managers stay on their hosts, in their order.
pub check_clustermgrs-hosts :
    (args : Args) (c : Centers) (p q : PortMap) (ips : List String) (m m' : Dict (List String))
    (ns ns' : List ClusterMgrNode)
    → check_clustermgrs args c p ips m ns ≡ ok (q, m', ns')
    → mgr_hosts ns' ≡ mgr_hosts ns
unfolding check_clustermgrs
check_clustermgrs-hosts args c p q ips m m' [] ns' h =
    subst (λ (r : PortMap × Dict (List String) × List ClusterMgrNode). mgr_hosts r.2 ≡ [])
      (ok-injective h) refl
check_clustermgrs-hosts args c p q ips m m' (n ∷ ns) ns' h =
    let (_, fresh, h0) = >>=-eq-ok (raise_if (contains n.ip ips) _) _ h in
    let (dc, found, h1) = >>=-eq-ok (clustermgr_center c n) _ h0 in
    let ((p1, n'), first, h2) = >>=-eq-ok (claim_clustermgr args p n) _ h1 in
    let ((p2, m2, ns2), others, h3) =
      >>=-eq-ok (check_clustermgrs args c p1 (n.ip ∷ ips) (add_to_list_map m dc n.ip) ns) _ h2 in
    let rest =
      check_clustermgrs-hosts args c p1 p2 (n.ip ∷ ips) (add_to_list_map m dc n.ip) m2 ns ns2
        others in
    subst
      (λ (r : PortMap × Dict (List String) × List ClusterMgrNode).
        mgr_hosts r.2 ≡ mgr_hosts (n ∷ ns))
      (ok-injective h3) (rw (claim_clustermgr-ip args p p1 n n' first, rest) refl)
