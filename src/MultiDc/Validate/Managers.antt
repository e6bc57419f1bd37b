-- ===== src/MultiDc/Validate/Managers.antt =====
-- The managers behind the first half of `validate_and_set_config3`.
use cloudnative.Base.{
  lookup, contains, raise_if, ◌∙◌, string_eq, String, true, false, Option, List, [], ◌∷◌, ◌++◌, All,
  Dict, map, ok, >>=-eq-ok, ok-injective, ◌≡◌, refl, subst, nat_eq,
}
use cloudnative.Config.{Args, ClusterMgrNode}
use cloudnative.Machines.{Machines}
use cloudnative.Claims.{PortMap}
use cloudnative.Claims.Distinct.{Distinct}
use cloudnative.Allocate.Claimed.{PortsClaimed, PortsClaimed-append}
use cloudnative.OneDc.Validate.Claimed.{mgrs_ports, items_ports}
use cloudnative.MultiDc.{DataCenter, MultiDcConfig}
use cloudnative.MultiDc.Centers.{note_primary, center_defaults, check_centers, split_centers}
use cloudnative.MultiDc.Managers.{
  Centers, too_few, check_nodemgrs, forbid_skipped, check_clustermgrs,
}
use cloudnative.MultiDc.Managers.Claimed.{check_nodemgrs-claim, check_clustermgrs-claim}
use cloudnative.MultiDc.Located.NodeMgrs.{check_nodemgrs-host_center, check_nodemgrs-names}
use cloudnative.MultiDc.Located.{host_center, entry}
use cloudnative.MultiDc.Located.Managers.{
  mgr_hosts, addresses_in, check_clustermgrs-addresses_in, check_clustermgrs-Distinct,
  check_clustermgrs-hosts,
}
use cloudnative.MultiDc.Validate.{boot_clustermgrs, is_firstboot, on_boot, validate_managers}
use cloudnative.MultiDc.Validate.Timeouts.{boot_clustermgrs-keeps}

abbrev pub center_names : List DataCenter → List String
center_names = map (λ (d : DataCenter). d.name)

pub check_centers-names :
    (seen : List String) (p q : Option DataCenter) (ds es : List DataCenter)
    → check_centers seen p ds ≡ ok (q, es)
    → center_names es ≡ center_names ds
unfolding check_centers
check_centers-names seen p q [] es h =
    subst (λ (r : Option DataCenter × List DataCenter). center_names r.1 ≡ []) (ok-injective h) refl
check_centers-names seen p q (d ∷ ds) es h =
    let (_, fresh, h0) = >>=-eq-ok (raise_if (contains d.name seen) _) _ h in
    let (p1, noted, h1) = >>=-eq-ok (note_primary p (center_defaults d)) _ h0 in
    let ((p2, ds2), others, h2) = >>=-eq-ok (check_centers (d.name ∷ seen) p1 ds) _ h1 in
    subst (λ (r : Option DataCenter × List DataCenter). center_names r.1 ≡ center_names (d ∷ ds))
      (ok-injective h2) (rw (check_centers-names (d.name ∷ seen) p1 p2 ds ds2 others) refl)

-- The managers behind the first half of the validation.
pub record ManagersValid (args : Args) (jscfg : MultiDcConfig) (dcs : List DataCenter) (c : Centers)
    (q : PortMap) (m : Dict (List String)) (nodes : List ClusterMgrNode) : Type 0 where
  pub claimed : PortsClaimed [] (items_ports args jscfg.node_manager ++ mgrs_ports nodes) q
  pub located : (ip : String) → lookup ip c.dc_of ≡ host_center jscfg.node_manager ip
  pub gathered :
      (dc : String) → entry m dc ≡ addresses_in jscfg.node_manager dc jscfg.cluster_manager
  pub hosts : mgr_hosts nodes ≡ mgr_hosts jscfg.cluster_manager
  pub distinct : Distinct (mgr_hosts jscfg.cluster_manager)
  pub names : is_firstboot jscfg ≡ true → c.names ≡ center_names dcs
  pub two_managers : is_firstboot jscfg ≡ true → All (λ dc. too_few m dc ≡ false) c.names

pub validate_managers-Valid :
    (args : Args) (jscfg : MultiDcConfig) (machines : Machines) (p : Option DataCenter)
    (dcs : List DataCenter) (c : Centers) (q : PortMap) (m : Dict (List String))
    (nodes : List ClusterMgrNode)
    → validate_managers args jscfg machines p dcs ≡ ok (c, q, m, nodes)
    → ManagersValid args jscfg dcs c q m nodes
unfolding validate_managers lookup
validate_managers-Valid args jscfg machines p dcs c q m nodes h =
    let boot = is_firstboot jscfg in
    let items = jscfg.node_manager in
    let start : Centers = record {
      ports = [];
      names = map (λ (d : DataCenter). d.name) dcs;
      dcs = dcs;
      nodemgrs = [];
      dc_of = [];
    } in
    let (c1, first, h1) = >>=-eq-ok (check_nodemgrs args machines boot start items) _ h in
    let (_, ready, h2) = >>=-eq-ok (on_boot boot (forbid_skipped c1.nodemgrs)) _ h1 in
    let ((q1, m1, given), second, h3) =
      >>=-eq-ok (check_clustermgrs args c1 c1.ports [] [] jscfg.cluster_manager) _ h2 in
    let (ns, third, h4) =
      >>=-eq-ok (boot_clustermgrs args boot c1.names p (split_centers p dcs) m1 given) _ h3 in
    let (same, stay, two) =
      boot_clustermgrs-keeps args boot c1.names p (split_centers p dcs) m1 given ns third in
    let at = check_nodemgrs-host_center args machines boot start c1 items (λ ip. refl) first in
    subst
      (λ (r : Centers × PortMap × Dict (List String) × List ClusterMgrNode).
        ManagersValid args jscfg dcs r.0 r.1 r.2 r.3)
      (ok-injective h4)
      (record {
        claimed =
            PortsClaimed-append [] c1.ports q1 _ _
              (check_nodemgrs-claim args machines boot start c1 items first)
              (rw same (
                check_clustermgrs-claim args c1 c1.ports q1 [] [] m1 jscfg.cluster_manager given
                  second));
        located = at;
        gathered =
            check_clustermgrs-addresses_in args items c1 c1.ports q1 [] [] m1 jscfg.cluster_manager
              given at second;
        hosts =
            stay
            ∙ check_clustermgrs-hosts args c1 c1.ports q1 [] [] m1 jscfg.cluster_manager given
                second;
        distinct =
            (check_clustermgrs-Distinct args c1 c1.ports q1 [] [] m1 jscfg.cluster_manager given
              second).1;
        names = λ yes.
            check_nodemgrs-names args machines start c1 items
              (subst (λ fb. check_nodemgrs args machines fb start items ≡ ok c1) yes first);
        two_managers = two;
      })
