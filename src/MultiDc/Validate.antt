-- ===== src/MultiDc/Validate.antt =====
-- cluster/cluster_common.py: the panel of `validate_and_set_config3`, and the whole of it.
pub mod Timeouts
pub mod Managers
pub mod Success
use cloudnative.Base.{
  String, ◌==◌, ℕ, ltb, Bool, true, false, Option, none, some, List, [], ◌∷◌, length, map, Dict,
  lookup, or_default, Error, Result, ok, value_error, need, ◌>>=◌, ◌>>◌, if◌then◌else◌, string_eq,
  nat_eq,
}
use cloudnative.Base.Text.{concat, replace, show}
use cloudnative.Config.{Args, MetaShard, ClusterMgrNode}
use cloudnative.Machines.{Machines}
use cloudnative.Claims.{PortMap, add_port_to_machine}
use cloudnative.Allocate.{Site}
use cloudnative.OneDc.{Backup, Elasticsearch}
use cloudnative.OneDc.Validate.{check_backup, check_elasticsearch}
use cloudnative.MultiDc.{DataCenter, Xpanel, XpanelNode, MultiDcConfig}
use cloudnative.MultiDc.Centers.{check_centers, check_bootstrap_centers, split_centers}
use cloudnative.MultiDc.Managers.{
  Centers, check_nodemgrs, forbid_skipped, check_clustermgrs, need_two, set_timeout, set_timeouts,
}
use cloudnative.MultiDc.Meta.{primary_name, validate_meta}
use cloudnative.Base.{
  String, ◌==◌, ℕ, ltb, Bool, true, false, Option, none, some, List, [], ◌∷◌, length, map, Dict,
  lookup, or_default, Error, Result, ok, value_error, need, ◌>>=◌, ◌>>◌, if◌then◌else◌, string_eq,
  nat_eq,
}
use cloudnative.Base.Text.{concat, replace, show}
use cloudnative.Config.{Args, MetaShard, ClusterMgrNode}
use cloudnative.Machines.{Machines}
use cloudnative.Claims.{PortMap, add_port_to_machine}
use cloudnative.Allocate.{Site}
use cloudnative.OneDc.{Backup, Elasticsearch}
use cloudnative.OneDc.Validate.{check_backup, check_elasticsearch}
use cloudnative.MultiDc.{DataCenter, Xpanel, XpanelNode, MultiDcConfig}
use cloudnative.MultiDc.Centers.{check_centers, check_bootstrap_centers, split_centers}
use cloudnative.MultiDc.Managers.{
  Centers, check_nodemgrs, forbid_skipped, check_clustermgrs, need_two, set_timeout, set_timeouts,
}

abbrev few_clustermgrs : String → Error
few_clustermgrs dc = value_error (
    concat (
      "Error: there must be at least two clustermgr nodes in datacenter " ∷ dc
      ∷ " during bootstrap!" ∷ []))

-- What a bootstrap does to the cluster managers: two in each data center, and the timeouts by
-- where they are.
unfoldable pub boot_clustermgrs :
    Args
    → Bool
    → List String
    → Option DataCenter
    → List DataCenter × List DataCenter
    → Dict (List String)
    → List ClusterMgrNode
    → Result (List ClusterMgrNode)
unfolding need_two set_timeout set_timeouts
boot_clustermgrs args false names dcprimary others m nodes = ok nodes
boot_clustermgrs args true names dcprimary others m nodes = do
  need_two few_clustermgrs m names
  local ← need (primary_name dcprimary) (lookup (primary_name dcprimary) m)
  nodes1 ← set_timeout args 3000 local nodes
  nodes2 ← set_timeouts args 6000 m others.0 nodes1
  set_timeouts args 9000 m others.1 nodes2

-- One node of the panel.
claim_xpanel_node : PortMap → XpanelNode → Result (PortMap × XpanelNode)
claim_xpanel_node ports node = do
  let port = or_default 18080 node.port
  ports' ← add_port_to_machine ports node.ip port
  ok (
    ports',
    record node {
      port = some port;
      name = some (or_default (concat ("xpanel_" ∷ show port ∷ [])) node.name);
    },
  )

pub claim_xpanel_nodes : PortMap → List XpanelNode → Result (PortMap × List XpanelNode)
unfolding claim_xpanel_node
claim_xpanel_nodes ports [] = ok (ports, [])
claim_xpanel_nodes ports (node ∷ nodes) = do
  (ports1, node') ← claim_xpanel_node ports node
  (ports2, nodes') ← claim_xpanel_nodes ports1 nodes
  ok (ports2, node' ∷ nodes')

xpanel_image : Args → Xpanel → Result String
xpanel_image args x =
    if or_default "url" x.image_type == "file"
    then ok (concat ("kunlun-xpanel:" ∷ args.product_version ∷ []))
    else (do image ← need "image" x.image; ok (replace "VERSION" args.product_version image))

unfoldable pub check_xpanel : Args → PortMap → Option Xpanel → Result (PortMap × Option Xpanel)
unfolding xpanel_image claim_xpanel_nodes
check_xpanel args ports none = ok (ports, none)
check_xpanel args ports (some x) = do
  image ← xpanel_image args x
  given ← need "nodes" x.nodes
  (ports', nodes) ← claim_xpanel_nodes ports given
  ok (
    ports',
    some (record x {
      image_type = some (or_default "url" x.image_type);
      image = some image;
      image_file = some (
          or_default (concat ("kunlun-xpanel-" ∷ args.product_version ∷ ".tar.gz" ∷ []))
            x.image_file);
      nodes = some nodes;
    }),
  )

-- The configuration behind the validation.
pub record Validated : Type 0 where
  pub site : Site
  pub dcprimary : Option DataCenter
  pub secondaries : List DataCenter
  pub standbys : List DataCenter
  pub dcs : List DataCenter
  pub names : List String
  pub dc_clustermgr_map : Dict (List String)
  pub dc_meta_map : Dict (List ℕ)
  pub meta : MetaShard
  pub cluster_manager : List ClusterMgrNode
  pub backup : Backup
  pub xpanel : Option Xpanel
  pub elasticsearch : Option Elasticsearch

-- `len(meta['nodes']) > 0`: with metadata nodes it is a bootstrap.
abbrev pub is_firstboot : MultiDcConfig → Bool
is_firstboot jscfg = ltb 0 (length jscfg.meta.nodes)

-- `if firstboot:` in front of a check.
abbrev pub on_boot : Bool → Result (Unit {0}) → Result (Unit {0})
on_boot false check = ok tt
on_boot true check = check

-- The managers, the first half of the validation.
unfoldable pub validate_managers :
    Args
    → MultiDcConfig
    → Machines
    → Option DataCenter
    → List DataCenter
    → Result (Centers × PortMap × Dict (List String) × List ClusterMgrNode)
unfolding check_nodemgrs forbid_skipped check_clustermgrs boot_clustermgrs
validate_managers args jscfg machines dcprimary dcs = do
  let firstboot = is_firstboot jscfg
  let start : Centers = record {
    ports = [];
    names = map (λ (d : DataCenter). d.name) dcs;
    dcs = dcs;
    nodemgrs = [];
    dc_of = [];
  }
  c ← check_nodemgrs args machines firstboot start jscfg.node_manager
  on_boot firstboot (forbid_skipped c.nodemgrs)
  (ports, mgrs, given) ← check_clustermgrs args c c.ports [] [] jscfg.cluster_manager
  nodes ← boot_clustermgrs args firstboot c.names dcprimary (split_centers dcprimary dcs) mgrs given
  ok (c, ports, mgrs, nodes)

unfoldable pub validate_and_set_config3 : Args → MultiDcConfig → Machines → Result Validated
unfolding check_centers check_bootstrap_centers validate_managers validate_meta check_backup
    check_xpanel check_elasticsearch
validate_and_set_config3 args jscfg machines = do
  let firstboot = is_firstboot jscfg
  (dcprimary, dcs) ← check_centers [] none jscfg.datacenters
  check_bootstrap_centers firstboot dcprimary dcs
  let others = split_centers dcprimary dcs
  (c, ports1, mgrs, clustermgrs) ← validate_managers args jscfg machines dcprimary dcs
  (site2, metas, meta) ←
      validate_meta args firstboot c dcprimary
        (record { machines = machines; ports = ports1; nodemgrs = c.nodemgrs }) jscfg.meta
  (ports3, backup) ← check_backup site2.ports jscfg.backup
  (ports4, xpanel) ← check_xpanel args ports3 jscfg.xpanel
  (ports5, elasticsearch) ← check_elasticsearch ports4 jscfg.elasticsearch
  ok (record {
    site = record site2 { ports = ports5 };
    dcprimary = dcprimary;
    secondaries = others.0;
    standbys = others.1;
    dcs = c.dcs;
    names = c.names;
    dc_clustermgr_map = mgrs;
    dc_meta_map = metas;
    meta = meta;
    cluster_manager = clustermgrs;
    backup = backup;
    xpanel = xpanel;
    elasticsearch = elasticsearch;
  })
