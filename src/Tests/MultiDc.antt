-- ===== src/Tests/MultiDc.antt =====
-- A bootstrap in two data centers, each with two hosts that run a node manager, a cluster manager
-- and a metadata node.
use cloudnative.ListMaps.{add_to_list_map}
use cloudnative.Base.{
  Option, List, ℕ, String, true, some, none, [], ◌∷◌, Result, ok, ◌≡◌, refl, lookup, insert,
  contains,
}
use cloudnative.Claims.{add_port_to_machine, add_to_machine}
use cloudnative.NodeMgr.{
  curports, resolve_nodemgr, get_nodemgr_nextport, fix_nodemgr_nodetype, addto_usedports,
  check_dirs, first_port, resolve_dirs, NodeMgrItem,
}
use cloudnative.Base.Text.{
  int, first_piece, split, is_absolute, digits, drop_prefix, lstrip, replace, rstrip, show, strip,
}
use cloudnative.Machines.{
  add_ip_to_machine_map, add_machine_item, add_machine_to_map, get_machine, Machines,
}
use cloudnative.Allocate.{
  set_storage_using_nodemgr, assign_mgr_ports, assign_port, given_or_next, nodemgr_for,
  place_storage_node,
}
use cloudnative.OneDc.Validate.{
  claim_clustermgr, node_addr, check_backup, check_elasticsearch, forbid_paths,
}
use cloudnative.OneDc.{add_elasticsearch, add_nodemgr_items}
use cloudnative.OneKey.{add_clustermgr_nodes, add_items, add_storage_nodes}
use cloudnative.Version.Order.{check_version_to_patch-Ordered}
use cloudnative.Version.{
  check_version_to_patch, check_version_to_major, version_part, check_version_to_minor,
}
use cloudnative.MultiDc.Centers.{
  note_primary, check_centers, split_centers, forbid_skip, check_bootstrap_centers,
}
use cloudnative.MultiDc.Managers.{
  know_center, check_nodemgr, check_nodemgrs, forbid_skipped, clustermgr_center, check_clustermgrs,
  need_two, set_timeout, set_timeouts,
}
use cloudnative.MultiDc.Meta.{
  check_meta_mode, place_meta_node, place_meta_nodes, make_primary, boot_meta, validate_meta,
}
use cloudnative.MultiDc.Validate.{
  boot_clustermgrs, check_xpanel, validate_managers, Validated, validate_and_set_config3,
}
use cloudnative.MultiDc.Centers.Split.{IsSplit, check_centers-IsSplit}
use cloudnative.MultiDc.{DataCenter, MultiDcConfig, setup_machines3}
use cloudnative.MultiDc.Validate.Success.{IsValidSites, validate_and_set_config3-IsValidSites}
use cloudnative.Tests.OneKey.{args}
use cloudnative.Tests.OneDc.{storage_on, nodemgr_on, clustermgr_on}

abbrev in_center : String → String → NodeMgrItem
in_center dc ip = record (nodemgr_on ip) { dc = some dc }

abbrev config3 : MultiDcConfig
config3 = record {
  machines = [];
  datacenters =
      record {
        name = "dc1";
        province = some "p";
        city = some "c";
        is_primary = some true;
        skip = none;
      }
      ∷ record {
        name = "dc2";
        province = some "p";
        city = some "d";
        is_primary = none;
        skip = none;
      }
      ∷ [];
  meta = record {
    ha_mode = none;
    enable_rocksdb = none;
    fullsync_level = none;
    group_seeds = none;
    nodes = storage_on "h1" ∷ storage_on "h2" ∷ storage_on "h3" ∷ storage_on "h4" ∷ [];
  };
  cluster_manager =
      clustermgr_on "h1" ∷ clustermgr_on "h2" ∷ clustermgr_on "h3" ∷ clustermgr_on "h4" ∷ [];
  node_manager =
      in_center "dc2" "h1"
      ∷ in_center "dc1" "h2"
      ∷ in_center "dc1" "h3"
      ∷ in_center "dc2" "h4"
      ∷ [];
  backup = record { hdfs = none; ssh = none };
  xpanel = none;
  elasticsearch = none;
}

-- A sample result: nothing is configured.
abbrev nothing : Validated
nothing = record {
  site = record { machines = []; ports = []; nodemgrs = [] };
  dcprimary = none;
  secondaries = [];
  standbys = [];
  dcs = [];
  names = [];
  dc_clustermgr_map = [];
  dc_meta_map = [];
  meta = config3.meta;
  cluster_manager = [];
  backup = config3.backup;
  xpanel = none;
  elasticsearch = none;
}

abbrev machines_of : Result Machines → Machines
machines_of (ok m) = m
machines_of _ = []

abbrev validated_of : Result Validated → Validated
validated_of (ok v) = v
validated_of _ = nothing

machines3 : Machines
unfolding setup_machines3
machines3 = machines_of (setup_machines3 args config3 [])

validated3 : Validated
unfolding validate_and_set_config3
validated3 = validated_of (validate_and_set_config3 args config3 machines3)

validated3_runs : validate_and_set_config3 args config3 machines3 ≡ ok validated3
unfolding validated3 machines3 claim_clustermgr node_addr setup_machines3 validate_and_set_config3
    lookup insert contains add_port_to_machine add_to_machine curports int first_piece split
    resolve_nodemgr add_ip_to_machine_map is_absolute get_nodemgr_nextport fix_nodemgr_nodetype
    set_storage_using_nodemgr assign_mgr_ports assign_port given_or_next nodemgr_for
    place_storage_node digits drop_prefix lstrip replace rstrip show strip add_machine_item
    add_machine_to_map get_machine addto_usedports check_dirs first_port resolve_dirs check_backup
    check_elasticsearch forbid_paths add_elasticsearch add_nodemgr_items add_clustermgr_nodes
    add_items add_storage_nodes version_part check_version_to_minor note_primary check_centers
    split_centers forbid_skip check_bootstrap_centers add_to_list_map know_center check_nodemgr
    check_nodemgrs forbid_skipped clustermgr_center check_clustermgrs need_two set_timeout
    set_timeouts check_meta_mode place_meta_node place_meta_nodes make_primary boot_meta
    validate_meta boot_clustermgrs check_xpanel validate_managers
validated3_runs = refl

validate_and_set_config3-IsValidSites_example : IsValidSites args config3 validated3
validate_and_set_config3-IsValidSites_example =
    validate_and_set_config3-IsValidSites args config3 machines3 validated3 validated3_runs

check_version_to_patch-Ordered_example :
    (check_version_to_patch "1.2.1" 1 2 0 ≡ ok true → check_version_to_minor "1.2.1" 1 2 ≡ ok true)
    × (check_version_to_minor "1.2.1" 1 2 ≡ ok true → check_version_to_major "1.2.1" 1 ≡ ok true)
    × ((patch : ℕ)
        → version_part (split b'.' "1.2.1") 2 ≡ ok patch
        → (check_version_to_minor "1.2.1" 1 3 ≡ ok true)
        → check_version_to_patch "1.2.1" 1 2 0 ≡ ok true)
    × ((minor patch : ℕ)
        → version_part (split b'.' "1.2.1") 1 ≡ ok minor
        → version_part (split b'.' "1.2.1") 2 ≡ ok patch
        → check_version_to_major "1.2.1" 2 ≡ ok true
        → check_version_to_patch "1.2.1" 1 2 0 ≡ ok true)
check_version_to_patch-Ordered_example = check_version_to_patch-Ordered "1.2.1" 1 2 0

abbrev centers_of_result :
    Result (Option DataCenter × List DataCenter) → Option DataCenter × List DataCenter
centers_of_result (ok r) = r
centers_of_result _ = (none, [])

centers3 : Option DataCenter × List DataCenter
unfolding check_centers
centers3 = centers_of_result (check_centers [] none config3.datacenters)

centers3_runs : check_centers [] none config3.datacenters ≡ ok (centers3.0, centers3.1)
unfolding centers3 check_centers note_primary contains
centers3_runs = refl

check_centers-IsSplit_example : IsSplit centers3.0 centers3.1
check_centers-IsSplit_example =
    check_centers-IsSplit config3.datacenters centers3.1 centers3.0 centers3_runs
