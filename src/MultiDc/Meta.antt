-- ===== src/MultiDc/Meta.antt =====
-- cluster/cluster_common.py: the metadata shard of `validate_and_set_config3`.
pub mod Primary
pub mod Positions
use cloudnative.ListMaps.{add_to_list_map}
use cloudnative.Base.{
  String, ◌==◌, ℕ, ◌+◌, eqb, Bool, true, false, not, ◌&&◌, Option, none, some, is_some, List, [],
  ◌∷◌, length, map, Dict, lookup, has_key, or_default, zero, suc, Error, Result, ok, err,
  value_error, index_error, need, raise_if, ◌>>=◌, ◌>>◌, string_eq, nat_eq,
}
use cloudnative.Base.Text.{concat, join}
use cloudnative.Config.{Args, StorageNode, MetaShard}
use cloudnative.Allocate.{Site, place_storage_node}
use cloudnative.OneDc.Validate.{forbid_paths, node_addr}
use cloudnative.MultiDc.{DataCenter}
use cloudnative.MultiDc.Managers.{Centers, need_two}

abbrev meta_not_rbr : Error
meta_not_rbr = value_error "Error: ha_mode for meta must be rbr currently !"

unfoldable pub check_meta_mode : Option String → Result (Unit {0})
check_meta_mode none = ok tt
check_meta_mode (some mode) = raise_if (not (mode == "rbr")) meta_not_rbr

abbrev no_nodemgr : String → Error
no_nodemgr ip = value_error (concat ("Error: no node_manager item for node " ∷ ip ∷ "!" ∷ []))

-- A metadata node. The mode is `rbr`, under which the body that it shares with the other
-- installation gives out no further ports; its host has a node manager.
unfoldable pub place_meta_node :
    Args → Dict String → Site → StorageNode → Result (Site × String × StorageNode)
unfolding forbid_paths
place_meta_node args dc_of site node = do
  prepared ← forbid_paths node
  raise_if (not (has_key node.ip site.nodemgrs)) (no_nodemgr node.ip)
  dc ← need node.ip (lookup node.ip dc_of)
  (site', node') ← place_storage_node args site "rbr" "128MB" prepared
  ok (site', dc, record node' { is_primary = some false })

-- The loop over the metadata nodes; `dc_meta_map` holds their positions in the list.
unfoldable pub place_meta_nodes :
    Args
    → Dict String
    → ℕ
    → Dict (List ℕ)
    → Site
    → List StorageNode
    → Result (Site × Dict (List ℕ) × List StorageNode)
unfolding place_meta_node
place_meta_nodes args dc_of i m site [] = ok (site, m, [])
place_meta_nodes args dc_of i m site (node ∷ nodes) = do
  (site1, dc, node') ← place_meta_node args dc_of site node
  (site2, m', nodes') ← place_meta_nodes args dc_of (i + 1) (add_to_list_map m dc i) site1 nodes
  ok (site2, m', node' ∷ nodes')

-- `nodes[i]['is_primary'] = True`
unfoldable pub make_primary : ℕ → List StorageNode → List StorageNode
make_primary i [] = []
make_primary zero (node ∷ nodes) = record node { is_primary = some true } ∷ nodes
make_primary (suc i) (node ∷ nodes) = node ∷ make_primary i nodes

-- `pdcmetanodes[0]`
unfoldable pub first_of : List ℕ → Result ℕ
first_of [] = err index_error
first_of (i ∷ is) = ok i

abbrev pub few_metas : String → Error
few_metas dc = value_error (
    concat (
      "Error: there must be at least two meta nodes in datacenter " ∷ dc ∷ " during bootstrap!"
      ∷ []))

-- `dcprimary['name']`, where the bootstrap made sure of `dcprimary`.
abbrev pub primary_name : Option DataCenter → String
primary_name none = ""
primary_name (some node) = node.name

-- What a bootstrap does to the metadata nodes: two in each data center, the first one of the
-- primary data center the primary, and all of them the seeds.
unfoldable pub boot_meta :
    Bool
    → List String
    → Option DataCenter
    → Dict (List ℕ)
    → Option String
    → List StorageNode
    → Result (Option String × List StorageNode)
unfolding first_of need_two
boot_meta false names dcprimary m given nodes = ok (given, nodes)
boot_meta true names dcprimary m given nodes = do
  need_two few_metas m names
  local ← need (primary_name dcprimary) (lookup (primary_name dcprimary) m)
  i ← first_of local
  ok (some (join "," (map node_addr nodes)), make_primary i nodes)

abbrev no_metas : Error
no_metas = value_error "Error: meta nodes must specified during bootstrap!"

-- The metadata shard.
unfoldable pub validate_meta :
    Args
    → Bool
    → Centers
    → Option DataCenter
    → Site
    → MetaShard
    → Result (Site × Dict (List ℕ) × MetaShard)
unfolding check_meta_mode place_meta_nodes boot_meta
validate_meta args firstboot c dcprimary site meta = do
  check_meta_mode meta.ha_mode
  raise_if (eqb (length meta.nodes) 0 && not (is_some meta.group_seeds)) no_metas
  (site', m, nodes) ← place_meta_nodes args c.dc_of 0 [] site meta.nodes
  (seeds, booted) ← boot_meta firstboot c.names dcprimary m meta.group_seeds nodes
  ok (
    site',
    m,
    record meta {
      ha_mode = some "rbr";
      enable_rocksdb = some (or_default true meta.enable_rocksdb);
      group_seeds = seeds;
      nodes = booted;
    },
  )
