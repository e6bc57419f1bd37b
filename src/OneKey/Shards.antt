-- ===== src/OneKey/Shards.antt =====
-- The checks of the nodes of one metadata or data shard, which `validate_and_set_config1` and
-- cluster/traditional/generate_scripts_groups.py make in the same words.
pub mod Claimed
pub mod Primary
use cloudnative.Base.{
  String, ℕ, Bool, true, false, Option, none, some, List, [], ◌∷◌, or_default, Error, Result, ok,
  err, need, ◌>>=◌,
}
use cloudnative.Config.{StorageNode}
use cloudnative.Claims.{PortMap, DirMap, add_port_to_machine, add_dir_to_machine}

-- `portmap` and `dirmap`.
pub record Taken : Type 0 where
  pub ports : PortMap
  pub dirs : DirMap

unfoldable pub add_optional_port : PortMap → String → Option ℕ → Result PortMap
add_optional_port ports ip none = ok ports
add_optional_port ports ip (some port) = add_port_to_machine ports ip port

unfoldable pub add_optional_dir : DirMap → String → Option String → Result DirMap
add_optional_dir dirs ip none = ok dirs
add_optional_dir dirs ip (some dir) = add_dir_to_machine dirs ip dir

unfoldable pub claim_node : Taken → StorageNode → Result Taken
unfolding add_optional_port add_optional_dir
claim_node taken node = do
  port ← need "port" node.port
  ports1 ← add_port_to_machine taken.ports node.ip port
  ports2 ← add_optional_port ports1 node.ip node.xport
  ports3 ← add_optional_port ports2 node.ip node.mgr_port
  data_dir ← need "data_dir_path" node.data_dir_path
  dirs1 ← add_dir_to_machine taken.dirs node.ip data_dir
  log_dir ← need "log_dir_path" node.log_dir_path
  dirs2 ← add_dir_to_machine dirs1 node.ip log_dir
  dirs3 ← add_optional_dir dirs2 node.ip node.innodb_log_dir_path
  ok (record { ports = ports3; dirs = dirs3 })

-- The running test that at most one node is marked; `two` is the exception of the shard.
unfoldable pub check_primary : Error → Bool → StorageNode → Result Bool
check_primary two has_primary node = elim (or_default false node.is_primary) [
  | false ↦ ok has_primary
  | true ↦ elim has_primary [ true ↦ err two | false ↦ ok true ]
]

unfoldable pub check_nodes : Error → Taken → Bool → List StorageNode → Result (Taken × Bool)
unfolding claim_node check_primary
check_nodes two taken has_primary [] = ok (taken, has_primary)
check_nodes two taken has_primary (node ∷ nodes) = do
  taken' ← claim_node taken node
  has' ← check_primary two has_primary node
  check_nodes two taken' has' nodes

-- `node['is_primary'] = True` behind the loop, where `node` is the last one.
unfoldable pub mark_last : List StorageNode → List StorageNode
mark_last [] = []
mark_last (node ∷ []) = record node { is_primary = some true } ∷ []
mark_last (node ∷ nodes) = node ∷ mark_last nodes
