-- ===== src/OneKey/Validate/NoTypeError.antt =====
-- Behind `setup_machines1` the look-up of a computing node's machine never gives `None`.
use cloudnative.Base.{
  length, String, ℕ, ◌+◌, Bool, true, false, Option, none, some, has_key, List, [], ◌∷◌, none_error,
  raise_if, Result, ok, err, ◌>>=◌, ◌>>◌, eqb, length, ◌≡◌, ◌≢◌, arith, All, All-map, value_error,
}
use cloudnative.Config.{Args, StorageNode, CompNode, Shard, MetaShard, Haproxy, ClusterMgrNode}
use cloudnative.Machines.{Machines}
use cloudnative.Machines.Entries.{set_haspg-eq-ok}
use cloudnative.OneKey.Setup.{setup_machines1-comps}
use cloudnative.Claims.{PortMap, add_port_to_machine, add_dir_to_machine, add_to_machine}
use cloudnative.HaMode.{check_ha_mode, validate_ha_mode}
use cloudnative.OneKey.{ClusterMgr, Cluster, OneKeyConfig, setup_machines1}
use cloudnative.OneKey.Shards.{Taken, check_nodes, claim_node, check_primary}
use cloudnative.OneKey.Validate.{
  given_mode, resolve_modes, finish_primary, check_meta, check_comps, claim_comp, check_haproxy,
  check_shard, check_shards, check_clustermgr_node, check_clustermgr_nodes, check_clustermgr_ip,
  misspelt, check_clustermgr_by, check_clustermgr, nothing_taken, validate_and_set_config1,
}

-- `m` does not stop at a `None`.
abbrev NoNone {ℓ} : {A : Type ℓ} → Result A → Type ℓ
NoNone m = m ≢ err none_error

ok-NoNone {ℓ} : {A : Type ℓ} (a : A) → NoNone (ok a)
ok-NoNone a h = cc

value_error-NoNone {ℓ} : {A : Type ℓ} (m : String) → NoNone {A = A} (err (value_error m))
value_error-NoNone m h = cc

bind-NoNone {ℓ κ} :
    {A : Type ℓ} {B : Type κ} (m : Result A) (f : A → Result B)
    → NoNone m
    → ((a : A) → NoNone (f a))
    → NoNone (m >>= f)
bind-NoNone (ok a) f n k = k a
bind-NoNone (err e) f n k = λ h. n (cc)

add_port-NoNone : (m : PortMap) (ip : String) (p : ℕ) → NoNone (add_port_to_machine m ip p)
unfolding add_port_to_machine add_to_machine
add_port-NoNone m ip p h = ground arith

claim_node-NoNone : (t : Taken) (n : StorageNode) → NoNone (claim_node t n)
unfolding claim_node add_port_to_machine add_dir_to_machine add_to_machine
claim_node-NoNone t n h = ground arith

claim_comp-NoNone : (t : Taken) (n : CompNode) → NoNone (claim_comp t n)
unfolding claim_comp add_port_to_machine add_dir_to_machine add_to_machine
claim_comp-NoNone t n h = ground arith

check_comps-NoNone :
    (d : Machines) (t : Taken) (ns : List CompNode)
    → All (λ (n : CompNode). has_key n.ip d ≡ true) ns
    → NoNone (check_comps d t ns)
unfolding check_comps
check_comps-NoNone d t [] h = ok-NoNone _
check_comps-NoNone d t (n ∷ ns) h =
    let (d', marked, keys) = set_haspg-eq-ok d n.ip h.0 in
    rw (marked, check_comps)
      (bind-NoNone (claim_comp t n) _ (claim_comp-NoNone t n)
        λ t'. check_comps-NoNone d' t' ns (All-map _ _ ns (λ m k. keys m.ip k) h.1))

check_primary-NoNone :
    (two : String) (b : Bool) (n : StorageNode) → NoNone (check_primary (value_error two) b n)
unfolding check_primary
check_primary-NoNone two b n h = ground arith

check_nodes-NoNone :
    (two : String) (t : Taken) (b : Bool) (ns : List StorageNode)
    → NoNone (check_nodes (value_error two) t b ns)
unfolding check_nodes
check_nodes-NoNone two t b [] = ok-NoNone _
check_nodes-NoNone two t b (n ∷ ns) = bind-NoNone (claim_node t n) _ (claim_node-NoNone t n) λ t'.
    bind-NoNone (check_primary (value_error two) b n) _ (check_primary-NoNone two b n)
      λ b'. check_nodes-NoNone two t' b' ns

raise_if-NoNone : (b : Bool) (m : String) → NoNone (raise_if b (value_error m))
raise_if-NoNone b m h = ground arith

check_ha_mode-NoNone :
    (many one : String) (n : ℕ) (mode : String)
    → NoNone (check_ha_mode (value_error many) (value_error one) n mode)
unfolding check_ha_mode
check_ha_mode-NoNone many one n mode h = ground arith

finish_primary-NoNone :
    (none_found : String) (ns : List StorageNode) (b : Bool)
    → NoNone (finish_primary (value_error none_found) ns b)
unfolding finish_primary
finish_primary-NoNone none_found ns b h = ground arith

resolve_modes-NoNone : (c : Cluster) → NoNone (resolve_modes c)
unfolding resolve_modes given_mode validate_ha_mode
resolve_modes-NoNone c h = ground arith

-- The steps that a metadata and a data shard share, with any texts for the exceptions.
shard-NoNone :
    {B : Type 0} (empty many one two none_found mode : String) (n : ℕ) (t : Taken)
    (ns : List StorageNode) (k : Taken → List StorageNode → B)
    → NoNone (do
      raise_if (eqb n 0) (value_error empty)
      check_ha_mode (value_error many) (value_error one) n mode
      (t', b) ← check_nodes (value_error two) t false ns
      ns' ← finish_primary (value_error none_found) ns b
      ok (k t' ns'))
shard-NoNone empty many one two none_found mode n t ns k =
    bind-NoNone (raise_if (eqb n 0) (value_error empty)) _ (raise_if-NoNone (eqb n 0) empty) λ _.
      bind-NoNone (check_ha_mode (value_error many) (value_error one) n mode) _
        (check_ha_mode-NoNone many one n mode)
        λ _.
          bind-NoNone (check_nodes (value_error two) t false ns) _
            (check_nodes-NoNone two t false ns)
            λ r.
              bind-NoNone (finish_primary (value_error none_found) ns r.1) _
                (finish_primary-NoNone none_found ns r.1) λ x. ok-NoNone (k r.0 x)

check_meta-NoNone : (t : Taken) (m : MetaShard) (given : String) → NoNone (check_meta t m given)
unfolding check_meta
check_meta-NoNone t m given = shard-NoNone _ _ _ _ _ _ (length m.nodes) t m.nodes _

check_shard-NoNone :
    (t : Taken) (i : ℕ) (mode : String) (s : Shard) → NoNone (check_shard t i mode s)
unfolding check_shard
check_shard-NoNone t i mode s = shard-NoNone _ _ _ _ _ mode (length s.nodes) t s.nodes _

check_shards-NoNone :
    (t : Taken) (i : ℕ) (mode : String) (ss : List Shard) → NoNone (check_shards t i mode ss)
unfolding check_shards
check_shards-NoNone t i mode [] = ok-NoNone _
check_shards-NoNone t i mode (s ∷ ss) =
    bind-NoNone _ _ (check_shard-NoNone t i mode s)
      λ r. bind-NoNone _ _ (check_shards-NoNone r.0 (i + 1) mode ss) λ x. ok-NoNone _

check_haproxy-NoNone : (t : Taken) (h : Option Haproxy) → NoNone (check_haproxy t h)
unfolding check_haproxy add_port_to_machine add_to_machine
check_haproxy-NoNone t h e = ground arith

check_clustermgr_nodes-NoNone :
    (args : Args) (p : PortMap) (ns : List ClusterMgrNode)
    → NoNone (check_clustermgr_nodes args p ns)
unfolding check_clustermgr_nodes check_clustermgr_node
check_clustermgr_nodes-NoNone args p [] = ok-NoNone _
check_clustermgr_nodes-NoNone args p (n ∷ ns) =
    bind-NoNone _ _
      (bind-NoNone _ _ (add_port-NoNone p n.ip _)
        λ p1. bind-NoNone _ _ (add_port-NoNone p1 n.ip _) λ x. ok-NoNone _)
      λ r. bind-NoNone _ _ (check_clustermgr_nodes-NoNone args r.0 ns) λ x. ok-NoNone _

check_clustermgr_ip-NoNone :
    (args : Args) (p : PortMap) (c : ClusterMgr) (ip : String)
    → NoNone (check_clustermgr_ip args p c ip)
unfolding check_clustermgr_ip misspelt add_port_to_machine add_to_machine
check_clustermgr_ip-NoNone args p c ip e = ground arith

check_clustermgr_by-NoNone :
    (args : Args) (p : PortMap) (c : ClusterMgr) (ip : Option String)
    (nodes : Option (List ClusterMgrNode))
    → NoNone (check_clustermgr_by args p c ip nodes)
unfolding check_clustermgr_by
check_clustermgr_by-NoNone args p c (some ip) (some nodes) = value_error-NoNone _
check_clustermgr_by-NoNone args p c (some ip) none = check_clustermgr_ip-NoNone args p c ip
check_clustermgr_by-NoNone args p c none (some nodes) =
    bind-NoNone _ _ (check_clustermgr_nodes-NoNone args p nodes) λ x. ok-NoNone _
check_clustermgr_by-NoNone args p c none none = value_error-NoNone _

-- With the machines that `setup_machines1` prepares from the same configuration, the validation
-- never subscripts a machine that is `None`, whatever the configuration.
pub validate_and_set_config1-ne-none_error :
    (args : Args) (jscfg : OneKeyConfig) (machines : Machines)
    → validate_and_set_config1 args jscfg (setup_machines1 args jscfg machines) ≢ err none_error
unfolding validate_and_set_config1 check_clustermgr
validate_and_set_config1-ne-none_error args jscfg machines =
    let c = jscfg.cluster in
    bind-NoNone _ _ (resolve_modes-NoNone c) λ g.
      bind-NoNone _ _ (check_meta-NoNone nothing_taken c.meta g.0) λ m.
        bind-NoNone _ _
          (check_comps-NoNone _ m.0 c.comps (setup_machines1-comps args jscfg machines))
          λ t. bind-NoNone _ _ (check_haproxy-NoNone t.1 c.haproxy) λ u.
            bind-NoNone _ _ (check_shards-NoNone u 1 _ c.datas) λ s.
              bind-NoNone _ _
                (check_clustermgr_by-NoNone args s.0.ports c.clustermgr c.clustermgr.ip
                  c.clustermgr.nodes)
                λ x. ok-NoNone _
