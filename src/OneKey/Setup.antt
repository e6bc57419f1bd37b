-- ===== src/OneKey/Setup.antt =====
-- `setup_machines1`: which entry stands under each address.
use cloudnative.Base.{
  arith, All-map, has_key, All, String, true, false, Option, none, some, List, [], ◌∷◌, ◌++◌, map,
  lookup, ◌≡◌, refl, Option-cases, inl, inr,
}
use text.Mathlib.TextPositions.{eq_refl}
use cloudnative.Config.{Args, MachineItem, StorageNode, CompNode, Shard, Haproxy, ClusterMgrNode}
use cloudnative.Machines.{Machines}
use cloudnative.Machines.Entries.{
  Mention, add_mention, add_mentions, add_mentions-append, item_mention, ip_mention,
  add_machine_item_lem, lookup-append, add_ip_lem, lookup-add_mentions, or_else,
}
use cloudnative.OneKey.{
  ClusterMgr, OneKeyConfig, add_items, add_storage_nodes, add_shards, add_comps,
  add_clustermgr_nodes, add_clustermgr, add_haproxy, setup_machines1,
}

module _ (args : Args) where
  abbrev pub item_mentions : List MachineItem → List Mention
  item_mentions items = map (item_mention args) items

  abbrev pub storage_mentions : List StorageNode → List Mention
  storage_mentions nodes = map (λ n. ip_mention args false n.ip) nodes

  abbrev pub shard_mentions : List Shard → List Mention
  shard_mentions [] = []
  shard_mentions (s ∷ ss) = storage_mentions s.nodes ++ shard_mentions ss

  abbrev pub comp_mentions : List CompNode → List Mention
  comp_mentions nodes = map (λ n. ip_mention args true n.ip) nodes

  abbrev pub clustermgr_node_mentions : List ClusterMgrNode → List Mention
  clustermgr_node_mentions nodes = map (λ n. ip_mention args false n.ip) nodes

  -- A list of nodes counts only where no address is given.
  abbrev pub clustermgr_mentions : Option String → Option (List ClusterMgrNode) → List Mention
  clustermgr_mentions (some ip) nodes = ip_mention args false ip ∷ []
  clustermgr_mentions none (some nodes) = clustermgr_node_mentions nodes
  clustermgr_mentions none none = []

  abbrev pub haproxy_mentions : Option Haproxy → List Mention
  haproxy_mentions none = []
  haproxy_mentions (some h) = ip_mention args false h.ip ∷ []

  add_items_lem :
      (d : Machines) (items : List MachineItem)
      → add_items args d items ≡ add_mentions d (item_mentions items)
  unfolding add_items add_mentions
  add_items_lem d [] = refl
  add_items_lem d (n ∷ ns) =
      rw add_machine_item_lem (add_items_lem (add_mention d (item_mention args n)) ns)

  add_storage_nodes_lem :
      (d : Machines) (nodes : List StorageNode)
      → add_storage_nodes args d nodes ≡ add_mentions d (storage_mentions nodes)
  unfolding add_storage_nodes add_mentions
  add_storage_nodes_lem d [] = refl
  add_storage_nodes_lem d (n ∷ ns) =
      rw add_ip_lem (add_storage_nodes_lem (add_mention d (ip_mention args false n.ip)) ns)

  add_shards_lem :
      (d : Machines) (shards : List Shard)
      → add_shards args d shards ≡ add_mentions d (shard_mentions shards)
  unfolding add_shards add_mentions
  add_shards_lem d [] = refl
  add_shards_lem d (s ∷ ss) =
      rw (add_mentions-append, add_storage_nodes_lem)
        (add_shards_lem (add_mentions d (storage_mentions s.nodes)) ss)

  add_comps_lem :
      (d : Machines) (nodes : List CompNode)
      → add_comps args d nodes ≡ add_mentions d (comp_mentions nodes)
  unfolding add_comps add_mentions
  add_comps_lem d [] = refl
  add_comps_lem d (n ∷ ns) =
      rw add_ip_lem (add_comps_lem (add_mention d (ip_mention args true n.ip)) ns)

  add_clustermgr_nodes_lem :
      (d : Machines) (nodes : List ClusterMgrNode)
      → add_clustermgr_nodes args d nodes ≡ add_mentions d (clustermgr_node_mentions nodes)
  unfolding add_clustermgr_nodes add_mentions
  add_clustermgr_nodes_lem d [] = refl
  add_clustermgr_nodes_lem d (n ∷ ns) =
      rw add_ip_lem (add_clustermgr_nodes_lem (add_mention d (ip_mention args false n.ip)) ns)

  add_clustermgr_lem :
      (d : Machines) (c : ClusterMgr)
      → add_clustermgr args d c ≡ add_mentions d (clustermgr_mentions c.ip c.nodes)
  unfolding add_clustermgr
  add_clustermgr_lem d c = elim (Option-cases c.ip) [
    | inr (ip, e) ↦ rw e (unfold add_mentions in add_ip_lem args false d ip)
    | inl e ↦ elim (Option-cases c.nodes) [
      | inl f ↦ rw (e, f) (unfold add_mentions in refl)
      | inr (nodes, f) ↦ rw (e, f) (add_clustermgr_nodes_lem d nodes)
    ]
  ]

  add_haproxy_lem :
      (d : Machines) (h : Option Haproxy)
      → add_haproxy args d h ≡ add_mentions d (haproxy_mentions h)
  unfolding add_haproxy add_mentions
  add_haproxy_lem d none = refl
  add_haproxy_lem d (some h) = add_ip_lem args false d h.ip

  -- The addresses of a configuration in the order of the source, with the entry for each.
  abbrev pub mentions1 : OneKeyConfig → List Mention
  mentions1 jscfg =
      let c = jscfg.cluster in
      ((((item_mentions jscfg.machines ++ storage_mentions c.meta.nodes) ++ shard_mentions c.datas)
          ++ comp_mentions c.comps)
        ++ clustermgr_mentions c.clustermgr.ip c.clustermgr.nodes)
      ++ haproxy_mentions c.haproxy

  setup_machines1-eq-add_mentions :
      (jscfg : OneKeyConfig) (d : Machines)
      → setup_machines1 args jscfg d ≡ add_mentions d (mentions1 jscfg)
  unfolding setup_machines1
  setup_machines1-eq-add_mentions jscfg d = simp (
    add_mentions-append, add_items_lem, add_storage_nodes_lem, add_shards_lem, add_comps_lem,
    add_clustermgr_lem, add_haproxy_lem,
  )

  -- Under each address stands what the map held before, or else the first entry that the
  -- configuration gives for it: its item in `machines` comes before the default entry that its
  -- use by a metadata, data, computing, cluster-manager or proxy node makes (of which the first
  -- decides whether it has a computing node). Another address has no entry.
  pub lookup-setup_machines1 :
      (jscfg : OneKeyConfig) (d : Machines) (ip : String)
      → lookup ip (setup_machines1 args jscfg d)
        ≡ or_else (lookup ip d) (lookup ip (mentions1 jscfg))
  lookup-setup_machines1 jscfg d ip =
      rw setup_machines1-eq-add_mentions (lookup-add_mentions d (mentions1 jscfg) ip)

  comp_mentions-has :
      (ns : List CompNode) → All (λ (n : CompNode). has_key n.ip (comp_mentions ns) ≡ true) ns
  unfolding lookup
  comp_mentions-has [] = tt
  comp_mentions-has (n ∷ ns) = (
    rw (eq_refl n.ip) refl,
    All-map (λ (m : CompNode). has_key m.ip (comp_mentions ns) ≡ true)
        (λ (m : CompNode). has_key m.ip (comp_mentions (n ∷ ns)) ≡ true) ns (λ m h. ground arith)
        (comp_mentions-has ns),
  )

  -- Each computing node has a machine behind the set-up.
  pub setup_machines1-comps :
      (jscfg : OneKeyConfig) (d : Machines)
      → All
          (λ (n : CompNode). has_key n.ip (setup_machines1 args jscfg d) ≡ true)
          jscfg.cluster.comps
  setup_machines1-comps jscfg d =
      All-map (λ (n : CompNode). has_key n.ip (comp_mentions jscfg.cluster.comps) ≡ true)
        (λ (n : CompNode). has_key n.ip (setup_machines1 args jscfg d) ≡ true) jscfg.cluster.comps
        (λ n h. rw (lookup-setup_machines1 jscfg d n.ip) (simp lookup-append (ground arith)))
        (comp_mentions-has jscfg.cluster.comps)
