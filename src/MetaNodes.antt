-- ===== src/MetaNodes.antt =====
-- cluster/setup_cluster_manager.py: `setup_metanodes_onedc` and `setup_metanodes_multidc`, the order
-- in which the metadata nodes are installed and who replicates from whom. A node stands here by its
-- position in `meta['nodes']`, as the source passes the objects of that list around.
pub mod Primary
pub mod Placed
pub mod Replicas
use cloudnative.Base.{
  ℕ, zero, suc, ◌+◌, ◌-◌, Option, none, some, List, [], ◌∷◌, ◌++◌, length, or_default, Result, ok,
  err, index_error, none_error, need, ◌>>=◌, if◌then◌else◌,
}
use cloudnative.Config.{StorageNode}

-- An item of `metanodes`: the node, the number of its file, its index in it, and `fullsync`.
pub record Placement : Type 0 where
  pub node : ℕ
  pub file : ℕ
  pub index : ℕ
  pub fullsync : ℕ

-- An item of `nodemapmaster`: `host` replicates from `master`.
pub record Mapping : Type 0 where
  pub host : ℕ
  pub master : ℕ

-- In one data center: the first node that is the primary, from a position on.
unfoldable pub first_primary : ℕ → List StorageNode → Result (Option ℕ)
first_primary idx [] = ok none
first_primary idx (node ∷ nodes) = do
  primary ← need "is_primary" node.is_primary
  if primary then ok (some idx) else first_primary (idx + 1) nodes

-- All of one data center are in one file, at their own index.
abbrev pub at_own_index : ℕ → Placement
at_own_index idx = record { node = idx; file = 0; index = idx; fullsync = 1 }

-- The loop over the nodes that are not the primary; `pnode` may still be `None`.
unfoldable pub other_nodes :
    Option ℕ → ℕ → List StorageNode → Result (List Placement × List Mapping)
other_nodes pnode idx [] = ok ([], [])
other_nodes pnode idx (node ∷ nodes) = do
  primary ← need "is_primary" node.is_primary
  if primary then other_nodes pnode (idx + 1) nodes else (do
    master ← elim pnode [ none ↦ err none_error | some p ↦ ok p ]
    (placements, mappings) ← other_nodes pnode (idx + 1) nodes
    ok (at_own_index idx ∷ placements, record { host = idx; master = master } ∷ mappings))

abbrev pub primary_first : Option ℕ → List Placement → List Placement
primary_first none others = others
primary_first (some p) others = at_own_index p ∷ others

unfoldable pub setup_metanodes_onedc : List StorageNode → Result (List Placement × List Mapping)
unfolding first_primary other_nodes
setup_metanodes_onedc nodes = do
  pnode ← first_primary 0 nodes
  (others, mappings) ← other_nodes pnode 0 nodes
  ok (primary_first pnode others, mappings)

-- What the loops over several data centers change: `metanodes`, `elements`, the number `i` of the
-- next file, the nodes that are marked as a primary, and the variable `node`, which keeps its value
-- behind a loop.
pub record Progress : Type 0 where
  pub metanodes : List Placement
  pub elements : List Mapping
  pub next : ℕ
  pub marked : List ℕ
  pub node : ℕ

abbrev pub place : ℕ → ℕ → ℕ → Progress → Progress
place node index fullsync s = record s {
  metanodes =
      s.metanodes
      ++ (record { node = node; file = s.next; index = index; fullsync = fullsync } ∷ []);
  next = s.next + 1;
}

abbrev pub follow : ℕ → ℕ → Progress → Progress
follow host master s = record s {
  elements = s.elements ++ (record { host = host; master = master } ∷ []);
}

-- The nodes behind the first one of the primary data center, from an index on.
unfoldable pub place_primary_rest : ℕ → ℕ → List ℕ → Progress → Progress
place_primary_rest node0 j [] s = s
place_primary_rest node0 j (node ∷ nodes) s =
    place_primary_rest node0 (j + 1) nodes
      (follow node node0 (place node j 1 (record s { node = node })))

-- The nodes behind the first one of a secondary data center.
unfoldable pub place_secondary_rest : ℕ → ℕ → List ℕ → Progress → Progress
place_secondary_rest node0 j [] s = s
place_secondary_rest node0 j (node ∷ nodes) s =
    place_secondary_rest node0 (j + 1) nodes
      (follow node node0 (place node j 0 (record s { node = node })))

-- The same of a standby data center, where the element is about the variable `node`, which this
-- loop does not set.
unfoldable pub place_standby_rest : ℕ → ℕ → List ℕ → Progress → Progress
place_standby_rest node0 j [] s = s
place_standby_rest node0 j (node ∷ nodes) s =
    place_standby_rest node0 (j + 1) nodes (follow s.node node0 (place node j 0 s))

abbrev pub mark : ℕ → Progress → Progress
mark node s = record s { marked = node ∷ s.marked }

-- The secondary data centers, and the first node of the first one.
unfoldable pub place_secondaries :
    ℕ → Option ℕ → List (List ℕ) → Progress → Result (Option ℕ × Progress)
unfolding place_secondary_rest
place_secondaries pdcmaster sdcmaster [] s = ok (sdcmaster, s)
place_secondaries pdcmaster sdcmaster ([] ∷ dcs) s = err index_error
place_secondaries pdcmaster sdcmaster ((node0 ∷ nodes) ∷ dcs) s =
    place_secondaries pdcmaster (some (or_default node0 sdcmaster)) dcs
      (place_secondary_rest node0 1 nodes (mark node0 (follow node0 pdcmaster (place node0 1 1 s))))

unfoldable pub place_standbys : ℕ → List (List ℕ) → Progress → Result Progress
unfolding place_standby_rest
place_standbys sdcmaster [] s = ok s
place_standbys sdcmaster ([] ∷ dcs) s = err index_error
place_standbys sdcmaster ((node0 ∷ nodes) ∷ dcs) s =
    place_standbys sdcmaster dcs
      (place_standby_rest node0 1 nodes (mark node0 (follow node0 sdcmaster (place node0 1 0 s))))

-- `if sdcmaster is None: sdcmaster = dc_meta_map[…][1]`
second_of : Option ℕ → List ℕ → Result ℕ
second_of (some p) rest = ok p
second_of none [] = err index_error
second_of none (p ∷ ps) = ok p

-- What the loops begin with.
abbrev pub nothing : ℕ → Progress
nothing node = record { metanodes = []; elements = []; next = 0; marked = []; node = node }

-- The nodes of the primary data center, of the secondary ones and of the standby ones, by their
-- positions; the primary one has the master in front.
unfoldable pub reorder : List ℕ → List (List ℕ) → List (List ℕ) → Result Progress
unfolding place_primary_rest place_secondaries place_standbys second_of
reorder [] secondaries standbys = err index_error
reorder (node0 ∷ nodes) secondaries standbys = do
  let first = place_primary_rest node0 1 nodes (place node0 0 1 (nothing node0))
  (sdcmaster, second) ← place_secondaries node0 none secondaries first
  master ← second_of sdcmaster nodes
  place_standbys master standbys second

-- `total` is `len(meta['nodes'])`.
unfoldable pub setup_metanodes_multidc :
    ℕ → List ℕ → List (List ℕ) → List (List ℕ) → Result Progress
unfolding reorder
setup_metanodes_multidc zero primary secondaries standbys = ok (nothing 0)
setup_metanodes_multidc (suc total) primary secondaries standbys =
    reorder primary secondaries standbys

-- `meta['fullsync_level']` in several data centers.
unfoldable pub fullsync_level : List ℕ → List (List ℕ) → ℕ
fullsync_level primary secondaries = (length primary + length secondaries) - 1
