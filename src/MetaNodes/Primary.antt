-- ===== src/MetaNodes/Primary.antt =====
-- `setup_metanodes_onedc` on a shard with one primary.
use cloudnative.Base.{
  ℕ, suc, ◌+◌, ◌<◌, ◌≤◌, eqb, true, is_some, some, List, [], ◌∷◌, map, length, All, ok, ◌≡◌, refl,
  arith, inl, inr, Bool-cases, if◌then◌else◌,
}
use cloudnative.Config.{StorageNode}
use cloudnative.OneKey.Shards.Primary.{primaries, is_marked}
use cloudnative.MetaNodes.{Mapping, at_own_index, first_primary, other_nodes, setup_metanodes_onedc}

-- From position `i` on the one at `p`, and no other, is the primary.
abbrev pub IsPrimaryAt : ℕ → ℕ → List StorageNode → Type 0
IsPrimaryAt p i [] = Unit
IsPrimaryAt p i (n ∷ ns) = (n.is_primary ≡ some (eqb i p)) × IsPrimaryAt p (suc i) ns

abbrev pub IsGiven : StorageNode → Type 0
IsGiven n = is_some n.is_primary ≡ true

-- The positions of a list without one of them.
abbrev pub others : ℕ → ℕ → List StorageNode → List ℕ
others p i [] = []
others p i (n ∷ ns) = let rest = others p (suc i) ns in if eqb i p then rest else i ∷ rest

abbrev pub replica_of : ℕ → ℕ → Mapping
replica_of p i = record { host = i; master = p }

none_primary :
    (p i : ℕ) (ns : List StorageNode)
    → p < i
    → primaries ns ≡ 0
    → All IsGiven ns
    → IsPrimaryAt p i ns
none_primary p i [] l h g = tt
none_primary p i (n ∷ ns) l h g =
    (ground arith, none_primary p (suc i) ns (omega arith) (omega arith) g.1)

IsPrimaryAt-exists :
    (i : ℕ) (ns : List StorageNode)
    → primaries ns ≡ 1
    → All IsGiven ns
    → (p : ℕ) × (i ≤ p) × (p < i + length ns) × IsPrimaryAt p i ns
IsPrimaryAt-exists i [] h g = ground arith
IsPrimaryAt-exists i (n ∷ ns) h g = elim (Bool-cases (is_marked n)) [
  | inl marked ↦ (
    i,
    omega arith,
    omega arith,
    (ground arith, none_primary i (suc i) ns (omega arith) (ground arith) g.1),
  )
  | inr plain ↦
      let (p, le, lt, at) = IsPrimaryAt-exists (suc i) ns (ground arith) g.1 in
      (p, omega arith, omega arith, (ground arith, at))
]

first_primary-IsPrimaryAt :
    (p i : ℕ) (ns : List StorageNode)
    → i ≤ p
    → p < i + length ns
    → IsPrimaryAt p i ns
    → first_primary i ns ≡ ok (some p)
unfolding first_primary
first_primary-IsPrimaryAt p i [] le lt at = ground arith
first_primary-IsPrimaryAt p i (n ∷ ns) le lt at =
    ground (arith, first_primary-IsPrimaryAt p (suc i) ns)

other_nodes-others :
    (p i : ℕ) (ns : List StorageNode)
    → IsPrimaryAt p i ns
    → other_nodes (some p) i ns
      ≡ ok (map at_own_index (others p i ns), map (replica_of p) (others p i ns))
unfolding other_nodes
other_nodes-others p i [] at = refl
other_nodes-others p i (n ∷ ns) at = ground (arith, other_nodes-others p (suc i) ns at.1)

-- Where every node of the shard says whether it is the primary, and exactly one is, the setup in
-- one data center succeeds: it installs that node first and every other node once, in the order of
-- the list, each at its own index of the common file, and each of the others replicates from the
-- primary.
pub setup_metanodes_onedc-primaries :
    (nodes : List StorageNode)
    → primaries nodes ≡ 1
    → All IsGiven nodes
    → (p : ℕ) × (p < length nodes)
      × IsPrimaryAt p 0 nodes
      × (setup_metanodes_onedc nodes
          ≡ ok (map at_own_index (p ∷ others p 0 nodes), map (replica_of p) (others p 0 nodes)))
unfolding setup_metanodes_onedc
setup_metanodes_onedc-primaries nodes h g =
    let (p, le, lt, at) = IsPrimaryAt-exists 0 nodes h g in
    let less : p < length nodes = omega (arith, lt) in
    (
      p,
      less,
      at,
      (rw (first_primary-IsPrimaryAt p 0 nodes le lt at)
          (rw (other_nodes-others p 0 nodes at) refl)),
    )
