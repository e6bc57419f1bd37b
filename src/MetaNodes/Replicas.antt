-- ===== src/MetaNodes/Replicas.antt =====
-- `setup_metanodes_multidc`: which nodes are installed, and who replicates.
use cloudnative.Base.{
  inl, inr, suc, ◌⊎◌, none, true, is_some, ℕ, ◌+◌, ◌≤◌, Option, some, List, [], ◌∷◌, ◌++◌, length,
  All, ok, ◌≡◌, refl, ap, ◌∙◌, arith, zero,
}
use cloudnative.MetaNodes.{
  setup_metanodes_multidc, nothing, second_of, reorder, Progress, place, place_primary_rest,
}
use cloudnative.MetaNodes.Placed.{
  Placed-trans, place-Placed, place_primary_rest-Placed, place_primary_rest-node,
  place_secondaries-Placed, place_standbys-Placed, nodes_of, files_of, hosts_of, upwards, joined,
  rest_of, rests, last_of, standby_hosts, IsFilled,
}

second_of-some :
    (second : Option ℕ) (nodes : List ℕ)
    → (is_some second ≡ true) ⊎ (1 ≤ length nodes)
    → (master : ℕ) × (second_of second nodes ≡ ok master)
unfolding second_of
second_of-some (some n) nodes h = (n, refl)
second_of-some none (n ∷ ns) h = (n, refl)
second_of-some none [] h = ground (arith, h)

second_or_more :
    (second : Option ℕ) (a n : ℕ)
    → (1 ≤ a + 0 → is_some second ≡ true)
    → 2 ≤ suc n + a
    → (is_some second ≡ true) ⊎ (1 ≤ n)
second_or_more second zero n f two = inr (omega arith)
second_or_more second (suc a) n f two = inl (f (omega arith))

-- The outcome of the setup: every node is installed once, each from a file of its own, in the order
-- of the data centers. Every node but the first one replicates from another, except that for the
-- nodes behind the first one of a standby data center the element names `left`, the last of the nodes
-- behind the first one of a secondary data center or, if there are none, the last node of the primary
-- data center.
pub record IsReplicated (primary : List ℕ) (secondaries standbys : List (List ℕ)) (s : Progress)
    : Type 0 where
  pub nodes : nodes_of s ≡ primary ++ (joined secondaries ++ joined standbys)
  pub files : files_of s ≡ upwards 0 (primary ++ (joined secondaries ++ joined standbys))
  pub left : ℕ
  pub is_left : left ≡ last_of (last_of 0 primary) (rests secondaries)
  pub hosts : hosts_of s ≡ rest_of primary ++ (joined secondaries ++ standby_hosts left standbys)

reorder-IsReplicated :
    (primary : List ℕ) (secondaries standbys : List (List ℕ))
    → 1 ≤ length primary
    → 2 ≤ length primary + length secondaries
    → All IsFilled secondaries
    → All IsFilled standbys
    → (s : Progress) × (reorder primary secondaries standbys ≡ ok s)
      × IsReplicated primary secondaries standbys s
unfolding reorder
reorder-IsReplicated [] secondaries standbys h two f g = ground arith
reorder-IsReplicated (node0 ∷ nodes) secondaries standbys h two f g =
    let s0 = place node0 0 1 (nothing node0) in
    let s1 = place_primary_rest node0 1 nodes s0 in
    let p1 =
      Placed-trans (place-Placed node0 0 1 (nothing node0))
        (place_primary_rest-Placed node0 1 nodes s0) in
    let (second, s2, eq2, p2, node2, some_one) =
      place_secondaries-Placed node0 none secondaries s1 f in
    let (master, found) =
      second_of-some second nodes
        (second_or_more second (length secondaries) (length nodes) some_one two) in
    let (s3, eq3, p3) = place_standbys-Placed master standbys s2 g in
    let p = Placed-trans p1 (Placed-trans p2 p3) in
    (
      s3,
      rw eq2 (rw found eq3),
      record {
        nodes = p.nodes;
        files = p.files;
        left = s2.node;
        is_left =
            node2
            ∙ ap (λ n. last_of n (rests secondaries)) (place_primary_rest-node node0 1 nodes s0);
        hosts = p.hosts;
      },
    )

-- Where there are metadata nodes, the primary data center has one, it has two or there is a
-- secondary data center, and no other data center is empty, the setup in several data centers
-- succeeds. Every node is then installed once, each from a file of its own, in the order primary,
-- secondary, standby data centers, and every node but the first is the host of one element of the
-- replication, in the same order, except that an element for a node behind the first one of a standby
-- data center names another host: the last of the nodes that stand behind the first one of a
-- secondary data center or, if there are none, the last node of the primary data center, which may
-- be its only one.
pub setup_metanodes_multidc-IsReplicated :
    (total : ℕ) (primary : List ℕ) (secondaries standbys : List (List ℕ))
    → 1 ≤ total
    → 1 ≤ length primary
    → 2 ≤ length primary + length secondaries
    → All IsFilled secondaries
    → All IsFilled standbys
    → (s : Progress) × (setup_metanodes_multidc total primary secondaries standbys ≡ ok s)
      × IsReplicated primary secondaries standbys s
unfolding setup_metanodes_multidc
setup_metanodes_multidc-IsReplicated zero primary secondaries standbys some_node h two f g =
    ground arith
setup_metanodes_multidc-IsReplicated (suc total) primary secondaries standbys some_node h two f g =
    reorder-IsReplicated primary secondaries standbys h two f g
