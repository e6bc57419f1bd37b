-- ===== src/OneKey/Shards/Primary.antt =====
-- How many nodes of a shard are marked as the primary.
use cloudnative.Base.{
  ℕ, ◌+◌, Bool, true, false, List, [], ◌∷◌, or_default, length, Error, ok, >>=-eq-ok, ◌≡◌, refl,
  arith,
}
use cloudnative.Config.{StorageNode}
use cloudnative.OneKey.Shards.{Taken, claim_node, check_primary, check_nodes, mark_last}

abbrev pub bit : Bool → ℕ
bit true = 1
bit false = 0

abbrev pub is_marked : StorageNode → Bool
is_marked n = or_default false n.is_primary

-- The number of primaries.
abbrev pub primaries : List StorageNode → ℕ
primaries [] = 0
primaries (n ∷ ns) = bit (is_marked n) + primaries ns

pub check_primary-bit :
    (two : Error) (has has' : Bool) (n : StorageNode)
    → check_primary two has n ≡ ok has'
    → bit has' ≡ bit has + bit (is_marked n)
unfolding check_primary
check_primary-bit two has has' n h = ground arith

pub check_nodes-primaries :
    (two : Error) (t u : Taken) (has has' : Bool) (ns : List StorageNode)
    → check_nodes two t has ns ≡ ok (u, has')
    → bit has' ≡ bit has + primaries ns
unfolding check_nodes
check_nodes-primaries two t u has has' [] h = ground arith
check_nodes-primaries two t u has has' (n ∷ ns) h =
    let (t1, claimed, h1) = >>=-eq-ok (claim_node t n) _ h in
    let (has1, marked, h2) = >>=-eq-ok (check_primary two has n) _ h1 in
    omega (
      arith,
      check_primary-bit two has has1 n marked,
      check_nodes-primaries two t1 u has1 has' ns h2,
    )

pub mark_last-primaries : (n : StorageNode) → primaries (mark_last (n ∷ [])) ≡ 1
unfolding mark_last
mark_last-primaries n = refl

pub mark_last-length : (ns : List StorageNode) → length (mark_last ns) ≡ length ns
unfolding mark_last
mark_last-length [] = refl
mark_last-length (n ∷ []) = refl
mark_last-length (n ∷ m ∷ ns) = omega (arith, mark_last-length (m ∷ ns))
