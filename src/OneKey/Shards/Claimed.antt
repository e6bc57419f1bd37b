-- ===== src/OneKey/Shards/Claimed.antt =====
-- Which ports and directories the checks of a shard claim.
use cloudnative.Base.{
  String, ℕ, Bool, Option, none, some, List, [], ◌∷◌, ◌++◌, Error, duplicate_port,
  duplicate_directory, ok, >>=-eq-ok, ◌≡◌, refl, ap, subst, arith, nat_eq, string_eq,
}
use cloudnative.Config.{StorageNode}
use cloudnative.Claims.{add_port_to_machine, add_dir_to_machine}
use cloudnative.Claims.Distinct.{claim_all, claim_all-append}
use cloudnative.OneKey.Shards.{Taken, claim_node, check_primary, check_nodes, mark_last}

-- A value that a node may have, as a claim on its host.
abbrev pub optional_claim : {V : Type 0} → String → Option V → List (String × V)
optional_claim ip none = []
optional_claim ip (some v) = (ip, v) ∷ []

abbrev pub node_ports : StorageNode → List (String × ℕ)
node_ports n =
    optional_claim n.ip n.port ++ (optional_claim n.ip n.xport ++ optional_claim n.ip n.mgr_port)

abbrev pub node_dirs : StorageNode → List (String × String)
node_dirs n =
    optional_claim n.ip n.data_dir_path
    ++ (optional_claim n.ip n.log_dir_path ++ optional_claim n.ip n.innodb_log_dir_path)

-- Going from `t` to `u` claimed just these ports and directories, in this order.
pub record Claimed (t : Taken) (ports : List (String × ℕ)) (dirs : List (String × String))
    (u : Taken) : Type 0 where
  pub ports_claimed : claim_all duplicate_port t.ports ports ≡ ok u.ports
  pub dirs_claimed : claim_all duplicate_directory t.dirs dirs ≡ ok u.dirs

claim_node-ports :
    (t u : Taken) (n : StorageNode)
    → claim_node t n ≡ ok u
    → claim_all duplicate_port t.ports (node_ports n) ≡ ok u.ports
unfolding claim_node add_port_to_machine claim_all
claim_node-ports t u n h = ground arith

claim_node-dirs :
    (t u : Taken) (n : StorageNode)
    → claim_node t n ≡ ok u
    → claim_all duplicate_directory t.dirs (node_dirs n) ≡ ok u.dirs
unfolding claim_node add_dir_to_machine claim_all
claim_node-dirs t u n h = ground arith

-- One series of claims behind another.
pub Claimed-append :
    (t u v : Taken) (ps qs : List (String × ℕ)) (ds es : List (String × String))
    → Claimed t ps ds u
    → Claimed u qs es v
    → Claimed t (ps ++ qs) (ds ++ es) v
Claimed-append t u v ps qs ds es c d = record {
  ports_claimed = rw (claim_all-append, c.ports_claimed) d.ports_claimed;
  dirs_claimed = rw (claim_all-append, c.dirs_claimed) d.dirs_claimed;
}

pub Claimed-nil : (t : Taken) → Claimed t [] [] t
unfolding claim_all
Claimed-nil t = record { ports_claimed = refl; dirs_claimed = refl }

pub claim_node-Claimed :
    (t u : Taken) (n : StorageNode)
    → claim_node t n ≡ ok u
    → Claimed t (node_ports n) (node_dirs n) u
claim_node-Claimed t u n h = record {
  ports_claimed = claim_node-ports t u n h;
  dirs_claimed = claim_node-dirs t u n h;
}

abbrev pub nodes_ports : List StorageNode → List (String × ℕ)
nodes_ports [] = []
nodes_ports (n ∷ ns) = node_ports n ++ nodes_ports ns

abbrev pub nodes_dirs : List StorageNode → List (String × String)
nodes_dirs [] = []
nodes_dirs (n ∷ ns) = node_dirs n ++ nodes_dirs ns

pub check_nodes-Claimed :
    (two : Error) (t u : Taken) (has has' : Bool) (ns : List StorageNode)
    → check_nodes two t has ns ≡ ok (u, has')
    → Claimed t (nodes_ports ns) (nodes_dirs ns) u
unfolding check_nodes
check_nodes-Claimed two t u has has' [] h =
    let e : t ≡ u = ground arith in subst (λ v. Claimed t [] [] v) e (Claimed-nil t)
check_nodes-Claimed two t u has has' (n ∷ ns) h =
    let (t1, claimed, h1) = >>=-eq-ok (claim_node t n) _ h in
    let (has1, marked, h2) = >>=-eq-ok (check_primary two has n) _ h1 in
    Claimed-append t t1 u _ _ _ _ (claim_node-Claimed t t1 n claimed)
      (check_nodes-Claimed two t1 u has1 has' ns h2)

pub mark_last-ports : (ns : List StorageNode) → nodes_ports (mark_last ns) ≡ nodes_ports ns
unfolding mark_last
mark_last-ports [] = refl
mark_last-ports (n ∷ []) = refl
mark_last-ports (n ∷ m ∷ ns) = ap (λ l. node_ports n ++ l) (mark_last-ports (m ∷ ns))

pub mark_last-dirs : (ns : List StorageNode) → nodes_dirs (mark_last ns) ≡ nodes_dirs ns
unfolding mark_last
mark_last-dirs [] = refl
mark_last-dirs (n ∷ []) = refl
mark_last-dirs (n ∷ m ∷ ns) = ap (λ l. node_dirs n ++ l) (mark_last-dirs (m ∷ ns))
