-- ===== src/NodeMgr/Counters.antt =====
-- `get_nodemgr_nextport`: the ports that a node manager gives out.
use cloudnative.Base.{String, ◌==◌, ℕ, ◌+◌, ◌≤◌, ◌<◌, List, [], ◌∷◌, All, if◌then◌else◌, ◌≡◌, arith}
use cloudnative.NodeMgr.{NodeMgr, get_nodemgr_nextport}

-- The counter of one type of node; all but `storage` use the other one.
abbrev pub counter : String → NodeMgr → ℕ
counter nodetype n = if nodetype == "storage" then n.storage_curport else n.server_curport

-- The ports given out for a series of requests of one type, each with its increment.
pub next_ports : NodeMgr → String → List ℕ → List ℕ
next_ports n nodetype [] = []
next_ports n nodetype (incr ∷ incrs) =
    let (port, n') = get_nodemgr_nextport n nodetype incr in port ∷ next_ports n' nodetype incrs

abbrev pub Increasing : ℕ → List ℕ → Type 0
Increasing low [] = Unit
Increasing low (p ∷ ps) = (low ≤ p) × Increasing (p + 1) ps

nextport-counter :
    (n : NodeMgr) (nodetype : String) (incr : ℕ)
    → ((get_nodemgr_nextport n nodetype incr).0 ≡ counter nodetype n)
      × (counter nodetype (get_nodemgr_nextport n nodetype incr).1 ≡ counter nodetype n + incr)
unfolding get_nodemgr_nextport
nextport-counter n nodetype incr = (ground arith, ground arith)

Increasing-weaken :
    (low low' : ℕ) (ps : List ℕ) → low ≤ low' → Increasing low' ps → Increasing low ps
Increasing-weaken low low' [] h i = tt
Increasing-weaken low low' (p ∷ ps) h i = (omega arith, i.1)

-- With positive increments a node manager gives out ports in strictly increasing order from its
-- counter on, so none twice.
pub next_ports-Increasing :
    (n : NodeMgr) (nodetype : String) (incrs : List ℕ)
    → All (λ i. 0 < i) incrs
    → Increasing (counter nodetype n) (next_ports n nodetype incrs)
unfolding next_ports
next_ports-Increasing n nodetype [] h = tt
next_ports-Increasing n nodetype (incr ∷ incrs) h =
    let (given, next) = nextport-counter n nodetype incr in
    let rest = next_ports-Increasing (get_nodemgr_nextport n nodetype incr).1 nodetype incrs h.1 in
    (omega arith, Increasing-weaken _ _ _ (omega arith) rest)
