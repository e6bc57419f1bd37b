-- ===== src/Metadata/ServerNodes.antt =====
-- `add_servernodes` and `remove_servernodes`: the rows that they make and delete.
use mathlib.Core.Path.{subst⁻¹}
use mathlib.Core.List.{append-nil}
use cloudnative.Base.{
  All-map, String, ◌==◌, eq_iff, Bool, true, false, not, ◌&&◌, List, [], ◌∷◌, ◌++◌, All, contains,
  string_eq, ◌≡◌, refl, ap, arith, if◌then◌else◌, ◌∙◌, Bool-cases, inl, inr,
}
use cloudnative.NodeMgr.{NodeMgr}
use cloudnative.NodeMgr.Types.{serves}
use cloudnative.Metadata.{
  Statement, start_transaction, commit, insert_center, insert_server, update_server, delete_stats,
  delete_server, each, insert_node, update_node, delete_node, storage_row, server_row,
  add_servernodes, remove_servernodes,
}

-- The keys of the rows that are inserted: a host and a type of node.
abbrev pub inserted : List Statement → List (String × String)
inserted [] = []
inserted (insert_server row ∷ ss) = (row.hostaddr, row.machine_type) ∷ inserted ss
inserted (s ∷ ss) = inserted ss

-- The hosts whose rows are deleted.
abbrev pub deleted : List Statement → List String
deleted [] = []
deleted (delete_server ip ∷ ss) = ip ∷ deleted ss
deleted (s ∷ ss) = deleted ss

-- The rows that the new node managers are to have: one for each type that they serve.
abbrev pub wanted : List NodeMgr → List (String × String)
wanted [] = []
wanted (n ∷ ns) =
    (if not n.skip && serves n.nodetype "storage" then (n.ip, "storage") ∷ [] else [])
    ++ ((if not n.skip && serves n.nodetype "server" then (n.ip, "computer") ∷ [] else [])
        ++ wanted ns)

-- The hosts of the new node managers.
abbrev pub new_hosts : List NodeMgr → List String
new_hosts [] = []
new_hosts (n ∷ ns) = if n.skip then new_hosts ns else n.ip ∷ new_hosts ns

inserted-append : (ss ts : List Statement) → inserted (ss ++ ts) ≡ inserted ss ++ inserted ts
inserted-append [] ts = refl
inserted-append (start_transaction ∷ ss) ts = inserted-append ss ts
inserted-append (commit ∷ ss) ts = inserted-append ss ts
inserted-append (insert_center n p c ∷ ss) ts = inserted-append ss ts
inserted-append (insert_server r ∷ ss) ts =
    ap (λ xs. (r.hostaddr, r.machine_type) ∷ xs) (inserted-append ss ts)
inserted-append (update_server c u h m ∷ ss) ts = inserted-append ss ts
inserted-append (delete_stats h ∷ ss) ts = inserted-append ss ts
inserted-append (delete_server h ∷ ss) ts = inserted-append ss ts

inserted-each_update : (ns : List NodeMgr) → inserted (each update_node ns ++ (commit ∷ [])) ≡ []
unfolding update_node
inserted-each_update [] = refl
inserted-each_update (n ∷ ns) = ground (arith, inserted-each_update ns)

none-serves :
    (t : String) → (t == "none") ≡ true → (serves t "storage" ≡ false) × (serves t "server" ≡ false)
none-serves t e =
    subst⁻¹ (λ x. (serves x "storage" ≡ false) × (serves x "server" ≡ false))
      ((eq_iff t "none").0 e) (refl, refl)

inserted-each_insert :
    (ns : List NodeMgr) (ss : List Statement)
    → inserted (each insert_node ns ++ ss) ≡ wanted ns ++ inserted ss
unfolding insert_node storage_row server_row
inserted-each_insert [] ss = refl
inserted-each_insert (n ∷ ns) ss = elim (Bool-cases (n.nodetype == "none")) [
  | inl unset ↦
      let (no_storage, no_server) = none-serves n.nodetype unset in
      ground (arith, inserted-each_insert ns ss)
  | inr kind ↦ ground (arith, inserted-each_insert ns ss)
]

deleted-each_delete :
    (ns : List NodeMgr) → deleted (each delete_node ns ++ (commit ∷ [])) ≡ new_hosts ns
unfolding delete_node
deleted-each_delete [] = refl
deleted-each_delete (n ∷ ns) = ground (arith, deleted-each_delete ns)

All-contains :
    (k : String) (xs : List (String × String)) (ys : List String)
    → All (λ row. contains row.0 ys ≡ true) xs
    → All (λ row. contains row.0 (k ∷ ys) ≡ true) xs
unfolding contains
All-contains k xs ys h = All-map _ _ xs (λ row c. ground arith) h

self-contains : (ip : String) (hosts : List String) → contains ip (ip ∷ hosts) ≡ true
unfolding contains
self-contains ip hosts = ground (arith, eq_iff ip ip)

-- The rows of one node manager, in front of the others.
rows-hosts :
    (skip storage server : Bool) (ip : String) (rows : List (String × String)) (hosts : List String)
    → All (λ row. contains row.0 hosts ≡ true) rows
    → All
        (λ row. contains row.0 (if skip then hosts else ip ∷ hosts) ≡ true)
        ((if not skip && storage then (ip, "storage") ∷ [] else [])
          ++ ((if not skip && server then (ip, "computer") ∷ [] else []) ++ rows))
rows-hosts true storage server ip rows hosts h = h
rows-hosts false true true ip rows hosts h =
    (self-contains ip hosts, (self-contains ip hosts, All-contains ip rows hosts h))
rows-hosts false true false ip rows hosts h = (self-contains ip hosts, All-contains ip rows hosts h)
rows-hosts false false true ip rows hosts h = (self-contains ip hosts, All-contains ip rows hosts h)
rows-hosts false false false ip rows hosts h = All-contains ip rows hosts h

wanted-new_hosts :
    (ns : List NodeMgr) → All (λ row. contains row.0 (new_hosts ns) ≡ true) (wanted ns)
wanted-new_hosts [] = tt
wanted-new_hosts (n ∷ ns) =
    rows-hosts n.skip (serves n.nodetype "storage") (serves n.nodetype "server") n.ip (wanted ns)
      (new_hosts ns) (wanted-new_hosts ns)

-- Adding node managers inserts exactly one row for each new one and each type of node that it
-- serves, in their order. Removing them deletes the rows of exactly the hosts of the new ones, so
-- each host for which a row was inserted is among those that are deleted.
pub add_servernodes-Inserts :
    (nodes : List NodeMgr)
    → (inserted (add_servernodes nodes) ≡ wanted nodes)
      × (deleted (remove_servernodes nodes) ≡ new_hosts nodes)
      × All
          (λ row. contains row.0 (deleted (remove_servernodes nodes)) ≡ true)
          (inserted (add_servernodes nodes))
unfolding add_servernodes remove_servernodes
add_servernodes-Inserts nodes =
    let ins =
      inserted-each_insert nodes (each update_node nodes ++ (commit ∷ []))
      ∙ ap (λ xs. wanted nodes ++ xs) (inserted-each_update nodes)
      ∙ append-nil (wanted nodes) in
    let del = deleted-each_delete nodes in (ins, del, rw (ins, del) (wanted-new_hosts nodes))
