-- ===== src/Metadata/Transactions.antt =====
-- The statements of one change are one transaction.
use cloudnative.Base.{
  String, ◌==◌, ltb, Bool, true, false, not, ◌||◌, List, [], ◌∷◌, ◌++◌, length, or_default, All,
  All-append, ok, ◌≡◌, refl, if◌then◌else◌, ok-injective, subst, Bool-cases, inl, inr,
}
use cloudnative.NodeMgr.{NodeMgr}
use cloudnative.MultiDc.{DataCenter}
use cloudnative.Metadata.{
  Statement, start_transaction, commit, delete_stats, delete_server, insert_center, insert_server,
  update_server, used_text, each, insert_node, update_node, delete_node, insert_centers,
  storage_row, server_row, add_servernodes, remove_servernodes, process_servernodes,
  process_datacenters,
}

-- A statement that neither starts nor ends a transaction.
abbrev pub is_change : Statement → Bool
is_change start_transaction = false
is_change commit = false
is_change s = true

abbrev pub AreChanges : List Statement → Type 0
AreChanges ss = All (λ s. is_change s ≡ true) ss

-- It starts, changes and commits, in this order and each of the two ends once.
pub record IsTransaction (ss : List Statement) : Type 0 where
  pub changes : List Statement
  pub shape : ss ≡ start_transaction ∷ (changes ++ (commit ∷ []))
  pub all_change : AreChanges changes

each-AreChanges :
    (body : NodeMgr → List Statement) (ns : List NodeMgr)
    → ((n : NodeMgr) → AreChanges (body n))
    → AreChanges (each body ns)
each-AreChanges body [] f = tt
each-AreChanges body (n ∷ ns) f = All-append _ (body n) _ (f n) (each-AreChanges body ns f)

if-AreChanges :
    (b : Bool) (ss ts : List Statement)
    → AreChanges ss
    → AreChanges ts
    → AreChanges (if b then ss else ts)
if-AreChanges true ss ts s t = s
if-AreChanges false ss ts s t = t

if-change : (b : Bool) (s : Statement) → is_change s ≡ true → AreChanges (if b then s ∷ [] else [])
if-change true s c = (c, tt)
if-change false s c = tt

-- The shape that the bodies of the two loops of `add_servernodes` have.
two-AreChanges :
    (unset first second : Bool) (s t : Statement)
    → is_change s ≡ true
    → is_change t ≡ true
    → AreChanges
        (if unset then [] else (if first then s ∷ [] else []) ++ (if second then t ∷ [] else []))
two-AreChanges true first second s t c d = tt
two-AreChanges false first second s t c d =
    All-append (λ x. is_change x ≡ true) (if first then s ∷ [] else [])
      (if second then t ∷ [] else []) (if-change first s c) (if-change second t d)

insert_node-AreChanges : (n : NodeMgr) → AreChanges (insert_node n)
unfolding insert_node
insert_node-AreChanges n =
    two-AreChanges (n.skip || (n.nodetype == "none"))
      ((n.nodetype == "both") || (n.nodetype == "storage"))
      ((n.nodetype == "both") || (n.nodetype == "server")) (insert_server (storage_row n))
      (insert_server (server_row n)) refl refl

update_node-AreChanges : (n : NodeMgr) → AreChanges (update_node n)
unfolding update_node
update_node-AreChanges n =
    two-AreChanges ((n.nodetype == "none") || not n.skip) (ltb 0 (length n.storage_usedports))
      (ltb 0 (length n.server_usedports))
      (update_server n.storage_curport (used_text n.storage_usedports) n.ip "storage")
      (update_server n.server_curport (used_text n.server_usedports) n.ip "computer") refl refl

delete_node-AreChanges : (n : NodeMgr) → AreChanges (delete_node n)
unfolding delete_node
delete_node-AreChanges n =
    if-AreChanges n.skip [] (delete_stats n.ip ∷ delete_server n.ip ∷ []) tt (refl, (refl, tt))

insert_centers-AreChanges : (dcs : List DataCenter) → AreChanges (insert_centers dcs)
unfolding insert_centers
insert_centers-AreChanges [] = tt
insert_centers-AreChanges (dc ∷ dcs) =
    let rest = insert_centers-AreChanges dcs in
    if-AreChanges (or_default false dc.skip) (insert_centers dcs)
      (insert_center dc.name dc.province dc.city ∷ insert_centers dcs) rest (refl, rest)

append_assoc : (xs ys zs : List Statement) → (xs ++ ys) ++ zs ≡ xs ++ (ys ++ zs)
append_assoc [] ys zs = refl
append_assoc (x ∷ xs) ys zs = rw (append_assoc xs ys zs) refl

add_servernodes-IsTransaction : (ns : List NodeMgr) → IsTransaction (add_servernodes ns)
unfolding add_servernodes
add_servernodes-IsTransaction ns = record {
  changes = each insert_node ns ++ each update_node ns;
  shape = rw (append_assoc (each insert_node ns) (each update_node ns) (commit ∷ [])) refl;
  all_change =
      All-append _ (each insert_node ns) _ (each-AreChanges insert_node ns insert_node-AreChanges)
        (each-AreChanges update_node ns update_node-AreChanges);
}

remove_servernodes-IsTransaction : (ns : List NodeMgr) → IsTransaction (remove_servernodes ns)
unfolding remove_servernodes
remove_servernodes-IsTransaction ns = record {
  changes = each delete_node ns;
  shape = refl;
  all_change = each-AreChanges delete_node ns delete_node-AreChanges;
}

-- Whatever is done to node managers, where the operation is a known one, and the new data centers
-- are each executed as one transaction: it starts first, commits last, and in between there are
-- only inserts, updates and deletes.
pub process_servernodes-IsTransaction :
    (op : String) (nodes : List NodeMgr) (dcs : List DataCenter) (ss : List Statement)
    → process_servernodes op nodes ≡ ok ss
    → IsTransaction ss × IsTransaction (process_datacenters dcs)
unfolding process_servernodes process_datacenters
process_servernodes-IsTransaction op nodes dcs ss h = (
  elim (Bool-cases (op == "add")) [
    | inl adds ↦
        subst IsTransaction (ok-injective (rw adds at h)) (add_servernodes-IsTransaction nodes)
    | inr other ↦ elim (Bool-cases (op == "remove")) [
      | inl removes ↦
          subst IsTransaction (ok-injective (rw (other, removes) at h))
            (remove_servernodes-IsTransaction nodes)
      | inr unknown ↦ cc
    ]
  ],
  record { changes = insert_centers dcs; shape = refl; all_change = insert_centers-AreChanges dcs },
)
