-- ===== src/MultiDc/Located.antt =====
-- Where the hosts of a configuration of several data centers are, described by its node managers, and
-- what the maps from a data center hold of them.
pub mod NodeMgrs
pub mod Managers
pub mod Metas
use cloudnative.Base.{
  String, ◌==◌, Bool, true, false, Option, none, some, List, [], ◌∷◌, ◌++◌, Dict, lookup,
  or_default, ◌≡◌, refl, ap, ◌∙◌, eq_iff, arith, if◌then◌else◌, Bool-cases, inl, inr,
}
use mathlib.Core.List.{append_assoc}
use cloudnative.NodeMgr.{NodeMgrItem}
use cloudnative.ListMaps.{add_to_list_map}
use cloudnative.ListMaps.Members.{lookup-add_to_list_map}

-- The data center of the node manager on a host.
unfoldable pub host_center : List NodeMgrItem → String → Option String
host_center [] ip = none
host_center (item ∷ items) ip = if item.ip == ip then item.dc else host_center items ip

-- The first of two that is given.
abbrev pub or_else {ℓ} : {A : Type ℓ} → Option A → Option A → Option A
or_else none other = other
or_else (some a) other = some a

abbrev pub is_in : String → Option String → Bool
is_in dc none = false
is_in dc (some place) = place == dc

-- The list under a key, which is empty if there is none.
abbrev pub entry {ℓ} : {V : Type ℓ} → Dict (List V) → String → List V
entry m key = or_default [] (lookup key m)

pub entry-add_to_list_map {ℓ} :
    {V : Type ℓ} (m : Dict (List V)) (key k : String) (v : V)
    → entry (add_to_list_map m key v) k ≡ (if key == k then entry m key ++ (v ∷ []) else entry m k)
entry-add_to_list_map m key k v = elim (Bool-cases (key == k)) [
  | inl e ↦ rw (lookup-add_to_list_map m key k v, e) refl
  | inr e ↦ rw (lookup-add_to_list_map m key k v, e) refl
]

-- What is added is put in front of what comes later, where it is.
pub entry-step {ℓ} :
    {V : Type ℓ} (m : Dict (List V)) (place : Option String) (dc k : String) (v : V) (rest : List V)
    → place ≡ some dc
    → entry (add_to_list_map m dc v) k ++ rest
      ≡ entry m k ++ (if is_in k place then v ∷ rest else rest)
entry-step m place dc k v rest e = elim (Bool-cases (dc == k)) [
  | inl same ↦
      rw (entry-add_to_list_map m dc k v, e, same)
        (ap (λ key. (entry m key ++ (v ∷ [])) ++ rest) ((eq_iff dc k).0 same)
          ∙ append_assoc (entry m k) (v ∷ []) rest)
  | inr other ↦ rw (entry-add_to_list_map m dc k v, e, other) refl
]
