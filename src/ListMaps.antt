-- ===== src/ListMaps.antt =====
-- cluster/cluster_common.py: `addToListMap`, and `addToDirMap` and `addIpToFilesListMap`, which have
-- its body: a dictionary of lists, of which one grows.
pub mod Members
use cloudnative.Base.{String, none, some, List, [], ◌∷◌, ◌++◌, Dict, lookup, insert}

-- `addToListMap`
unfoldable pub add_to_list_map {ℓ} : {V : Type ℓ} → Dict (List V) → String → V → Dict (List V)
add_to_list_map m key value = elim (lookup key m) [
  | none ↦ insert key (value ∷ []) m
  | some values ↦ insert key (values ++ (value ∷ [])) m
]
