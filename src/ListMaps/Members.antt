-- ===== src/ListMaps/Members.antt =====
-- `addToListMap`: what a map from a key to a list holds.
use cloudnative.Base.{
  inl, inr, if◌then◌else◌, or_default, sym, ◌∙◌, subst, String, some, List, [], ◌∷◌, ◌++◌, All,
  All-append, Dict, lookup, insert, lookup-insert, ◌≡◌, refl, arith, ◌==◌, Bool-cases, Option-cases,
}
use cloudnative.ListMaps.{add_to_list_map}

-- Each member of each list has the property.
abbrev pub AllLists {ℓ κ} : {V : Type ℓ} → (V → Type κ) → Dict (List V) → Type (ℓ ⊔ κ)
AllLists P m = (key : String) (vs : List _) → lookup key m ≡ some vs → All P vs

some-injective {ℓ} : {A : Type ℓ} {a b : A} → some a ≡ some b → a ≡ b
some-injective h = cc

pub add_to_list_map-insert {ℓ} :
    {V : Type ℓ} (m : Dict (List V)) (key : String) (v : V)
    → add_to_list_map m key v ≡ insert key (or_default [] (lookup key m) ++ (v ∷ [])) m
unfolding add_to_list_map
add_to_list_map-insert m key v = ground arith

pub lookup-add_to_list_map {ℓ} :
    {V : Type ℓ} (m : Dict (List V)) (key k : String) (v : V)
    → lookup k (add_to_list_map m key v)
      ≡ (if key == k then some (or_default [] (lookup key m) ++ (v ∷ [])) else lookup k m)
lookup-add_to_list_map m key k v = rw (add_to_list_map-insert m key v) (lookup-insert key k _ m)

AllLists-default {ℓ κ} :
    {V : Type ℓ} (P : V → Type κ) (m : Dict (List V)) (key : String)
    → AllLists P m
    → All P (or_default [] (lookup key m))
AllLists-default P m key all = elim (Option-cases (lookup key m)) [
  | inl e ↦ rw e tt
  | inr (vs, e) ↦ rw e (all key vs e)
]

pub add_to_list_map-AllLists {ℓ κ} :
    {V : Type ℓ} (P : V → Type κ) (m : Dict (List V)) (key : String) (v : V)
    → AllLists P m
    → P v
    → AllLists P (add_to_list_map m key v)
add_to_list_map-AllLists P m key v all p k vs h = elim (Bool-cases (key == k)) [
  | inl same ↦
      subst (All P) (some-injective (sym (lookup-add_to_list_map m key k v ∙ rw same refl) ∙ h)) (
        All-append P (or_default [] (lookup key m)) (v ∷ []) (AllLists-default P m key all) (p, tt))
  | inr other ↦ all k vs (sym (lookup-add_to_list_map m key k v ∙ rw other refl) ∙ h)
]
