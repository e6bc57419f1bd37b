-- ===== src/NodeMgr/Types.antt =====
-- `fix_nodemgr_nodetype`: the types of node that a node manager serves.
use mathlib.Core.Path.{subst⁻¹}
use cloudnative.Base.{refl, String, ◌==◌, Bool, ◌||◌, ◌≡◌, ◌⊎◌, inl, inr}
use cloudnative.NodeMgr.{NodeMgr, fixed_type, fix_nodemgr_nodetype}

-- The types that the scripts know.
abbrev pub IsNodetype : String → Type 0
IsNodetype t = (t ≡ "none") ⊎ (t ≡ "storage") ⊎ (t ≡ "server") ⊎ (t ≡ "both")

-- A node manager of type `t` serves the kind `k`.
abbrev pub serves : String → String → Bool
serves t k = (t == "both") || (t == k)

abbrev Joins : String → String → String → Type 0
Joins t a k = (serves (fixed_type t a) k ≡ (serves t k || (a == k))) × IsNodetype (fixed_type t a)

-- A known type and kind may be put in for the variables.
Joins-subst : (a t0 k0 : String) {t k : String} → t ≡ t0 → k ≡ k0 → Joins t0 a k0 → Joins t a k
Joins-subst a t0 k0 {t} {k} e f j = subst⁻¹ (λ x. Joins x a k) e (subst⁻¹ (λ y. Joins t0 a y) f j)

fixed_type-storage :
    (t k : String) → IsNodetype t → (k ≡ "storage") ⊎ (k ≡ "server") → Joins t "storage" k
unfolding fixed_type
fixed_type-storage t k (inl e) (inl f) =
    Joins-subst "storage" "none" "storage" e f (refl, inr (inl refl))
fixed_type-storage t k (inl e) (inr f) =
    Joins-subst "storage" "none" "server" e f (refl, inr (inl refl))
fixed_type-storage t k (inr (inl e)) (inl f) =
    Joins-subst "storage" "storage" "storage" e f (refl, inr (inl refl))
fixed_type-storage t k (inr (inl e)) (inr f) =
    Joins-subst "storage" "storage" "server" e f (refl, inr (inl refl))
fixed_type-storage t k (inr (inr (inl e))) (inl f) =
    Joins-subst "storage" "server" "storage" e f (refl, inr (inr (inr refl)))
fixed_type-storage t k (inr (inr (inl e))) (inr f) =
    Joins-subst "storage" "server" "server" e f (refl, inr (inr (inr refl)))
fixed_type-storage t k (inr (inr (inr e))) (inl f) =
    Joins-subst "storage" "both" "storage" e f (refl, inr (inr (inr refl)))
fixed_type-storage t k (inr (inr (inr e))) (inr f) =
    Joins-subst "storage" "both" "server" e f (refl, inr (inr (inr refl)))

fixed_type-server :
    (t k : String) → IsNodetype t → (k ≡ "storage") ⊎ (k ≡ "server") → Joins t "server" k
unfolding fixed_type
fixed_type-server t k (inl e) (inl f) =
    Joins-subst "server" "none" "storage" e f (refl, inr (inr (inl refl)))
fixed_type-server t k (inl e) (inr f) =
    Joins-subst "server" "none" "server" e f (refl, inr (inr (inl refl)))
fixed_type-server t k (inr (inl e)) (inl f) =
    Joins-subst "server" "storage" "storage" e f (refl, inr (inr (inr refl)))
fixed_type-server t k (inr (inl e)) (inr f) =
    Joins-subst "server" "storage" "server" e f (refl, inr (inr (inr refl)))
fixed_type-server t k (inr (inr (inl e))) (inl f) =
    Joins-subst "server" "server" "storage" e f (refl, inr (inr (inl refl)))
fixed_type-server t k (inr (inr (inl e))) (inr f) =
    Joins-subst "server" "server" "server" e f (refl, inr (inr (inl refl)))
fixed_type-server t k (inr (inr (inr e))) (inl f) =
    Joins-subst "server" "both" "storage" e f (refl, inr (inr (inr refl)))
fixed_type-server t k (inr (inr (inr e))) (inr f) =
    Joins-subst "server" "both" "server" e f (refl, inr (inr (inr refl)))

fixed_type-serves :
    (t a k : String)
    → IsNodetype t
    → (a ≡ "storage") ⊎ (a ≡ "server")
    → (k ≡ "storage") ⊎ (k ≡ "server")
    → Joins t a k
fixed_type-serves t a k h (inl e) b = subst⁻¹ (λ x. Joins t x k) e (fixed_type-storage t k h b)
fixed_type-serves t a k h (inr e) b = subst⁻¹ (λ x. Joins t x k) e (fixed_type-server t k h b)

-- Asking for a kind, storage or server, makes a node manager of a known type serve exactly what
-- it served before and that kind, and leaves its type a known one.
pub serves-fix_nodemgr_nodetype :
    (n : NodeMgr) (addtype k : String)
    → IsNodetype n.nodetype
    → (addtype ≡ "storage") ⊎ (addtype ≡ "server")
    → (k ≡ "storage") ⊎ (k ≡ "server")
    → (serves (fix_nodemgr_nodetype n addtype).nodetype k ≡ (serves n.nodetype k || (addtype == k)))
      × IsNodetype (fix_nodemgr_nodetype n addtype).nodetype
unfolding fix_nodemgr_nodetype
serves-fix_nodemgr_nodetype n addtype k t a b = fixed_type-serves n.nodetype addtype k t a b
