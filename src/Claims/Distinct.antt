-- ===== src/Claims/Distinct.antt =====
-- When a series of claims goes through: exactly if no value is claimed twice on one host.
use cloudnative.Base.{
  String, ◌==◌, eq_iff, Bool, true, false, ◌&&◌, ◌||◌, none, some, List, [], ◌∷◌, ◌++◌, lookup,
  insert, lookup-insert, Eq, contains, Error, Result, ok, err, ◌>>=◌, if◌then◌else◌, All, ◌≡◌, ◌≢◌,
  refl, arith, Option-cases, >>=-eq-ok, sym, Bool-cases, or_default, ◌∙◌, inl, inr,
}
use cloudnative.Claims.{ClaimMap, add_to_machine}

-- No claim of the list is made twice.
abbrev pub Distinct {ℓ} : {A : Type ℓ} → List A → Type ℓ
Distinct [] = Unit
Distinct (c ∷ cs) = All (λ d. d ≢ c) cs × Distinct cs

module _ {ℓ} {V : Type ℓ} ⦃e : Eq V⦄ where
  -- `v` is taken on the host `ip`.
  unfoldable pub uses : ClaimMap V → String → V → Bool
  uses taken ip v = elim (lookup ip taken) [ none ↦ false | some set ↦ contains v set ]

  abbrev pub IsFree : ClaimMap V → String × V → Type 0
  IsFree taken c = uses taken c.0 c.1 ≡ false

  uses-insert :
      (m : ClaimMap V) (ip j : String) (set : List V) (w : V)
      → uses (insert ip set m) j w ≡ (if ip == j then contains w set else uses m j w)
  unfolding uses
  uses-insert m ip j set w = ground (arith, lookup-insert ip j set m)

  uses_cons :
      (m : ClaimMap V) (ip j : String) (v w : V)
      → (if ip == j then contains w (v ∷ or_default [] (lookup ip m)) else uses m j w)
        ≡ ((ip == j && e.same v w) || uses m j w)
  unfolding uses contains
  uses_cons m ip j v w = ground (arith, eq_iff ip j)

module _ {ℓ} {V : Type ℓ} ⦃e : Eq V⦄ (clash : V → String → Error) where
  pub add_free :
      (m : ClaimMap V) (ip : String) (v : V)
      → uses m ip v ≡ false
      → (m' : ClaimMap V) × (add_to_machine clash m ip v ≡ ok m')
  unfolding uses add_to_machine
  add_free m ip v h = elim (Option-cases (lookup ip m)) [
    | inl e ↦ (insert ip (v ∷ []) m, rw (e, add_to_machine))
    | inr (set, e) ↦ (insert ip (v ∷ set) m, ground arith)
  ]

  pub add_clash :
      (m : ClaimMap V) (ip : String) (v : V)
      → uses m ip v ≡ true
      → add_to_machine clash m ip v ≡ err (clash v ip)
  unfolding uses add_to_machine
  add_clash m ip v h = ground arith

  pub add-IsFree :
      (m m' : ClaimMap V) (ip : String) (v : V)
      → add_to_machine clash m ip v ≡ ok m'
      → uses m ip v ≡ false
  unfolding uses add_to_machine
  add-IsFree m m' ip v h = ground arith

  -- The new map holds `v` in front of what was taken on the host.
  add-eq-insert :
      (m m' : ClaimMap V) (ip : String) (v : V)
      → add_to_machine clash m ip v ≡ ok m'
      → m' ≡ insert ip (v ∷ or_default [] (lookup ip m)) m
  unfolding add_to_machine
  add-eq-insert m m' ip v h = ground arith

  pub uses-add :
      (m m' : ClaimMap V) (ip j : String) (v w : V)
      → add_to_machine clash m ip v ≡ ok m'
      → uses m' j w ≡ ((ip == j && e.same v w) || uses m j w)
  uses-add m m' ip j v w h =
      rw (add-eq-insert m m' ip v h)
        (uses-insert m ip j (v ∷ or_default [] (lookup ip m)) w ∙ uses_cons m ip j v w)

  -- The claims one behind the other.
  unfoldable pub claim_all : ClaimMap V → List (String × V) → Result (ClaimMap V)
  claim_all m [] = ok m
  claim_all m ((ip, v) ∷ cs) = do m' ← add_to_machine clash m ip v; claim_all m' cs

  pub claim_all-append :
      (m : ClaimMap V) (cs ds : List (String × V))
      → claim_all m (cs ++ ds) ≡ (claim_all m cs >>= λ m'. claim_all m' ds)
  unfolding claim_all
  claim_all-append m [] ds = refl
  claim_all-append m ((ip, v) ∷ cs) ds =
      elim (add_to_machine clash m ip v)
        as (λ r.
          (r >>= λ m'. claim_all m' (cs ++ ds))
          ≡ ((r >>= λ m'. claim_all m' cs) >>= λ m'. claim_all m' ds)) [
            | ok m' ↦ claim_all-append m' cs ds
            | err x ↦ refl
          ]

module _ {ℓ} {V : Type ℓ} ⦃e : Eq V⦄ where
  same→eq : (c d : String × V) → (c.0 == d.0 && e.same c.1 d.1) ≡ true → c ≡ d
  same→eq c d h = ground (arith, eq_iff c.0 d.0, e.same_iff c.1 d.1)

  eq→same : (c d : String × V) → c ≡ d → (c.0 == d.0 && e.same c.1 d.1) ≡ true
  eq→same c d h = ground (arith, eq_iff c.0 d.0, e.same_iff c.1 d.1)

  differ : (c d : String × V) → (c.0 == d.0 && e.same c.1 d.1) ≡ false → d ≢ c
  differ c d h p = cc (eq→same c d (sym p))

  differ_test : (c d : String × V) → d ≢ c → (c.0 == d.0 && e.same c.1 d.1) ≡ false
  differ_test c d h = elim (Bool-cases (c.0 == d.0 && e.same c.1 d.1)) [
    | inl t ↦ absurd (h (sym (same→eq c d t)))
    | inr f ↦ f
  ]

module _ {ℓ} {V : Type ℓ} ⦃e : Eq V⦄ (clash : V → String → Error) where
  -- After one claim the free ones are those that were free and differ from it.
  IsFree-before :
      (m m' : ClaimMap V) (c : String × V) (ds : List (String × V))
      → add_to_machine clash m c.0 c.1 ≡ ok m'
      → All (IsFree m') ds
      → All (IsFree m) ds × All (λ d. d ≢ c) ds
  IsFree-before m m' c [] h f = (tt, tt)
  IsFree-before m m' c (d ∷ ds) h f =
      let step = uses-add clash m m' c.0 d.0 c.1 d.1 h in
      let (rest, others) = IsFree-before m m' c ds h f.1 in
      let both : IsFree m d × ((c.0 == d.0 && e.same c.1 d.1) ≡ false) =
        ground (arith, f.0, step) in
      ((both.0, rest), (differ c d both.1, others))

  IsFree-after :
      (m m' : ClaimMap V) (c : String × V) (ds : List (String × V))
      → add_to_machine clash m c.0 c.1 ≡ ok m'
      → All (IsFree m) ds
      → All (λ d. d ≢ c) ds
      → All (IsFree m') ds
  IsFree-after m m' c [] h f n = tt
  IsFree-after m m' c (d ∷ ds) h f n =
      let step = uses-add clash m m' c.0 d.0 c.1 d.1 h in
      (ground (arith, f.0, step, differ_test c d n.0), IsFree-after m m' c ds h f.1 n.1)

  -- Claims that all go through are distinct, and none was taken before.
  pub claim_all-Distinct :
      (m m' : ClaimMap V) (cs : List (String × V))
      → claim_all clash m cs ≡ ok m'
      → Distinct cs × All (IsFree m) cs
  unfolding claim_all
  claim_all-Distinct m m' [] h = (tt, tt)
  claim_all-Distinct m m' (c ∷ cs) h =
      let (m1, added, rest) = >>=-eq-ok (add_to_machine clash m c.0 c.1) _ h in
      let (distinct, free) = claim_all-Distinct m1 m' cs rest in
      let (before, others) = IsFree-before m m1 c cs added free in
      ((others, distinct), (add-IsFree clash m m1 c.0 c.1 added, before))

  -- Distinct claims that are free all go through.
  pub claim_all-eq-ok :
      (m : ClaimMap V) (cs : List (String × V))
      → Distinct cs
      → All (IsFree m) cs
      → (m' : ClaimMap V) × (claim_all clash m cs ≡ ok m')
  unfolding claim_all
  claim_all-eq-ok m [] d f = (m, refl)
  claim_all-eq-ok m (c ∷ cs) d f =
      let (m1, added) = add_free clash m c.0 c.1 f.0 in
      let (m2, rest) = claim_all-eq-ok m1 cs d.1 (IsFree-after m m1 c cs added f.1 d.0) in
      (m2, rw added rest)
