-- ===== src/MultiDc/Located/NodeMgrs.antt =====
-- The data center of each host, behind the loop over the node managers.
use cloudnative.Base.{
  String, ◌==◌, eq_iff, Bool, true, false, Option, none, some, List, [], ◌∷◌, lookup, lookup-insert,
  has_key, string_eq, is_some, ok, raise_if, raise_if-false, >>=-eq-ok, ok-injective, ◌≡◌, refl,
  subst, ap, ◌∙◌, arith, if◌then◌else◌, Bool-cases, inl, inr,
}
use cloudnative.Config.{Args}
use cloudnative.Machines.{Machines}
use cloudnative.NodeMgr.{NodeMgrItem, curports, resolve_nodemgr}
use cloudnative.MultiDc.Managers.{Centers, given_center, know_center, check_nodemgr, check_nodemgrs}
use cloudnative.MultiDc.Located.{host_center, or_else}

-- A host is in `dc_of` exactly if it has a node manager.
abbrev SameHosts : Centers → Type 0
SameHosts c = (ip : String) → has_key ip c.nodemgrs ≡ is_some (lookup ip c.dc_of)

know_center-keeps :
    (firstboot : Bool) (c d : Centers) (dc : String)
    → know_center firstboot c dc ≡ ok d
    → (d.nodemgrs ≡ c.nodemgrs) × (d.dc_of ≡ c.dc_of)
unfolding know_center
know_center-keeps firstboot c d dc h = ground arith

given_center-some :
    (item : NodeMgrItem) (dc : String) → given_center item ≡ ok dc → item.dc ≡ some dc
unfolding given_center
given_center-some item dc h = ground arith

-- One round of the loop over the node managers.
record Noted (c d : Centers) (item : NodeMgrItem) : Type 0 where
  center : String
  given : item.dc ≡ some center
  hosts : SameHosts d
  noted :
      (ip : String)
      → lookup ip d.dc_of ≡ or_else (lookup ip c.dc_of) (if item.ip == ip then item.dc else none)

check_nodemgr-Noted :
    (args : Args) (machines : Machines) (firstboot : Bool) (c d : Centers) (item : NodeMgrItem)
    → SameHosts c
    → check_nodemgr args machines firstboot c item ≡ ok d
    → Noted c d item
unfolding check_nodemgr
check_nodemgr-Noted args machines firstboot c d item s h =
    let (_, fresh, h0) = >>=-eq-ok (raise_if (has_key item.ip c.nodemgrs) _) _ h in
    let (dc, given, h1) = >>=-eq-ok (given_center item) _ h0 in
    let (c1, known, h2) = >>=-eq-ok (know_center firstboot c dc) _ h1 in
    let ((a, b), parsed, h3) = >>=-eq-ok (curports args item) _ h2 in
    let ((p, n), resolved, h4) = >>=-eq-ok (resolve_nodemgr args machines c1.ports item a b) _ h3 in
    let (same_mgrs, same_dcs) = know_center-keeps firstboot c c1 dc known in
    let new = raise_if-false (has_key item.ip c.nodemgrs) _ fresh in
    let here = given_center-some item dc given in
    subst (λ (r : Centers). Noted c r item) (ok-injective h4)
      (record {
        center = dc;
        given = here;
        hosts = λ ip. elim (Bool-cases (item.ip == ip)) [
          | inl e ↦
              rw (lookup-insert item.ip ip n c1.nodemgrs, lookup-insert item.ip ip dc c1.dc_of, e)
                refl
          | inr e ↦
              rw
                (
                  lookup-insert item.ip ip n c1.nodemgrs,
                  lookup-insert item.ip ip dc c1.dc_of,
                  e,
                  same_mgrs,
                  same_dcs,
                )
                (s ip)
        ];
        noted = λ ip. elim (Bool-cases (item.ip == ip)) [
          | inl e ↦
              rw (lookup-insert item.ip ip dc c1.dc_of, e, here)
                (ground (arith, s ip, new, eq_iff item.ip ip, e))
          | inr e ↦ rw (lookup-insert item.ip ip dc c1.dc_of, e, same_dcs) (ground arith)
        ];
      })

or_else-none : (o : Option String) → o ≡ or_else o none
or_else-none none = refl
or_else-none (some a) = refl

or_else_assoc {ℓ} :
    {A : Type ℓ} (a b c : Option A) → or_else (or_else a b) c ≡ or_else a (or_else b c)
or_else_assoc none b c = refl
or_else_assoc (some a) b c = refl

or_else-if :
    (b : Bool) (x rest : Option String) (given : String)
    → x ≡ some given
    → or_else (if b then x else none) rest ≡ (if b then x else rest)
or_else-if true x rest given e = rw e refl
or_else-if false x rest given e = refl

-- The map from a host to its data center, behind the loop over the node managers.
pub check_nodemgrs-host_center :
    (args : Args) (machines : Machines) (firstboot : Bool) (c d : Centers)
    (items : List NodeMgrItem)
    → SameHosts c
    → check_nodemgrs args machines firstboot c items ≡ ok d
    → (ip : String) → lookup ip d.dc_of ≡ or_else (lookup ip c.dc_of) (host_center items ip)
unfolding check_nodemgrs host_center
check_nodemgrs-host_center args machines firstboot c d [] s h ip =
    subst (λ (r : Centers). lookup ip r.dc_of ≡ or_else (lookup ip c.dc_of) none) (ok-injective h)
      (or_else-none (lookup ip c.dc_of))
check_nodemgrs-host_center args machines firstboot c d (i ∷ is) s h ip =
    let (c1, first, others) = >>=-eq-ok (check_nodemgr args machines firstboot c i) _ h in
    let one = check_nodemgr-Noted args machines firstboot c c1 i s first in
    check_nodemgrs-host_center args machines firstboot c1 d is one.hosts others ip
    ∙ ap (λ o. or_else o (host_center is ip)) (one.noted ip)
    ∙ or_else_assoc (lookup ip c.dc_of) _ (host_center is ip)
    ∙ ap (or_else (lookup ip c.dc_of))
        (or_else-if (i.ip == ip) i.dc (host_center is ip) one.center one.given)

-- A bootstrap adds no data center.
know_center-names : (c d : Centers) (dc : String) → know_center true c dc ≡ ok d → d.names ≡ c.names
unfolding know_center
know_center-names c d dc h = ground arith

check_nodemgr-names :
    (args : Args) (machines : Machines) (c d : Centers) (item : NodeMgrItem)
    → check_nodemgr args machines true c item ≡ ok d
    → d.names ≡ c.names
unfolding check_nodemgr
check_nodemgr-names args machines c d item h =
    let (_, fresh, h0) = >>=-eq-ok (raise_if (has_key item.ip c.nodemgrs) _) _ h in
    let (dc, given, h1) = >>=-eq-ok (given_center item) _ h0 in
    let (c1, known, h2) = >>=-eq-ok (know_center true c dc) _ h1 in
    let ((a, b), parsed, h3) = >>=-eq-ok (curports args item) _ h2 in
    let ((p, n), resolved, h4) = >>=-eq-ok (resolve_nodemgr args machines c1.ports item a b) _ h3 in
    subst (λ (r : Centers). r.names ≡ c.names) (ok-injective h4) (know_center-names c c1 dc known)

pub check_nodemgrs-names :
    (args : Args) (machines : Machines) (c d : Centers) (items : List NodeMgrItem)
    → check_nodemgrs args machines true c items ≡ ok d
    → d.names ≡ c.names
unfolding check_nodemgrs
check_nodemgrs-names args machines c d [] h =
    subst (λ (r : Centers). r.names ≡ c.names) (ok-injective h) refl
check_nodemgrs-names args machines c d (i ∷ is) h =
    let (c1, first, others) = >>=-eq-ok (check_nodemgr args machines true c i) _ h in
    check_nodemgrs-names args machines c1 d is others
    ∙ check_nodemgr-names args machines c c1 i first
