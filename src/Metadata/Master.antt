-- ===== src/Metadata/Master.antt =====
-- `get_master_conn`: which server it picks.
use cloudnative.Base.{
  String, ℕ, true, false, Option, none, some, List, [], ◌∷◌, ◌++◌, All, ok, >>=-eq-ok, ok-injective,
  ◌≡◌, inl, inr, refl, ap, subst, Bool-cases,
}
use cloudnative.Base.Text.{split}
use cloudnative.Metadata.{Connect, writable, seed_addr, find_master, get_master_conn}

-- An address that the search passes over.
abbrev pub IsPassed : Connect → String → Type 0
IsPassed connect addr =
    (host : String) × (port : ℕ) × (seed_addr addr ≡ ok (host, port))
    × (writable (connect host port) ≡ false)

-- What the search is to give: the first address whose server takes writes, if there is one.
abbrev pub IsMaster : Connect → List String → Option (String × ℕ) → Type 0
IsMaster connect addrs none = All (IsPassed connect) addrs
IsMaster connect addrs (some (host, port)) =
    (before : List String) × (addr : String) × (after : List String) × (addrs
      ≡ before ++ (addr ∷ after))
    × All (IsPassed connect) before
    × (seed_addr addr ≡ ok (host, port))
    × (writable (connect host port) ≡ true)

IsMaster-pass :
    (connect : Connect) (addr : String) (addrs : List String) (r : Option (String × ℕ))
    → IsPassed connect addr
    → IsMaster connect addrs r
    → IsMaster connect (addr ∷ addrs) r
IsMaster-pass connect addr addrs none p m = (p, m)
IsMaster-pass connect addr addrs (some (host, port)) p (before, a, after, e, passed, s, w) =
    (addr ∷ before, a, after, ap (λ xs. addr ∷ xs) e, (p, passed), s, w)

find_master-IsMaster :
    (connect : Connect) (addrs : List String) (r : Option (String × ℕ))
    → find_master connect addrs ≡ ok r
    → IsMaster connect addrs r
unfolding find_master
find_master-IsMaster connect [] r h = subst (IsMaster connect []) (ok-injective h) tt
find_master-IsMaster connect (addr ∷ addrs) r h =
    let ((host, port), parsed, h1) = >>=-eq-ok (seed_addr addr) _ h in
    elim (Bool-cases (writable (connect host port))) [
      | inl takes ↦
          subst (IsMaster connect (addr ∷ addrs)) (ok-injective (rw takes at h1))
            ([], addr, addrs, refl, tt, parsed, takes)
      | inr refuses ↦
          IsMaster-pass connect addr addrs r (host, port, parsed, refuses)
            (find_master-IsMaster connect addrs r (rw refuses at h1))
    ]

-- Where every address up to the one found can be read, the search gives the first address of the
-- list whose server takes writes, and nothing only if no server of the list takes writes.
pub get_master_conn-IsMaster :
    (connect : Connect) (metaseeds : String) (r : Option (String × ℕ))
    → get_master_conn connect metaseeds ≡ ok r
    → IsMaster connect (split b',' metaseeds) r
unfolding get_master_conn
get_master_conn-IsMaster connect metaseeds r h =
    find_master-IsMaster connect (split b',' metaseeds) r h
