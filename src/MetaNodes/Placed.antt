-- ===== src/MetaNodes/Placed.antt =====
-- The loops of `setup_metanodes_multidc`, one behind the other.
use mathlib.Core.List.{map-append, append_assoc, append-nil}
use cloudnative.Base.{
  none, true, is_some, length-append, subst, ℕ, ◌+◌, ◌≤◌, Option, some, List, [], ◌∷◌, ◌++◌, map,
  length, All, or_default, ok, ◌≡◌, refl, sym, ap, ◌∙◌, arith,
}
use cloudnative.MetaNodes.{
  Placement, Mapping, Progress, place, follow, mark, place_primary_rest, place_secondary_rest,
  place_standby_rest, place_secondaries, place_standbys,
}

abbrev pub nodes_of : Progress → List ℕ
nodes_of s = map (λ (p : Placement). p.node) s.metanodes

abbrev pub files_of : Progress → List ℕ
files_of s = map (λ (p : Placement). p.file) s.metanodes

abbrev pub hosts_of : Progress → List ℕ
hosts_of s = map (λ (m : Mapping). m.host) s.elements

-- So many numbers from the first one on.
abbrev pub upwards : ℕ → List ℕ → List ℕ
upwards i [] = []
upwards i (n ∷ ns) = i ∷ upwards (i + 1) ns

abbrev pub joined : List (List ℕ) → List ℕ
joined [] = []
joined (xs ∷ xss) = xs ++ joined xss

abbrev pub rest_of : List ℕ → List ℕ
rest_of [] = []
rest_of (n ∷ ns) = ns

-- The nodes of the data centers behind the first of each.
abbrev pub rests : List (List ℕ) → List ℕ
rests [] = []
rests (dc ∷ dcs) = rest_of dc ++ rests dcs

abbrev pub last_of : ℕ → List ℕ → ℕ
last_of d [] = d
last_of d (n ∷ ns) = last_of n ns

last_of-append : (d : ℕ) (ns ms : List ℕ) → last_of d (ns ++ ms) ≡ last_of (last_of d ns) ms
last_of-append d [] ms = refl
last_of-append d (n ∷ ns) ms = last_of-append n ns ms

-- The hosts of the elements for the standby data centers: behind the first node of each one it is
-- the node that an earlier loop left.
abbrev pub standby_hosts : ℕ → List (List ℕ) → List ℕ
standby_hosts left [] = []
standby_hosts left ([] ∷ dcs) = standby_hosts left dcs
standby_hosts left ((n ∷ ns) ∷ dcs) = n ∷ (map (λ m. left) ns ++ standby_hosts left dcs)

-- Behind `s` the nodes were placed in new files, in the order of the list, and the hosts follow.
pub record Placed (s s' : Progress) (ns hs : List ℕ) : Type 0 where
  pub nodes : nodes_of s' ≡ nodes_of s ++ ns
  pub files : files_of s' ≡ files_of s ++ upwards s.next ns
  pub next : s'.next ≡ s.next + length ns
  pub hosts : hosts_of s' ≡ hosts_of s ++ hs

upwards-append :
    (i : ℕ) (ns ms : List ℕ) → upwards i (ns ++ ms) ≡ upwards i ns ++ upwards (i + length ns) ms
upwards-append i [] ms = ap (λ j. upwards j ms) (omega arith)
upwards-append i (n ∷ ns) ms =
    ap (◌∷◌ i)
      (upwards-append (i + 1) ns ms ∙ ap (λ j. upwards (i + 1) ns ++ upwards j ms) (omega arith))

pub Placed-trans :
    {s t u : Progress} {ns ms hs gs : List ℕ}
    → Placed s t ns hs
    → Placed t u ms gs
    → Placed s u (ns ++ ms) (hs ++ gs)
Placed-trans {s} {t} {u} {ns} {ms} {hs} {gs} p q = record {
  nodes = rw q.nodes (rw p.nodes (append_assoc (nodes_of s) ns ms));
  files =
      rw q.files
        (rw p.files (rw p.next (rw (upwards-append s.next ns ms) (append_assoc (files_of s) _ _))));
  next = omega (arith, p.next, q.next, length-append ns ms);
  hosts = rw q.hosts (rw p.hosts (append_assoc (hosts_of s) hs gs));
}

pub place-Placed :
    (node index fullsync : ℕ) (s : Progress) → Placed s (place node index fullsync s) (node ∷ []) []
place-Placed node index fullsync s = record {
  nodes = map-append (λ (p : Placement). p.node) s.metanodes _;
  files = map-append (λ (p : Placement). p.file) s.metanodes _;
  next = refl;
  hosts = sym (append-nil (hosts_of s));
}

follow-Placed : (host master : ℕ) (s : Progress) → Placed s (follow host master s) [] (host ∷ [])
follow-Placed host master s = record {
  nodes = sym (append-nil (nodes_of s));
  files = sym (append-nil (files_of s));
  next = omega arith;
  hosts = map-append (λ (m : Mapping). m.host) s.elements _;
}

-- A node that is placed and follows another.
follow-place-Placed :
    (node index fullsync host master : ℕ) (s : Progress)
    → Placed s (follow host master (place node index fullsync s)) (node ∷ []) (host ∷ [])
follow-place-Placed node index fullsync host master s =
    Placed-trans (place-Placed node index fullsync s) (follow-Placed host master _)

Placed-refl : (s : Progress) → Placed s s [] []
Placed-refl s = record {
  nodes = sym (append-nil (nodes_of s));
  files = sym (append-nil (files_of s));
  next = omega arith;
  hosts = sym (append-nil (hosts_of s));
}

-- The variable `node` and the marks say nothing of the placements.
Placed-mark :
    {s t : Progress} {ns hs : List ℕ} (node : ℕ) → Placed (mark node s) t ns hs → Placed s t ns hs
Placed-mark node p = record { nodes = p.nodes; files = p.files; next = p.next; hosts = p.hosts }

Placed-from :
    {s t : Progress} {ns hs : List ℕ} (node : ℕ)
    → Placed (record s { node = node }) t ns hs
    → Placed s t ns hs
Placed-from node p = record { nodes = p.nodes; files = p.files; next = p.next; hosts = p.hosts }

pub place_primary_rest-Placed :
    (node0 j : ℕ) (nodes : List ℕ) (s : Progress)
    → Placed s (place_primary_rest node0 j nodes s) nodes nodes
unfolding place_primary_rest
place_primary_rest-Placed node0 j [] s = Placed-refl s
place_primary_rest-Placed node0 j (n ∷ ns) s =
    Placed-trans (Placed-from n (follow-place-Placed n j 1 n node0 (record s { node = n })))
      (place_primary_rest-Placed node0 (j + 1) ns _)

place_secondary_rest-Placed :
    (node0 j : ℕ) (nodes : List ℕ) (s : Progress)
    → Placed s (place_secondary_rest node0 j nodes s) nodes nodes
unfolding place_secondary_rest
place_secondary_rest-Placed node0 j [] s = Placed-refl s
place_secondary_rest-Placed node0 j (n ∷ ns) s =
    Placed-trans (Placed-from n (follow-place-Placed n j 0 n node0 (record s { node = n })))
      (place_secondary_rest-Placed node0 (j + 1) ns _)

place_standby_rest-Placed :
    (node0 j : ℕ) (nodes : List ℕ) (s : Progress)
    → Placed s (place_standby_rest node0 j nodes s) nodes (map (λ m. s.node) nodes)
unfolding place_standby_rest
place_standby_rest-Placed node0 j [] s = Placed-refl s
place_standby_rest-Placed node0 j (n ∷ ns) s =
    Placed-trans (follow-place-Placed n j 0 s.node node0 s)
      (place_standby_rest-Placed node0 (j + 1) ns _)

pub place_primary_rest-node :
    (node0 j : ℕ) (nodes : List ℕ) (s : Progress)
    → (place_primary_rest node0 j nodes s).node ≡ last_of s.node nodes
unfolding place_primary_rest
place_primary_rest-node node0 j [] s = refl
place_primary_rest-node node0 j (n ∷ ns) s = place_primary_rest-node node0 (j + 1) ns _

place_secondary_rest-node :
    (node0 j : ℕ) (nodes : List ℕ) (s : Progress)
    → (place_secondary_rest node0 j nodes s).node ≡ last_of s.node nodes
unfolding place_secondary_rest
place_secondary_rest-node node0 j [] s = refl
place_secondary_rest-node node0 j (n ∷ ns) s = place_secondary_rest-node node0 (j + 1) ns _

place_standby_rest-node :
    (node0 j : ℕ) (nodes : List ℕ) (s : Progress)
    → (place_standby_rest node0 j nodes s).node ≡ s.node
unfolding place_standby_rest
place_standby_rest-node node0 j [] s = refl
place_standby_rest-node node0 j (n ∷ ns) s = place_standby_rest-node node0 (j + 1) ns _

-- The first node of a data center and the rest.
center-Placed :
    (node0 index fullsync master : ℕ) {ns hs : List ℕ} (s u : Progress)
    → Placed (mark node0 (follow node0 master (place node0 index fullsync s))) u ns hs
    → Placed s u (node0 ∷ ns) (node0 ∷ hs)
center-Placed node0 index fullsync master s u p =
    Placed-trans (follow-place-Placed node0 index fullsync node0 master s) (Placed-mark node0 p)

abbrev pub IsFilled : List ℕ → Type 0
IsFilled dc = 1 ≤ length dc

abbrev pub given : Option ℕ → ℕ
given none = 0
given (some n) = 1

pub place_secondaries-Placed :
    (pdcmaster : ℕ) (sdcmaster : Option ℕ) (dcs : List (List ℕ)) (s : Progress)
    → All IsFilled dcs
    → (second : Option ℕ) × (u : Progress) × (place_secondaries pdcmaster sdcmaster dcs s
        ≡ ok (second, u))
      × Placed s u (joined dcs) (joined dcs)
      × (u.node ≡ last_of s.node (rests dcs))
      × (1 ≤ length dcs + given sdcmaster → is_some second ≡ true)
unfolding place_secondaries
place_secondaries-Placed pdcmaster sdcmaster [] s f =
    (sdcmaster, s, refl, Placed-refl s, refl, (λ h. ground (arith, h)))
place_secondaries-Placed pdcmaster sdcmaster ([] ∷ dcs) s f = ground arith
place_secondaries-Placed pdcmaster sdcmaster ((node0 ∷ nodes) ∷ dcs) s f =
    let s1 = mark node0 (follow node0 pdcmaster (place node0 1 1 s)) in
    let (second, u, eq, p, node, some_one) =
      place_secondaries-Placed pdcmaster (some (or_default node0 sdcmaster)) dcs
        (place_secondary_rest node0 1 nodes s1) f.1 in
    (
      second,
      u,
      eq,
      Placed-trans
          (center-Placed node0 1 1 pdcmaster s _ (place_secondary_rest-Placed node0 1 nodes s1)) p,
      node
          ∙ ap (λ n. last_of n (rests dcs)) (place_secondary_rest-node node0 1 nodes s1)
          ∙ sym (last_of-append s.node nodes (rests dcs)),
      λ h. some_one (omega arith),
    )

pub place_standbys-Placed :
    (sdcmaster : ℕ) (dcs : List (List ℕ)) (s : Progress)
    → All IsFilled dcs
    → (u : Progress) × (place_standbys sdcmaster dcs s ≡ ok u)
      × Placed s u (joined dcs) (standby_hosts s.node dcs)
unfolding place_standbys
place_standbys-Placed sdcmaster [] s f = (s, refl, Placed-refl s)
place_standbys-Placed sdcmaster ([] ∷ dcs) s f = ground arith
place_standbys-Placed sdcmaster ((node0 ∷ nodes) ∷ dcs) s f =
    let s1 = mark node0 (follow node0 sdcmaster (place node0 1 0 s)) in
    let (u, eq, p) =
      place_standbys-Placed sdcmaster dcs (place_standby_rest node0 1 nodes s1) f.1 in
    (
      u,
      eq,
      Placed-trans
          (center-Placed node0 1 0 sdcmaster s _ (place_standby_rest-Placed node0 1 nodes s1))
          (subst
            (λ n. Placed (place_standby_rest node0 1 nodes s1) u (joined dcs) (standby_hosts n dcs))
            (place_standby_rest-node node0 1 nodes s1) p),
    )
