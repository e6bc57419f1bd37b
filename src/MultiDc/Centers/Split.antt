-- ===== src/MultiDc/Centers/Split.antt =====
-- The data centers behind their checks, and how they are split.
use cloudnative.Base.{
  String, eq_iff, ℕ, ◌+◌, true, false, is_some, Option, none, some, List, [], ◌∷◌, length, contains,
  string_eq, or_default, All, ok, raise_if, raise_if-false, >>=-eq-ok, ok-injective, ◌≡◌, ◌⊎◌, inl,
  inr, refl, sym, subst, arith,
}
use cloudnative.OneKey.Shards.Primary.{bit}
use cloudnative.MultiDc.{DataCenter}
use cloudnative.MultiDc.Centers.{
  center_defaults, two_centers, note_primary, check_centers, is_center, is_near, split_centers,
}

-- No two have the same name, and none has one of `seen`.
abbrev pub FreshNames : List String → List DataCenter → Type 0
FreshNames seen [] = Unit
FreshNames seen (d ∷ ds) = (contains d.name seen ≡ false) × FreshNames (d.name ∷ seen) ds

-- How many are marked as the primary.
abbrev pub marked : List DataCenter → ℕ
marked [] = 0
marked (d ∷ ds) = bit (or_default false d.is_primary) + marked ds

-- How many have the name of the primary.
abbrev pub centers_of : Option DataCenter → List DataCenter → ℕ
centers_of p [] = 0
centers_of p (d ∷ ds) = bit (is_center p d) + centers_of p ds

split_centers-length :
    (p : Option DataCenter) (ds : List DataCenter)
    → length (split_centers p ds).0 + length (split_centers p ds).1 + centers_of p ds ≡ length ds
unfolding split_centers
split_centers-length p [] = refl
split_centers-length p (d ∷ ds) = ground (arith, split_centers-length p ds)

-- A name that is free is not that of the primary, which has another one or a free one too.
abbrev Elsewhere : Option DataCenter → List String → Type 0
Elsewhere none seen = Unit
Elsewhere (some d) seen = contains d.name seen ≡ true

-- What the loop leaves, from the primary that it starts with.
record Checked (seen : List String) (before after : Option DataCenter) (ds : List DataCenter)
    : Type 0 where
  fresh : FreshNames seen ds
  marks : bit (is_some before) + marked ds ≡ bit (is_some after)
  centers : bit (is_some before) + centers_of after ds ≡ bit (is_some after)
  -- A primary that is found here has a free name.
  origin :
      (after ≡ before)
      ⊎ ((before ≡ none) × ((d : DataCenter) × (after ≡ some d) × (contains d.name seen ≡ false)))

note_primary-cases :
    (p q : Option DataCenter) (d : DataCenter)
    → note_primary p d ≡ ok q
    → ((or_default false d.is_primary ≡ false) × (q ≡ p))
      ⊎ ((or_default false d.is_primary ≡ true) × (p ≡ none) × (q ≡ some d))
unfolding note_primary
note_primary-cases none q d h = ground arith
note_primary-cases (some p) q d h = ground arith

kept-is_center :
    (q p : Option DataCenter) (d : DataCenter) (seen : List String)
    → q ≡ p
    → Elsewhere p seen
    → contains d.name seen ≡ false
    → is_center q d ≡ false
kept-is_center none p d seen e w f = refl
kept-is_center (some c) none d seen e w f = cc
kept-is_center (some c) (some b) d seen e w f = ground (arith, eq_iff c.name d.name)

found-is_center :
    (q : Option DataCenter) (c d : DataCenter) (seen : List String)
    → q ≡ some c
    → contains c.name (d.name ∷ seen) ≡ false
    → (is_center q d ≡ false) × (contains c.name seen ≡ false)
unfolding contains
found-is_center none c d seen e f = cc
found-is_center (some b) c d seen e f = (
  ground (arith, eq_iff b.name d.name, eq_iff d.name c.name, eq_iff c.name d.name),
  ground (arith, eq_iff d.name c.name),
)

self-is_center : (q : Option DataCenter) (d : DataCenter) → q ≡ some d → is_center q d ≡ true
self-is_center none d e = cc
self-is_center (some c) d e = ground (arith, eq_iff c.name d.name)

-- A data center that is not marked, in front of those behind it.
unmarked-Checked :
    (seen : List String) (p q : Option DataCenter) (d : DataCenter) (ds : List DataCenter)
    → Checked (d.name ∷ seen) p q ds
    → contains d.name seen ≡ false
    → Elsewhere p seen
    → or_default false d.is_primary ≡ false
    → Checked seen p q (d ∷ ds)
unmarked-Checked seen p q d ds r f w m = elim r.origin [
  | inl same ↦
      let away = kept-is_center q p d seen same w f in
      record {
        fresh = (f, r.fresh);
        marks = ground (arith, r.marks);
        centers = ground (arith, r.centers);
        origin = inl same;
      }
  | inr (first, (c, found, free)) ↦
      let (away, free') = found-is_center q c d seen found free in
      record {
        fresh = (f, r.fresh);
        marks = ground (arith, r.marks);
        centers = ground (arith, r.centers);
        origin = inr (first, (c, found, free'));
      }
]

-- The marked one, in front of those behind it.
marked-Checked :
    (seen : List String) (q : Option DataCenter) (d : DataCenter) (ds : List DataCenter)
    → Checked (d.name ∷ seen) (some d) q ds
    → contains d.name seen ≡ false
    → or_default false d.is_primary ≡ true
    → Checked seen none q (d ∷ ds)
marked-Checked seen q d ds r f m = elim r.origin [
  | inl same ↦
      let here : is_center q d ≡ true = self-is_center q d same in
      record {
        fresh = (f, r.fresh);
        marks = ground (arith, r.marks);
        centers = ground (arith, r.centers);
        origin = inr (refl, (d, same, f));
      }
  | inr (first, found) ↦ cc
]

Elsewhere-weaken :
    (p : Option DataCenter) (name : String) (seen : List String)
    → Elsewhere p seen
    → Elsewhere p (name ∷ seen)
unfolding contains
Elsewhere-weaken none name seen w = tt
Elsewhere-weaken (some c) name seen w = ground arith

check_centers-Checked :
    (seen : List String) (p q : Option DataCenter) (ds ds' : List DataCenter)
    → check_centers seen p ds ≡ ok (q, ds')
    → Elsewhere p seen
    → Checked seen p q ds'
unfolding check_centers contains
check_centers-Checked seen p q [] ds' h w =
    subst (λ (r : Option DataCenter × List DataCenter). Checked seen p r.0 r.1) (ok-injective h)
      (record { fresh = tt; marks = omega arith; centers = omega arith; origin = inl refl })
check_centers-Checked seen p q (n ∷ ns) ds' h w =
    let d = center_defaults n in
    let (_, free, h1) = >>=-eq-ok (raise_if (contains n.name seen) (two_centers n.name)) _ h in
    let f = raise_if-false (contains n.name seen) (two_centers n.name) free in
    let (p1, noted, h2) = >>=-eq-ok (note_primary p d) _ h1 in
    let ((q1, ns1), others, h3) = >>=-eq-ok (check_centers (n.name ∷ seen) p1 ns) _ h2 in
    subst (λ (r : Option DataCenter × List DataCenter). Checked seen p r.0 r.1) (ok-injective h3)
      (elim (note_primary-cases p p1 d noted) [
        | inl (unmarked, same) ↦
            unmarked-Checked seen p q1 d ns1
              (check_centers-Checked (n.name ∷ seen) p q1 ns ns1
                (subst (λ x. check_centers (n.name ∷ seen) x ns ≡ ok (q1, ns1)) same others)
                (Elsewhere-weaken p n.name seen w))
              f w unmarked
        | inr (mark, before, after) ↦
            subst (λ x. Checked seen x q1 (d ∷ ns1)) (sym before)
              (marked-Checked seen q1 d ns1
                (check_centers-Checked (n.name ∷ seen) (some d) q1 ns ns1
                  (subst (λ x. check_centers (n.name ∷ seen) x ns ≡ ok (q1, ns1)) after others)
                  (ground (arith, eq_iff n.name n.name)))
                f mark)
      ])

split_centers-near :
    (p : Option DataCenter) (ds : List DataCenter)
    → All (λ d. is_near p d ≡ true) (split_centers p ds).0
      × All (λ d. is_near p d ≡ false) (split_centers p ds).1
unfolding split_centers
split_centers-near p [] = (tt, tt)
split_centers-near p (d ∷ ds) =
    let (near, far) = split_centers-near p ds in (ground arith, ground arith)

-- How the data centers are split; the theorem below says it in words.
pub record IsSplit (p : Option DataCenter) (ds : List DataCenter) : Type 0 where
  pub fresh : FreshNames [] ds
  pub one_primary : marked ds ≡ bit (is_some p)
  pub all :
      bit (is_some p) + (length (split_centers p ds).0 + length (split_centers p ds).1) ≡ length ds
  pub near : All (λ d. is_near p d ≡ true) (split_centers p ds).0
  pub far : All (λ d. is_near p d ≡ false) (split_centers p ds).1

-- The data centers that are accepted have different names, and exactly one is marked as the primary
-- where the loop finds a primary one, none otherwise. Beside it each is a secondary or a standby
-- one: together they are as many as there are, the secondary ones are all in the province and the
-- city of the primary one (or have neither, where there is none), and the standby ones are all not.
pub check_centers-IsSplit :
    (ds ds' : List DataCenter) (p : Option DataCenter)
    → check_centers [] none ds ≡ ok (p, ds')
    → IsSplit p ds'
check_centers-IsSplit ds ds' p h =
    let c = check_centers-Checked [] none p ds ds' h tt in
    let (near, far) = split_centers-near p ds' in
    record {
      fresh = c.fresh;
      one_primary = omega (arith, c.marks);
      all = omega (arith, c.centers, split_centers-length p ds');
      near = near;
      far = far;
    }
