-- ===== src/MultiDc/Centers.antt =====
-- The data centers of `validate_and_set_config3`: their names, the primary one, and the others by
-- where they are.
pub mod Split
use cloudnative.Base.{
  String, ◌==◌, Bool, true, false, not, ◌&&◌, Option, none, some, is_some, List, [], ◌∷◌,
  or_default, contains, string_eq, Error, Result, ok, err, value_error, raise_if, ◌>>=◌, ◌>>◌,
  if◌then◌else◌,
}
use cloudnative.Base.Text.{concat}
use cloudnative.MultiDc.{DataCenter}

-- A data center with its defaults.
abbrev pub center_defaults : DataCenter → DataCenter
center_defaults node = record node {
  skip = some (or_default false node.skip);
  is_primary = some (or_default false node.is_primary);
}

abbrev two_centers : String → Error
two_centers name = value_error (concat ("Error: duplicate dc name:" ∷ name ∷ "!" ∷ []))

abbrev two_primary_centers : Error
two_primary_centers = value_error "Error: there should be only one primary datacenter!"

-- The primary one so far, with `node` behind it.
unfoldable pub note_primary : Option DataCenter → DataCenter → Result (Option DataCenter)
note_primary dcprimary node = elim (or_default false node.is_primary) [
  | false ↦ ok dcprimary
  | true ↦ if is_some dcprimary then err two_primary_centers else ok (some node)
]

-- The loop over the data centers; `dcnames` and `dcprimary` are what it has so far.
unfoldable pub check_centers :
    List String → Option DataCenter → List DataCenter → Result (Option DataCenter × List DataCenter)
unfolding note_primary
check_centers dcnames dcprimary [] = ok (dcprimary, [])
check_centers dcnames dcprimary (node ∷ nodes) = do
  raise_if (contains node.name dcnames) (two_centers node.name)
  dcprimary1 ← note_primary dcprimary (center_defaults node)
  (dcprimary2, nodes') ← check_centers (node.name ∷ dcnames) dcprimary1 nodes
  ok (dcprimary2, center_defaults node ∷ nodes')

-- `==` on two places, either of which may be `None`.
abbrev pub same_place : Option String → Option String → Bool
same_place none none = true
same_place (some a) (some b) = a == b
same_place _ _ = false

abbrev pub place_of : (DataCenter → Option String) → Option DataCenter → Option String
place_of place none = none
place_of place (some node) = place node

-- `node is dcprimary`: their names are different, so a name stands for its node.
abbrev pub is_center : Option DataCenter → DataCenter → Bool
is_center none node = false
is_center (some p) node = p.name == node.name

-- `node['province'] == pdcprovince and node['city'] == pdccity`
abbrev pub is_near : Option DataCenter → DataCenter → Bool
is_near dcprimary node =
    same_place node.province (place_of (λ d. d.province) dcprimary)
    && same_place node.city (place_of (λ d. d.city) dcprimary)

-- `dcsecondarylist` and `dcstandbylist`.
unfoldable pub split_centers :
    Option DataCenter → List DataCenter → List DataCenter × List DataCenter
split_centers dcprimary [] = ([], [])
split_centers dcprimary (node ∷ nodes) =
    let (secondary, standby) = split_centers dcprimary nodes in
    if is_center dcprimary node
    then (secondary, standby)
    else if is_near dcprimary node
    then (node ∷ secondary, standby)
    else (secondary, node ∷ standby)

-- `for node in dcs: if node.get('skip', False): raise …`
unfoldable pub forbid_skip : List DataCenter → Result (Unit {0})
forbid_skip [] = ok tt
forbid_skip (node ∷ nodes) = do
  raise_if (or_default false node.skip) (
      value_error (
        concat ("Error: datacenter " ∷ node.name ∷ " must be initialized during bootstrap !" ∷ [])))
  forbid_skip nodes

-- What a bootstrap asks of the data centers.
unfoldable pub check_bootstrap_centers :
    Bool → Option DataCenter → List DataCenter → Result (Unit {0})
unfolding forbid_skip
check_bootstrap_centers false dcprimary dcs = ok tt
check_bootstrap_centers true dcprimary dcs = do
  raise_if (not (is_some dcprimary))
      (value_error "Error: primary is not set for bootstrap operation !")
  forbid_skip dcs

-- `get_default_datacenter`; its key `skipped` is read nowhere.
abbrev pub default_center : String → DataCenter
default_center name = record {
  name = name;
  province = none;
  city = none;
  is_primary = none;
  skip = none;
}
