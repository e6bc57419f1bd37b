-- ===== src/Version.antt =====
-- cluster/cluster_common.py: the tests `check_version_to_major`, `check_version_to_minor` and
-- `check_version_to_patch` of a product version against the first one with a feature.
pub mod Order
use cloudnative.Base.{
  String, ℕ, eqb, ltb, leb, Bool, true, false, ◌&&◌, ◌||◌, none, some, List, get_elem?, Result, ok,
  err, index_error, ◌>>=◌,
}
use cloudnative.Base.Text.{split, int}

-- `int(vers[i])`
unfoldable pub version_part : List String → ℕ → Result ℕ
version_part vers i = elim (get_elem? vers i) [ none ↦ err index_error | some text ↦ int text ]

unfoldable pub check_version_to_major : String → ℕ → Result Bool
check_version_to_major version mver = do
  major ← version_part (split b'.' version) 0
  ok (leb mver major)

unfoldable pub check_version_to_minor : String → ℕ → ℕ → Result Bool
check_version_to_minor version majorv minorv = do
  let vers = split b'.' version
  major ← version_part vers 0
  minor ← version_part vers 1
  ok (ltb majorv major || (eqb major majorv && leb minorv minor))

unfoldable pub check_version_to_patch : String → ℕ → ℕ → ℕ → Result Bool
check_version_to_patch version majorv minorv patchv = do
  let vers = split b'.' version
  major ← version_part vers 0
  minor ← version_part vers 1
  patch ← version_part vers 2
  ok (
      ltb majorv major
      || (eqb major majorv && ltb minorv minor)
      || (eqb major majorv && eqb minor minorv && leb patchv patch))
