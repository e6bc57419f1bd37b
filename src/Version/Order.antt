-- ===== src/Version/Order.antt =====
-- The three tests of a version against each other.
use cloudnative.Base.{String, ℕ, ◌+◌, ◌≡◌, true, ok, arith}
use cloudnative.Base.Text.{split}
use cloudnative.Version.{
  version_part, check_version_to_major, check_version_to_minor, check_version_to_patch,
}

-- A version that is new enough to the patch is new enough to the minor number, and one that is
-- new enough to the minor number is so to the major one. A version with three parts that is new
-- enough to the next minor number, or to the next major number, is new enough to any patch.
pub check_version_to_patch-Ordered :
    (version : String) (a b c : ℕ)
    → (check_version_to_patch version a b c ≡ ok true
        → check_version_to_minor version a b ≡ ok true)
      × (check_version_to_minor version a b ≡ ok true → check_version_to_major version a ≡ ok true)
      × ((patch : ℕ)
          → version_part (split b'.' version) 2 ≡ ok patch
          → (check_version_to_minor version a (b + 1) ≡ ok true)
          → check_version_to_patch version a b c ≡ ok true)
      × ((minor patch : ℕ)
          → version_part (split b'.' version) 1 ≡ ok minor
          → version_part (split b'.' version) 2 ≡ ok patch
          → check_version_to_major version (a + 1) ≡ ok true
          → check_version_to_patch version a b c ≡ ok true)
unfolding check_version_to_major check_version_to_minor check_version_to_patch
check_version_to_patch-Ordered version a b c = (
  λ h. ground arith,
  λ h. ground arith,
  λ patch e h. ground arith,
  λ minor patch d e h. ground arith,
)
