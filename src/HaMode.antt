-- ===== src/HaMode.antt =====
-- cluster/cluster_common.py: `validate_ha_mode`, and the tests of a replication mode against the
-- number of nodes of a shard.
use cloudnative.Base.{
  String, ◌==◌, eq_iff, ℕ, ◌<◌, eqb, ltb, not, ◌&&◌, [], ◌∷◌, Error, Result, ok, err, value_error,
  contains, string_eq, if◌then◌else◌, ◌≡◌, ◌≢◌, ◌⊎◌, arith,
}

unfoldable pub validate_ha_mode : String → Result (Unit {0})
unfolding contains
validate_ha_mode ha_mode =
    if contains ha_mode ("rbr" ∷ "no_rep" ∷ "mgr" ∷ [])
    then ok tt
    else err (value_error "Error: The ha_mode must be rbr, mgr or no_rep")

-- `if nodecnt > 1 and mode == 'no_rep': raise many` / `elif nodecnt == 1 and mode != 'no_rep':
-- raise one`
unfoldable pub check_ha_mode : Error → Error → ℕ → String → Result (Unit {0})
check_ha_mode many one nodecnt mode =
    if ltb 1 nodecnt && (mode == "no_rep")
    then err many
    else if eqb nodecnt 1 && not (mode == "no_rep")
    then err one
    else ok tt

-- The mode is one of the three.
abbrev pub IsHaMode : String → Type 0
IsHaMode m = (m ≡ "rbr") ⊎ (m ≡ "no_rep") ⊎ (m ≡ "mgr")

pub validate_ha_mode-IsHaMode : (m : String) → validate_ha_mode m ≡ ok tt → IsHaMode m
unfolding validate_ha_mode
validate_ha_mode-IsHaMode m h = ground (arith, eq_iff "rbr" m, eq_iff "no_rep" m, eq_iff "mgr" m)

-- One node goes with `no_rep`, and several with another mode.
pub record Fits (nodecnt : ℕ) (mode : String) : Type 0 where
  pub several : 1 < nodecnt → mode ≢ "no_rep"
  pub single : nodecnt ≡ 1 → mode ≡ "no_rep"

pub check_ha_mode-Fits :
    (many one : Error) (n : ℕ) (mode : String) → check_ha_mode many one n mode ≡ ok tt → Fits n mode
unfolding check_ha_mode
check_ha_mode-Fits many one n mode h = record {
  several = λ l e. ground (arith, eq_iff mode "no_rep");
  single = λ e. ground (arith, eq_iff mode "no_rep");
}
