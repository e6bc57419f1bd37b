-- ===== src/Programs/Names.antt =====
-- The names of the files of a program are different: those of its two wrappers, and that of its unit.
use Prim.Native.String.{◌++◌}
use text.Mathlib.TextLemmas.{nil-append, cons-append, append_cancel_left}
use cloudnative.Base.{String, [], ◌∷◌, ◌≡◌, ◌≢◌, ◌==◌, eq_iff, true, false, sym, ap, ◌∙◌}
use cloudnative.Base.Text.{drop_prefix}
use cloudnative.Base.Format.{format, starts_with}

-- The last letter, which is `d` in an empty text.
unfoldable pub last_letter : String → String → String
last_letter d String.[] = d
last_letter d (String.◌∷◌ c s) = last_letter (String.◌∷◌ c "") s

last_letter-append : (d a b : String) → last_letter d (a ++ b) ≡ last_letter (last_letter d a) b
unfolding last_letter
last_letter-append d String.[] b = ap (last_letter d) (nil-append b)
last_letter-append d (String.◌∷◌ c a) b =
    ap (last_letter d) (cons-append c a b) ∙ last_letter-append (String.◌∷◌ c "") a b

different_letters : (a : String) → a ≡ "h" → a ≡ "e" → ⊥
different_letters a h k = let same : ("h" == "e") ≡ true = (eq_iff "h" "e").1 (sym h ∙ k) in cc

-- The name ends like that of a script, or like that of a unit.
abbrev pub IsScript : String → Type 0
IsScript name = last_letter "" name ≡ "h"

pub script-ne-unit : (s j name : String) → IsScript s → s ≢ format "%d-%s.service" (j ∷ name ∷ [])
unfolding last_letter format
script-ne-unit s j name script h =
    different_letters (last_letter "" s) script
      (ap (last_letter "") h ∙ last_letter-append "" j _ ∙ last_letter-append "-" name ".service")

pub start_storage-IsScript :
    (i p : String) → IsScript (format "%d-start-storage-%d.sh" (i ∷ p ∷ []))
unfolding last_letter format
start_storage-IsScript i p = last_letter-append "" i _ ∙ last_letter-append "-" p ".sh"

pub stop_storage-IsScript : (i p : String) → IsScript (format "%d-stop-storage-%d.sh" (i ∷ p ∷ []))
unfolding last_letter format
stop_storage-IsScript i p = last_letter-append "" i _ ∙ last_letter-append "-" p ".sh"

pub storage_scripts_differ :
    (i p : String)
    → format "%d-start-storage-%d.sh" (i ∷ p ∷ []) ≢ format "%d-stop-storage-%d.sh" (i ∷ p ∷ [])
unfolding format starts_with drop_prefix
storage_scripts_differ i p h =
    let same : true ≡ false = ap (starts_with "-start") (append_cancel_left i _ _ h) in cc

pub start_nodemgr-IsScript :
    (i p : String) → IsScript (format "%d-start-nodemgr-%d.sh" (i ∷ p ∷ []))
unfolding last_letter format
start_nodemgr-IsScript i p = last_letter-append "" i _ ∙ last_letter-append "-" p ".sh"

pub stop_nodemgr-IsScript : (i p : String) → IsScript (format "%d-stop-nodemgr-%d.sh" (i ∷ p ∷ []))
unfolding last_letter format
stop_nodemgr-IsScript i p = last_letter-append "" i _ ∙ last_letter-append "-" p ".sh"

pub nodemgr_scripts_differ :
    (i p : String)
    → format "%d-start-nodemgr-%d.sh" (i ∷ p ∷ []) ≢ format "%d-stop-nodemgr-%d.sh" (i ∷ p ∷ [])
unfolding format starts_with drop_prefix
nodemgr_scripts_differ i p h =
    let same : true ≡ false = ap (starts_with "-start") (append_cancel_left i _ _ h) in cc
