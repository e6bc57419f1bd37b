-- ===== src/Base/Format.antt =====
-- Python's `pattern % arguments` with `%s` and `%d`, and the search in a text.
use Prim.Native.Char.{code}
use Prim.Native.String.{String, ◌++◌}
use mathlib.Core.Path.{◌≡◌, refl}
use mathlib.Core.Bool.{Bool, true, false}
use mathlib.Core.List.{List, [], ◌∷◌}
use cloudnative.Base.Tests.{eqb, if◌then◌else◌, is_some}
use cloudnative.Base.Text.{drop_prefix}

-- The pattern from a place on; the flag is set behind a `%`, whose letter goes. Without arguments
-- left the rest of the pattern stays, as the patterns have as many places as arguments.
format_from : Bool → String → List String → String
format_from skip String.[] args = ""
format_from true (String.◌∷◌ c s) args = format_from false s args
format_from false (String.◌∷◌ c s) [] = String.◌∷◌ c s
format_from false (String.◌∷◌ c s) (a ∷ args) =
    let filled = a ++ format_from true s args in
    let kept = String.◌∷◌ c (format_from false s (a ∷ args)) in
    if eqb (code c) 37 then filled else kept

-- The arguments are texts already, numbers through `show`.
unfoldable pub format : String → List String → String
unfolding format_from
format pattern args = format_from false pattern args

-- `text.find(part) >= 0`
unfoldable pub has_text : String → String → Bool
has_text part String.[] = is_some (drop_prefix part "")
has_text part (String.◌∷◌ c s) =
    let rest = has_text part s in if is_some (drop_prefix part (String.◌∷◌ c s)) then true else rest

-- `text.startswith(part)`
unfoldable pub starts_with : String → String → Bool
starts_with part text = is_some (drop_prefix part text)

format_test : format "cd %s || exit %d\n" ("/a" ∷ "1" ∷ []) ≡ "cd /a || exit 1\n"
unfolding format
format_test = refl

has_text_test : has_text "sudo " "x; sudo ls" ≡ true
unfolding has_text drop_prefix
has_text_test = refl
