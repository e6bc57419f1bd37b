-- ===== src/Base/Text.antt =====
-- Python's `str`: joining, `split`, `int`, `%d`. A text is a native string; `int` reads decimal
-- digits with blanks around them (no sign).
use Prim.Native.Char.{Char, code}
use Prim.Native.Nat.{ℕ, zero, suc, ◌+◌, ◌-◌, ◌*◌, ◌/◌, ◌%◌}
use Prim.Native.String.{String, ◌++◌}
use mathlib.Core.Path.{◌≡◌, refl}
use mathlib.Core.Bool.{false, Bool, ◌&&◌, ◌||◌}
use mathlib.Core.Option.{Option, none, some}
use mathlib.Core.List.{List, [], ◌∷◌}
use cloudnative.Base.Tests.{ltb, leb, eqb, if◌then◌else◌}
use cloudnative.Base.Outcomes.{Result, ok, err, bad_int}

-- The pieces of a formatted text, one behind the other.
abbrev pub concat : List String → String
concat [] = ""
concat (s ∷ []) = s
concat (s ∷ ss) = s ++ concat ss

-- `sep.join(parts)`
unfoldable pub join : String → List String → String
join sep [] = ""
join sep (s ∷ []) = s
join sep (s ∷ ss) = s ++ (sep ++ join sep ss)

onto_head : Char → List String → List String
onto_head c [] = (String.◌∷◌ c "") ∷ []
onto_head c (s ∷ ss) = (String.◌∷◌ c s) ∷ ss

-- `text.split(sep)` at a separator of one character, given by its code.
unfoldable pub split : ℕ → String → List String
unfolding onto_head
split sep String.[] = "" ∷ []
split sep (String.◌∷◌ c s) =
    let rest = split sep s in if eqb (code c) sep then "" ∷ rest else onto_head c rest

is_blank : ℕ → Bool
is_blank c = eqb c 32 || (leb 9 c && leb c 13)

unfoldable pub lstrip : String → String
unfolding is_blank
lstrip String.[] = ""
lstrip (String.◌∷◌ c s) = let rest = lstrip s in if is_blank (code c) then rest else String.◌∷◌ c s

-- Blanks at the end go: a blank stays only if something is left behind it.
keep_blank : Char → String → String
unfolding is_blank
keep_blank c String.[] = if is_blank (code c) then "" else String.◌∷◌ c ""
keep_blank c (String.◌∷◌ d s) = String.◌∷◌ c (String.◌∷◌ d s)

unfoldable pub rstrip : String → String
unfolding keep_blank
rstrip String.[] = ""
rstrip (String.◌∷◌ c s) = keep_blank c (rstrip s)

-- `text.strip()`
unfoldable pub strip : String → String
unfolding lstrip rstrip
strip s = rstrip (lstrip s)

is_digit : ℕ → Bool
is_digit c = leb 48 c && leb c 57

unfoldable pub digits : ℕ → String → Option ℕ
unfolding is_digit
digits n String.[] = some n
digits n (String.◌∷◌ c s) =
    let rest = digits (n * 10 + (code c - 48)) s in if is_digit (code c) then rest else none

int_of : String → Option ℕ
unfolding digits
int_of String.[] = none
int_of (String.◌∷◌ c s) = digits 0 (String.◌∷◌ c s)

-- `int(text)`
unfoldable pub int : String → Result ℕ
unfolding int_of strip
int text = elim (int_of (strip text)) [ none ↦ err (bad_int text) | some n ↦ ok n ]

digit : ℕ → String
digit zero = "0"
digit (suc zero) = "1"
digit (suc (suc zero)) = "2"
digit (suc (suc (suc zero))) = "3"
digit (suc (suc (suc (suc zero)))) = "4"
digit (suc (suc (suc (suc (suc zero))))) = "5"
digit (suc (suc (suc (suc (suc (suc zero)))))) = "6"
digit (suc (suc (suc (suc (suc (suc (suc zero))))))) = "7"
digit (suc (suc (suc (suc (suc (suc (suc (suc zero)))))))) = "8"
digit _ = "9"

-- Digits in front of `tail`; the fuel is at least the number of digits.
show_onto : ℕ → ℕ → String → String
unfolding digit
show_onto zero n tail = tail
show_onto (suc f) n tail =
    let more = show_onto f (n / 10) (digit (n % 10) ++ tail) in
    if ltb n 10 then digit n ++ tail else more

-- `str(n)`, `%d`: a number has at most that many digits, and one.
unfoldable pub show : ℕ → String
unfolding show_onto
show n = show_onto (suc n) n ""

show_test : show 57001 ≡ "57001"
unfolding show
show_test = refl

split_test : split b'-' "57000-58000" ≡ "57000" ∷ "58000" ∷ []
unfolding split
split_test = refl

int_test : int " 57000" ≡ ok 57000
unfolding int
int_test = refl

strip_test : strip "  a b " ≡ "a b"
unfolding strip
strip_test = refl

-- `text.split(sep)[0]`
unfoldable pub first_piece : ℕ → String → String
first_piece sep text = elim (split sep text) [ [] ↦ "" | s ∷ ss ↦ s ]

-- `text.startswith('/')`
unfoldable pub is_absolute : String → Bool
is_absolute String.[] = false
is_absolute (String.◌∷◌ c s) = eqb (code c) 47

-- What follows `old` at the front of a text.
unfoldable pub drop_prefix : String → String → Option String
drop_prefix String.[] s = some s
drop_prefix (String.◌∷◌ c old) String.[] = none
drop_prefix (String.◌∷◌ c old) (String.◌∷◌ d s) =
    let rest = drop_prefix old s in if eqb (code c) (code d) then rest else none

-- `text.replace(old, new)`. The counter says how many characters of a replaced piece still go.
replace_from : String → String → ℕ → String → String
unfolding drop_prefix
replace_from old new skip String.[] = ""
replace_from old new (suc skip) (String.◌∷◌ c s) = replace_from old new skip s
replace_from old new zero (String.◌∷◌ c s) =
    let kept = String.◌∷◌ c (replace_from old new zero s) in
    let replaced = new ++ replace_from old new (Prim.Native.String.count old - 1) s in
    elim (drop_prefix old (String.◌∷◌ c s)) [ none ↦ kept | some _ ↦ replaced ]

unfoldable pub replace : String → String → String → String
unfolding replace_from
replace old new text = replace_from old new 0 text

replace_test : replace "VERSION" "1.2" "x:VERSION-a" ≡ "x:1.2-a"
unfolding replace
replace_test = refl
