-- ===== src/Base/Strings.antt =====
-- JavaScript strings as lists of UTF-16 code units, with the string methods that the program calls.
use Prim.Native.Nat.{ℕ, zero, suc, ◌-◌}
use Prim.Native.Char.{code}
use Prim.Native.String.{String}
use mathlib.Core.Bool.{Bool, true, false, ◌&&◌, ◌||◌}
use mathlib.Core.Logic.{ite}
use mathlib.Core.Option.{Option, none, some}
use mathlib.Core.Option
use mathlib.Core.List.{List, [], ◌∷◌, ◌++◌, reverse}
use native.Mathlib.Decide.{ℕ_discrete}
use postman_bootstrap_action.Base.Tests.{leb, ◌==◌, if◌then◌else◌}
use postman_bootstrap_action.Base.Lists.{length}

abbrev pub Text : Type 0
Text = List ℕ

-- The code units of a literal in ASCII.
abbrev pub codes : String → Text
codes String.[] = []
codes (String.◌∷◌ c s) = code c ∷ codes s

decide_text : Discrete Text
unfolding ℕ_discrete
decide_text = hlevel ℕ_discrete

unfoldable pub Text-discrete : Discrete Text
unfolding decide_text
Text-discrete = decide_text

-- `s === t`
infix 50 ◌===◌
abbrev pub ◌===◌ : Text → Text → Bool
s === t = ite (Text-discrete s t) true false

abbrev pub is_empty {ℓ} : {A : Type ℓ} → List A → Bool
is_empty [] = true
is_empty (c ∷ t) = false

-- White space and line terminators, as `trim` and `\s` read them.
unfoldable pub is_space : ℕ → Bool
is_space c =
    (leb 9 c && leb c 13)
    || c == 32
    || c == 0xa0
    || c == 0x1680
    || (leb 0x2000 c && leb c 0x200a)
    || c == 0x2028
    || c == 0x2029
    || c == 0x202f
    || c == 0x205f
    || c == 0x3000
    || c == 0xfeff

-- The longest prefix whose units pass the test is cut off; `drop_last_while` cuts at the end.
unfoldable pub drop_while : (ℕ → Bool) → Text → Text
drop_while p [] = []
drop_while p (c ∷ t) = let rest = drop_while p t in if p c then rest else c ∷ t

unfoldable pub drop_last_while : (ℕ → Bool) → Text → Text
drop_last_while p [] = []
drop_last_while p (c ∷ t) =
    let rest = drop_last_while p t in if is_empty rest && p c then [] else c ∷ rest

unfoldable pub trim : Text → Text
unfolding drop_while drop_last_while is_space
trim t = drop_last_while is_space (drop_while is_space t)

-- `t.slice(p.length)` where `t` starts with `p`.
unfoldable pub strip_prefix : Text → Text → Option Text
strip_prefix [] t = some t
strip_prefix (c ∷ p) [] = none
strip_prefix (c ∷ p) (d ∷ t) = if c == d then strip_prefix p t else none

unfoldable pub starts_with : Text → Text → Bool
starts_with [] t = true
starts_with (c ∷ p) [] = false
starts_with (c ∷ p) (d ∷ t) = c == d && starts_with p t

unfoldable pub ends_with : Text → Text → Bool
ends_with s t = starts_with (reverse s) (reverse t)

-- `t.includes(s)`
unfoldable pub includes : Text → Text → Bool
includes s [] = is_empty s
includes s (c ∷ t) = starts_with s (c ∷ t) || includes s t

-- `t.split(s).join(replacement)` for a text `s` that is not empty: behind an occurrence, the units
-- that belong to it are skipped.
unfoldable pub replace_from : Text → Text → ℕ → Text → Text
replace_from s replacement k [] = []
replace_from s replacement (suc k) (c ∷ t) = replace_from s replacement k t
replace_from s replacement zero (c ∷ t) = elim (starts_with s (c ∷ t)) [
  | true ↦ replacement ++ replace_from s replacement (length s - 1) t
  | false ↦ c ∷ replace_from s replacement zero t
]

unfoldable pub replace_all : Text → Text → Text → Text
replace_all s replacement t = replace_from s replacement zero t

-- `t.slice(0, -1)`
unfoldable pub drop_last : Text → Text
drop_last [] = []
drop_last (c ∷ t) = let rest = drop_last t in if is_empty t then [] else c ∷ rest

-- The texts before and behind the first occurrence of a unit.
unfoldable pub cut : ℕ → Text → Option (Text × Text)
cut c [] = none
cut c (d ∷ t) =
    let rest = Option.map (λ (p : Text × Text). (d ∷ p.0, p.1)) (cut c t) in
    if d == c then some ([], t) else rest

abbrev pub extend_first : ℕ → List Text → List Text
extend_first c [] = (c ∷ []) ∷ []
extend_first c (w ∷ ws) = (c ∷ w) ∷ ws

-- `t.split(c)` at a separator of one unit.
unfoldable pub split_on : ℕ → Text → List Text
split_on c [] = [] ∷ []
split_on c (d ∷ t) = let rest = split_on c t in if d == c then [] ∷ rest else extend_first d rest

abbrev pub is_upper : ℕ → Bool
is_upper c = leb b'A' c && leb c b'Z'

abbrev pub is_digit : ℕ → Bool
is_digit c = leb b'0' c && leb c b'9'

abbrev pub is_letter : ℕ → Bool
is_letter c = is_upper c || (leb b'a' c && leb c b'z')
