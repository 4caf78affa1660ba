-- ===== src/Common/Strings.antt =====
-- The functions of Go's `strings` that the program uses, on lists of ASCII bytes.
use dinosaur_dns.Common.Bools.{leb, ◌==◌, if◌then◌else◌}
use dinosaur_dns.Common.Maps.{Str}
use dinosaur_dns.Common.Lists.{length, drop}
use Prim.Native.Nat.{ℕ, ◌+◌, ◌-◌}
use Prim.Native.Char.{code}
use Prim.Native.String.{String}
use mathlib.Core.Path.{◌≡◌, refl, ap, ap₂}
use mathlib.Core.Bool.{Bool, true, false, ◌&&◌, ◌||◌}
use mathlib.Core.List.{List, [], ◌∷◌, map}
use native.Mathlib.Omega.{arith}

-- The bytes of an ASCII literal.
abbrev pub codes : String → Str
codes String.[] = []
codes (String.◌∷◌ c s) = code c ∷ codes s

unfoldable pub lower : ℕ → ℕ
lower c = if leb b'A' c && leb c b'Z' then c + 32 else c

unfoldable pub upper : ℕ → ℕ
upper c = if leb b'a' c && leb c b'z' then c - 32 else c

-- strings.ToLower, strings.ToUpper
unfoldable pub to_lower : Str → Str
to_lower s = map lower s

unfoldable pub to_upper : Str → Str
to_upper s = map upper s

-- strings.TrimSuffix(s, ".")
unfoldable pub trim_dot : Str → Str
trim_dot [] = []
trim_dot (x ∷ []) = if x == b'.' then [] else x ∷ []
trim_dot (x ∷ y ∷ s) = x ∷ trim_dot (y ∷ s)

unfoldable pub cons_head : ℕ → List Str → List Str
cons_head x [] = (x ∷ []) ∷ []
cons_head x (w ∷ ws) = (x ∷ w) ∷ ws

-- strings.Split(s, c) for a separator of one byte
unfoldable pub split_on : ℕ → Str → List Str
unfolding cons_head
split_on c [] = [] ∷ []
split_on c (x ∷ s) = let rest = split_on c s in if x == c then [] ∷ rest else cons_head x rest

-- \s of a regular expression
unfoldable pub is_space : ℕ → Bool
is_space c = c == 32 || (c == 9 || (c == 10 || (c == 12 || c == 13)))

-- The white space of strings.TrimSpace also has the vertical tab.
unfoldable pub is_blank : ℕ → Bool
unfolding is_space
is_blank c = is_space c || c == 11

unfoldable pub trim_left : Str → Str
trim_left [] = []
trim_left (x ∷ s) = let rest = trim_left s in if is_blank x then rest else x ∷ s

unfoldable pub trim_right : Str → Str
trim_right [] = []
trim_right (x ∷ s) = keep x (trim_right s)
  where
    keep : ℕ → Str → Str
    keep y [] = if is_blank y then [] else y ∷ []
    keep y (z ∷ r) = y ∷ z ∷ r

-- strings.TrimSpace
unfoldable pub trim_space : Str → Str
unfolding trim_left trim_right is_blank
trim_space s = trim_left (trim_right s)

-- strings.HasPrefix
unfoldable pub has_prefix : Str → Str → Bool
has_prefix s [] = true
has_prefix [] (p ∷ ps) = false
has_prefix (x ∷ s) (p ∷ ps) = x == p && has_prefix s ps

-- strings.TrimPrefix
unfoldable pub trim_prefix : Str → Str → Str
unfolding has_prefix
trim_prefix s p = if has_prefix s p then drop (length p) s else s

pub to_lower_idem : (s : Str) → to_lower (to_lower s) ≡ to_lower s
unfolding to_lower lower
to_lower_idem [] = refl
to_lower_idem (c ∷ s) = ap₂ ◌∷◌ (ground arith) (to_lower_idem s)

pub trim_dot-to_lower : (s : Str) → trim_dot (to_lower s) ≡ to_lower (trim_dot s)
unfolding trim_dot to_lower lower
trim_dot-to_lower [] = refl
trim_dot-to_lower (x ∷ []) = ground arith
trim_dot-to_lower (x ∷ y ∷ s) = ap (◌∷◌ (lower x)) (trim_dot-to_lower (y ∷ s))
