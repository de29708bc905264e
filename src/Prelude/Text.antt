-- ===== src/Prelude/Text.antt =====
-- Python's `str` as the list of its code points, with the methods that the program calls.
-- `lower` and `upper` map the ASCII letters and leave every other code point as it is.
use Prim.Native.Nat.{ℕ, ◌+◌, ◌-◌}
use Prim.Native.Char.{code}
use Prim.Native.String.{String}
use mathlib.Core.Path.{◌≡◌, refl}
use mathlib.Core.Bool.{Bool, true, false, ◌&&◌, ◌||◌}
use mathlib.Core.List.{List, [], ◌∷◌, map, reverse}
use mathlib.Core.Option.{Option, none, some}
use network_mapper.Prelude.Tests.{leb, nat_beq, if◌then◌else◌}
use network_mapper.Prelude.Eq.{nat_eq, list_eq, ◌==◌}

abbrev pub Text : Type 0
Text = List ℕ

-- The code points of a literal.
abbrev pub codes : String → Text
codes String.[] = []
codes (String.◌∷◌ c s) = code c ∷ codes s

is_upper_letter : ℕ → Bool
is_upper_letter c = leb b'A' c && leb c b'Z'

is_lower_letter : ℕ → Bool
is_lower_letter c = leb b'a' c && leb c b'z'

unfoldable pub lower_char : ℕ → ℕ
unfolding is_upper_letter
lower_char c = if is_upper_letter c then c + 32 else c

unfoldable pub upper_char : ℕ → ℕ
unfolding is_lower_letter
upper_char c = if is_lower_letter c then c - 32 else c

-- `s.lower()`
unfoldable pub lower : Text → Text
unfolding lower_char
lower s = map lower_char s

-- `s.upper()`
unfoldable pub upper : Text → Text
unfolding upper_char
upper s = map upper_char s

-- The code points c with `chr(c).isspace()`.
unfoldable pub is_space : ℕ → Bool
is_space c =
    (leb 9 c && leb c 13)
    || (leb 28 c && leb c 32)
    || nat_beq c 0x85
    || nat_beq c 0xa0
    || nat_beq c 0x1680
    || (leb 0x2000 c && leb c 0x200a)
    || nat_beq c 0x2028
    || nat_beq c 0x2029
    || nat_beq c 0x202f
    || nat_beq c 0x205f
    || nat_beq c 0x3000

-- `s.lstrip()`
unfoldable pub lstrip : Text → Text
unfolding is_space
lstrip [] = []
lstrip (c ∷ s) = if is_space c then lstrip s else c ∷ s

-- `s.strip()`
unfoldable pub strip : Text → Text
unfolding lstrip
strip s = reverse (lstrip (reverse (lstrip s)))

-- `s.startswith(p)`
unfoldable pub starts_with : Text → Text → Bool
starts_with [] s = true
starts_with (c ∷ p) [] = false
starts_with (c ∷ p) (d ∷ s) = c == d && starts_with p s

-- `p in s`
unfoldable pub contains : Text → Text → Bool
unfolding starts_with
contains p [] = starts_with p []
contains p (c ∷ s) = starts_with p (c ∷ s) || contains p s

-- `bool(s)`
abbrev pub is_filled : Text → Bool
is_filled [] = false
is_filled (c ∷ s) = true

-- `s or ""` for an optional string
abbrev pub or_empty : Option Text → Text
or_empty none = []
or_empty (some s) = s

shout : lower (codes "Core-SW1") ≡ codes "core-sw1"
unfolding lower
shout = refl

trimmed : strip (codes " \t HP ProCurve  ") ≡ codes "HP ProCurve"
unfolding strip
trimmed = refl

found :
    (contains (codes "curve") (codes "procurve 1") ≡ true)
    × (contains (codes "x") (codes "abc") ≡ false)
unfolding contains
found = (refl, refl)
