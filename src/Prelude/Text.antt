-- ===== src/Prelude/Text.antt =====
-- Python's `str.strip`, on code points.
use karibu.Prelude.Tests.{leb, ◌==◌, if◌then◌else◌}
use Prim.Native.Nat.{ℕ}
use Prim.Native.Char.{code}
use Prim.Native.String.{String}
use mathlib.Core.Bool.{Bool, true, false, ◌&&◌, ◌||◌}
use mathlib.Core.Path.{◌≡◌, refl}
use mathlib.Core.Option.{Option, none, some}

-- `str.isspace` of one character
pub is_space : ℕ → Bool
is_space c =
    (leb 9 c && leb c 13)
    || (leb 28 c && leb c 32)
    || c == 0x85
    || c == 0xa0
    || c == 0x1680
    || (leb 0x2000 c && leb c 0x200a)
    || c == 0x2028
    || c == 0x2029
    || c == 0x202f
    || c == 0x205f
    || c == 0x3000

abbrev pub is_empty : String → Bool
is_empty String.[] = true
is_empty (String.◌∷◌ c s) = false

lstrip : String → String
unfolding is_space
lstrip String.[] = String.[]
lstrip (String.◌∷◌ c s) = let rest = lstrip s in if is_space (code c) then rest else String.◌∷◌ c s

rstrip : String → String
unfolding is_space
rstrip String.[] = String.[]
rstrip (String.◌∷◌ c s) =
    let rest = rstrip s in
    if is_empty rest && is_space (code c) then String.[] else String.◌∷◌ c rest

unfoldable pub strip : String → String
unfolding lstrip rstrip
strip s = rstrip (lstrip s)

-- `(o or "").strip() or None`
abbrev pub strip_or_none : Option String → Option String
strip_or_none none = none
strip_or_none (some s) = if is_empty (strip s) then none else some (strip s)

strip-spaces : strip "  Mama Mboga " ≡ "Mama Mboga"
unfolding strip
strip-spaces = refl

strip-blank : strip "   " ≡ ""
unfolding strip
strip-blank = refl
