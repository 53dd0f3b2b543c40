-- ===== src/Common/Text.antt =====
-- Python's `str` as its code points, and the whitespace that `str.strip` and `str.isspace` know.
use Prim.Native.Nat.{ℕ}
use Prim.Native.Char.{code}
use Prim.Native.String.{String}
use mathlib.Core.Bool.{Bool, true, ◌&&◌, ◌||◌}
use mathlib.Core.Path.{◌≡◌, refl, sym, ap, ◌∙◌}
use mathlib.Core.List.{List, [], ◌∷◌, ◌++◌, reverse, reverse-append, reverse-reverse}
use eeveetuber.Common.Tests.{leb, ◌==◌, if◌then◌else◌, if_cases}

abbrev pub Str : Type 0
Str = List ℕ

-- The code points of a literal.
abbrev pub codes : String → Str
codes String.[] = []
codes (String.◌∷◌ c s) = code c ∷ codes s

abbrev between : ℕ → ℕ → ℕ → Bool
between lo hi c = leb lo c && leb c hi

-- `str.isspace` of one character.
unfoldable pub is_space : ℕ → Bool
is_space c =
    between 9 13 c
    || between 28 32 c
    || c == 0x85
    || c == 0xa0
    || c == 0x1680
    || between 0x2000 0x200a c
    || between 0x2028 0x2029 c
    || c == 0x202f
    || c == 0x205f
    || c == 0x3000

-- `not text.strip()`
unfoldable pub is_blank : Str → Bool
unfolding is_space
is_blank [] = true
is_blank (c ∷ s) = is_space c && is_blank s

-- `text.lstrip()`
unfoldable pub lstrip : Str → Str
unfolding is_space
lstrip [] = []
lstrip (c ∷ s) = if is_space c then lstrip s else c ∷ s

-- `text.rstrip()`
unfoldable pub rstrip : Str → Str
unfolding lstrip
rstrip s = reverse (lstrip (reverse s))

-- `text.strip()`
unfoldable pub strip : Str → Str
unfolding rstrip lstrip
strip s = rstrip (lstrip s)

lstrip-suffix : (s : Str) → (front : Str) × (front ++ lstrip s ≡ s)
unfolding lstrip
lstrip-suffix [] = ([], refl)
lstrip-suffix (c ∷ s) =
    let (front, e) = lstrip-suffix s in
    if_cases (λ (t : Str). (front : Str) × (front ++ t ≡ c ∷ s)) (is_space c)
      (λ _. (c ∷ front, ap (λ r. c ∷ r) e)) (λ _. ([], refl))

-- `rstrip` only takes characters away at the end.
pub rstrip-prefix : (s : Str) → (back : Str) × (rstrip s ++ back ≡ s)
unfolding rstrip
rstrip-prefix s =
    let (front, e) = lstrip-suffix (reverse s) in
    (
      reverse front,
      sym (reverse-append front (lstrip (reverse s))) ∙ (ap reverse e ∙ reverse-reverse s),
    )
