-- ===== src/Prelude/Text/Prefix.antt =====
-- Texts that begin with another text: strings.HasPrefix and strings.TrimPrefix.
use Prim.Native.Char.{code}
use Prim.Native.String.{String, ◌++◌}
use mathlib.Core.Path.{◌≡◌, refl}
use mathlib.Core.Bool.{Bool, true, false, ◌&&◌}
use mathlib.Core.Option.{Option, none, some}
use native.Mathlib.Omega.{arith}
use text.Mathlib.TextLemmas.{cons-append, nil-append}
use foip_operator.Prelude.Tests.{◌==◌, if◌then◌else◌}

-- strings.HasPrefix, with the prefix first.
unfoldable pub has_prefix : String → String → Bool
has_prefix String.[] s = true
has_prefix (String.◌∷◌ p ps) String.[] = false
has_prefix (String.◌∷◌ p ps) (String.◌∷◌ c s) = code p == code c && has_prefix ps s

-- The text behind a prefix.
unfoldable pub cut_prefix : String → String → Option String
cut_prefix String.[] s = some s
cut_prefix (String.◌∷◌ p ps) String.[] = none
cut_prefix (String.◌∷◌ p ps) (String.◌∷◌ c s) =
    let rest = cut_prefix ps s in if code p == code c then rest else none

-- strings.TrimPrefix, with the prefix first.
unfoldable pub trim_prefix : String → String → String
trim_prefix p s = elim (cut_prefix p s) [ none ↦ s | some rest ↦ rest ]

pub has_prefix-append : (p s : String) → has_prefix p (p ++ s) ≡ true
unfolding has_prefix
has_prefix-append String.[] s = refl
has_prefix-append (String.◌∷◌ c p) s = rw cons-append (ground (arith, has_prefix-append p s))

-- A text whose beginning differs from a prefix does not have it.
pub has_prefix-append_ne :
    (p q s : String)
    → has_prefix p q ≡ false
    → has_prefix q p ≡ false
    → has_prefix p (q ++ s) ≡ false
unfolding has_prefix
has_prefix-append_ne String.[] q s h k = cc
has_prefix-append_ne (String.◌∷◌ c p) String.[] s h k = cc
has_prefix-append_ne (String.◌∷◌ c p) (String.◌∷◌ d q) s h k =
    rw cons-append (ground (arith, has_prefix-append_ne p q s))

cut_prefix-append : (p s : String) → cut_prefix p (p ++ s) ≡ some s
unfolding cut_prefix
cut_prefix-append String.[] s = rw nil-append refl
cut_prefix-append (String.◌∷◌ c p) s = rw cons-append (ground (arith, cut_prefix-append p s))

pub trim_prefix-append : (p s : String) → trim_prefix p (p ++ s) ≡ s
unfolding trim_prefix
trim_prefix-append p s = rw (cut_prefix-append p s, trim_prefix) refl
