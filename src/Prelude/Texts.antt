-- ===== src/Prelude/Texts.antt =====
-- The order of texts: Python's, by code point, which is also SQLite's on UTF-8.
use Prim.Native.Char.{Char, code}
use Prim.Native.String.{String}
use mathlib.Core.Path.{◌≡◌, refl, ap₂}
use mathlib.Core.Bool.{Bool, true, false}
use text.Mathlib.TextEquality.{Char-path}
use native.Mathlib.Omega.{arith}
use vai_core.Prelude.Tests.{ltb, if◌then◌else◌}

-- `s < t` on texts.
unfoldable pub text_lt : String → String → Bool
text_lt String.[] String.[] = false
text_lt String.[] (String.◌∷◌ c t) = true
text_lt (String.◌∷◌ b s) String.[] = false
text_lt (String.◌∷◌ b s) (String.◌∷◌ c t) =
    let rest = text_lt s t in
    if ltb (code b) (code c) then true else if ltb (code c) (code b) then false else rest

pub text_lt-asymm : (s t : String) → text_lt s t ≡ true → text_lt t s ≡ false
unfolding text_lt
text_lt-asymm String.[] String.[] h = refl
text_lt-asymm String.[] (String.◌∷◌ c t) h = refl
text_lt-asymm (String.◌∷◌ b s) String.[] h = cc
text_lt-asymm (String.◌∷◌ b s) (String.◌∷◌ c t) h = ground (arith, text_lt-asymm s t)

-- "Not before" is transitive.
pub text_lt-not_trans :
    (s t u : String) → text_lt s t ≡ false → text_lt t u ≡ false → text_lt s u ≡ false
unfolding text_lt
text_lt-not_trans String.[] String.[] u h k = k
text_lt-not_trans String.[] (String.◌∷◌ c t) u h k = absurd (cc h)
text_lt-not_trans (String.◌∷◌ b s) t String.[] h k = refl
text_lt-not_trans (String.◌∷◌ b s) String.[] (String.◌∷◌ d u) h k = absurd (cc k)
text_lt-not_trans (String.◌∷◌ b s) (String.◌∷◌ c t) (String.◌∷◌ d u) h k =
    ground (arith, text_lt-not_trans s t u)

heads_equal :
    (b c : Char) (s t : String)
    → text_lt (String.◌∷◌ b s) (String.◌∷◌ c t) ≡ false
    → text_lt (String.◌∷◌ c t) (String.◌∷◌ b s) ≡ false
    → (code b ≡ code c) × (text_lt s t ≡ false) × (text_lt t s ≡ false)
unfolding text_lt
heads_equal b c s t h k = ground arith

pub text_lt-connex : (s t : String) → text_lt s t ≡ false → text_lt t s ≡ false → s ≡ t
unfolding text_lt
text_lt-connex String.[] String.[] h k = refl
text_lt-connex String.[] (String.◌∷◌ c t) h k = absurd (cc h)
text_lt-connex (String.◌∷◌ b s) String.[] h k = absurd (cc k)
text_lt-connex (String.◌∷◌ b s) (String.◌∷◌ c t) h k =
    let (heads, st, ts) = heads_equal b c s t h k in
    ap₂ String.◌∷◌ (Char-path b c heads) (text_lt-connex s t st ts)
