-- ===== src/Common/Stripping.antt =====
-- What `str.strip` leaves: nothing more to strip, and no more characters than there were.
use Prim.Native.Char.{Char}
use Prim.Native.Nat.{◌≤◌}
use Prim.Native.String.{String, [], ◌∷◌}
use mathlib.Core.Path.{◌≡◌, refl, ◌∙◌, ap}
use mathlib.Core.Bool.{Bool, ◌&&◌}
use mathlib.Core.Logic.{inl, inr}
use native.Mathlib.Omega.{arith}
use julius.Common.Tests.{Bool-cases}
use julius.Common.Texts.{Unicode, is_blank, strip_left, strip_right, strip, text_length}

module _ (p : Char → Bool) where
  strip_right-strip_right : (s : String) → strip_right p (strip_right p s) ≡ strip_right p s
  unfolding strip_right
  strip_right-strip_right [] = refl
  strip_right-strip_right (c ∷ s) = elim (Bool-cases (p c && is_blank (strip_right p s))) [
    | inl e ↦ rw (strip_right, e)
    | inr e ↦ rw (strip_right, e, strip_right-strip_right s, e)
  ]

  strip_left-strip_right :
      (s : String) → strip_left p (strip_right p (strip_left p s)) ≡ strip_right p (strip_left p s)
  unfolding strip_left strip_right
  strip_left-strip_right [] = refl
  strip_left-strip_right (c ∷ s) = elim (Bool-cases (p c)) [
    | inl e ↦ rw (strip_left, e, strip_left-strip_right s)
    | inr e ↦ rw (strip_left, e, strip_right, e, strip_left, e)
  ]

  strip_left-length : (s : String) → text_length (strip_left p s) ≤ text_length s
  unfolding strip_left
  strip_left-length [] = omega arith
  strip_left-length (c ∷ s) = ground (arith, strip_left-length s)

  strip_right-length : (s : String) → text_length (strip_right p s) ≤ text_length s
  unfolding strip_right
  strip_right-length [] = omega arith
  strip_right-length (c ∷ s) = ground (arith, strip_right-length s)

pub strip-strip : (u : Unicode) (s : String) → strip u (strip u s) ≡ strip u s
unfolding strip
strip-strip u s =
    ap (strip_right u.is_space) (strip_left-strip_right u.is_space s)
    ∙ strip_right-strip_right u.is_space (strip_left u.is_space s)

pub strip-length : (u : Unicode) (s : String) → text_length (strip u s) ≤ text_length s
unfolding strip
strip-length u s =
    omega (
      arith,
      strip_left-length u.is_space s,
      strip_right-length u.is_space (strip_left u.is_space s),
    )
