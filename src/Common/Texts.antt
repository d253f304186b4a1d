-- ===== src/Common/Texts.antt =====
-- The methods of Python's `str` that julius/reporting/delivery and julius/findings use. Which
-- characters are spaces and how a text is lowered are tables of Unicode: parameters.
use Prim.Native.Char.{Char, code}
use Prim.Native.Nat.{ℕ, zero, suc}
use Prim.Native.String.{[], ◌∷◌}
use Prim.Native.String.{String}
use mathlib.Core.Bool.{Bool, true, false, ◌&&◌}
use mathlib.Core.Option.{Option, none, some}
use julius.Common.Tests.{◌==◌, nat_eq, if◌then◌else◌}

pub record Unicode : Type 0 where
  pub is_space : Char → Bool
  pub lower : String → String

-- `not text`
abbrev pub is_blank : String → Bool
is_blank [] = true
is_blank (c ∷ s) = false

-- `text.lstrip(mark)`, for one character
unfoldable pub strip_left : (Char → Bool) → String → String
strip_left p [] = []
strip_left p (c ∷ s) = if p c then strip_left p s else c ∷ s

unfoldable pub strip_right : (Char → Bool) → String → String
strip_right p [] = []
strip_right p (c ∷ s) = let rest = strip_right p s in if p c && is_blank rest then [] else c ∷ rest

unfoldable pub strip : Unicode → String → String
unfolding strip_left strip_right
strip u s = strip_right u.is_space (strip_left u.is_space s)

abbrev pub is_at : Char → Bool
is_at c = code c == 64

-- What stands behind the last '@'.
unfoldable pub after_at : String → Option String
after_at [] = none
after_at (c ∷ s) = elim (after_at s) [ none ↦ if is_at c then some s else none | some d ↦ some d ]

-- address.rsplit("@", 1)[-1].lower() if "@" in address else ""
unfoldable pub domain_of : Unicode → String → String
unfolding after_at
domain_of u address = elim (after_at address) [ none ↦ "" | some d ↦ u.lower d ]

-- `len(text)`
abbrev pub text_length : String → ℕ
text_length [] = 0
text_length (c ∷ s) = suc (text_length s)

-- text[:n]
abbrev pub prefix : ℕ → String → String
prefix zero s = []
prefix (suc n) [] = []
prefix (suc n) (c ∷ s) = c ∷ prefix n s
