-- ===== src/Common/Chains.antt =====
-- Chains of moves that a transition table allows.
use mathlib.Core.Path.{◌≡◌, refl}
use mathlib.Core.Bool.{Bool, true, false}

pub data Chain {A : Type 0} (allows : A → A → Bool) : A → A → Type 0 where
  stay : (a : A) → Chain allows a a
  move : (a b : A) {c : A} → allows a b ≡ true → Chain allows b c → Chain allows a c

module _ {A : Type 0} (allows : A → A → Bool) where
  pub Chain-trans : (a b c : A) → Chain allows a b → Chain allows b c → Chain allows a c
  Chain-trans a b c (stay _) q = q
  Chain-trans a b c (move _ d h p) q = move a d h (Chain-trans d b c p q)

  pub Chain-one : (a b : A) → allows a b ≡ true → Chain allows a b
  Chain-one a b h = move a b h (stay b)

  pub Chain-final : (a b : A) → Chain allows a b → ((d : A) → allows a d ≡ false) → b ≡ a
  Chain-final a b (stay _) f = refl
  Chain-final a b (move _ d h p) f = cc (f d)
