-- ===== src/Runs/Claiming.antt =====
-- `claim_next` serves the queue in the order of its ORDER BY.
use julius.Common.{String, ◌≡◌, Bool, true, false, List, All, string_eq, nat_eq}
use julius.Runs.Ledger.{Job}
use julius.Runs.Queue.{is_pending, earlier}

-- What the order of texts in an ORDER BY satisfies: it is a strict weak order.
pub record IsTextOrder (precedes : String → String → Bool) : Type 0 where
  pub irreflexive : (a : String) → precedes a a ≡ false
  pub asymmetric : (a b : String) → precedes a b ≡ true → precedes b a ≡ false
  pub not_trans :
      (a b c : String) → precedes a b ≡ false → precedes b c ≡ false → precedes a c ≡ false

module _ (precedes : String → String → Bool) (order : IsTextOrder precedes) where
  abbrev NotEarlier : Job → Job → Type 0
  NotEarlier j k = is_pending j.status ≡ true → earlier precedes j k ≡ false

  abbrev First : List Job → Job → Type 0
  First js j = (is_pending j.status ≡ true) × All (λ i. NotEarlier i j) js
