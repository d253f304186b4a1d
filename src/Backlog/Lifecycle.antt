-- ===== src/Backlog/Lifecycle.antt =====
-- julius/findings/lifecycle.py: the statuses of an opportunity and its audited transitions.
use julius.Common.{ℕ, String, Bool, not, ◌&&◌, List, [], ◌∷◌, elem, ◌==◌, string_eq, if◌then◌else◌}
use julius.Common.Texts.{Unicode, is_blank, strip}

-- `STATUSES`
abbrev pub statuses : List String
statuses =
    "detected" ∷ "reviewed" ∷ "accepted" ∷ "planned" ∷ "implemented" ∷ "validated" ∷ "dismissed"
    ∷ "expired" ∷ []

-- `_TRANSITIONS`
unfoldable pub transitions : String → List String
transitions s =
    if s == "detected"
    then "reviewed" ∷ "dismissed" ∷ "expired" ∷ []
    else if s == "reviewed"
    then "accepted" ∷ "dismissed" ∷ "expired" ∷ []
    else if s == "accepted"
    then "planned" ∷ "dismissed" ∷ "expired" ∷ []
    else if s == "planned"
    then "implemented" ∷ "dismissed" ∷ "expired" ∷ []
    else if s == "implemented"
    then "validated" ∷ "planned" ∷ []
    else if s == "validated"
    then "detected" ∷ []
    else if s == "dismissed"
    then "detected" ∷ []
    else if s == "expired"
    then "detected" ∷ []
    else []

unfoldable pub can_transition : String → String → Bool
unfolding transitions
can_transition from to = elem from statuses && elem to statuses && elem to (transitions from)

pub record LifecycleEvent : Type 0 where
  pub fingerprint : String
  pub account : String
  pub opportunity_id : String
  pub from_status : String
  pub to_status : String
  pub actor : String
  pub reason : String
  pub occurred_at : ℕ
  pub automatic : Bool

pub data Error : Type 0 where
  invalid_transition : String → String → Error
  actor_required reason_required : Error
  unknown_fingerprint : String → Error

pub data Result {ℓ} (A : Type ℓ) : Type ℓ where
  ok : A → Result A
  err : Error → Result A

-- `transition`: the event as it is asked for, with its actor and reason stripped.
unfoldable pub check_transition : Unicode → LifecycleEvent → Result LifecycleEvent
unfolding can_transition
check_transition u event =
    if not (can_transition event.from_status event.to_status)
    then err (invalid_transition event.from_status event.to_status)
    else if is_blank (strip u event.actor)
    then err actor_required
    else if is_blank (strip u event.reason)
    then err reason_required
    else ok (record event { actor = strip u event.actor; reason = strip u event.reason })
