-- ===== src/Delivery/Messages.antt =====
-- julius/reporting/delivery/models.py and config.py: what is sent, what sending answers, and the
-- settings that authorise it.
use julius.Common.{ℕ, String, Bool, Option, List}

pub record EmailMessage : Type 0 where
  pub subject : String
  pub sender : String
  pub recipients : List String
  pub text_body : String
  pub html_body : String
  pub cc : List String
  pub attachments : List (String × String)
  pub tags : List (String × String)
  pub idempotency_key : String

pub record SendResult : Type 0 where
  pub status : String
  pub transport : String
  pub provider_message_id : Option String
  pub outbox_dir : Option String
  pub reason : Option String

pub record EmailSettings : Type 0 where
  pub mode : String
  pub sender : String
  pub allowed_recipient_domains : List String
  pub approved_recipient_groups : List String
  pub max_recipients : ℕ

-- The circumstances of a call that the policy reads besides the message.
pub record Circumstances : Type 0 where
  pub mode : String
  pub confirmed : Bool
  pub non_interactive : Bool
  pub recipient_group : String
  pub critical_error : Bool
