-- ===== src/Delivery/Service.antt =====
-- `NotificationService.send_report` of julius/reporting/delivery/service.py and the log of
-- julius/reporting/delivery/send_log.py. The transport is a parameter: what its `send` answers,
-- `none` where it raises; and so is whether the log's file can be written.
use Prim.Native.String.{◌++◌ as str_append}
use julius.Common.{
  ℕ, String, Bool, false, not, Option, none, some, List, [], ◌∷◌, elem, get, put, ◌==◌, string_eq,
  if◌then◌else◌,
}
use julius.Common.Texts.{Unicode}
use julius.Delivery.Messages.{EmailMessage, SendResult, EmailSettings, Circumstances}
use julius.Delivery.Policy.{allowed, refused, evaluate}

pub record SendRecord : Type 0 where
  pub idempotency_key : String
  pub transport : String
  pub status : String
  pub sent_at : ℕ
  pub provider_message_id : Option String

-- The file of the log: missing, one that cannot be read or is no JSON, or the dict that it holds.
pub data SendLog : Type 0 where
  absent unreadable : SendLog
  holds : List (String × SendRecord) → SendLog

-- `_load`
unfoldable pub load : SendLog → List (String × SendRecord)
load absent = []
load unreadable = []
load (holds data_of) = data_of

abbrev pub is_sent : Option SendRecord → Bool
is_sent none = false
is_sent (some item) = item.status == "sent"

unfoldable pub was_sent : String → SendLog → Bool
unfolding load
was_sent key log = is_sent (get key (load log))

-- `record`, on a disk that lets it write the file or raises OSError: `none`.
unfoldable pub record_send : String → SendResult → ℕ → Bool → SendLog → Option SendLog
unfolding load
record_send key result now writes log =
    if writes
    then some (
        holds (
          put key
            (record {
              idempotency_key = key;
              transport = result.transport;
              status = result.status;
              sent_at = now;
              provider_message_id = result.provider_message_id;
            })
            (load log)))
    else none

pub record Transport : Type 0 where
  pub name : String
  pub send : EmailMessage → Option SendResult

-- The arguments of `send_report`.
pub record Report : Type 0 where
  pub subject : String
  pub sender : String
  pub recipients : List String
  pub cc : List String
  pub html_body : String
  pub text_body : String
  pub scan_id : String
  pub report_html : Option String
  pub circumstances : Circumstances

unfoldable pub key_of : Report → String
key_of r = str_append r.scan_id (str_append "|account-report|" r.circumstances.recipient_group)

unfoldable pub compose : Report → EmailMessage
unfolding key_of
compose r = record {
  subject = r.subject;
  sender = r.sender;
  recipients = r.recipients;
  text_body = r.text_body;
  html_body = r.html_body;
  cc = r.cc;
  attachments = elim r.report_html [ none ↦ [] | some html ↦ ("report.html", html) ∷ [] ];
  tags = ("scan_id", r.scan_id) ∷ ("report_type", "account-report") ∷ [];
  idempotency_key = key_of r;
}

-- What a call did: its answer (`none` if it raised), what it handed to the transport, and the log
-- behind it.
pub record Effect : Type 0 where
  pub answer : Option SendResult
  pub handed : Option EmailMessage
  pub log : Option SendLog

abbrev pub blocked : Transport → String → Option SendLog → Effect
blocked transport reason log = record {
  answer = some (record {
    status = "blocked";
    transport = transport.name;
    provider_message_id = none;
    outbox_dir = none;
    reason = some reason;
  });
  handed = none;
  log = log;
}

-- The result is lost where `record` raises.
abbrev pub recorded : SendResult → SendLog → Option SendLog → Option SendResult × SendLog
recorded result log none = (none, log)
recorded result log (some log') = (some result, log')

-- `if result.status == "sent": self.send_log.record(…)`
unfoldable pub logged :
    String → ℕ → Bool → Option SendResult → SendLog → Option SendResult × SendLog
unfolding record_send
logged key now writes none log = (none, log)
logged key now writes (some result) log =
    if result.status == "sent"
    then recorded result log (record_send key result now writes log)
    else (some result, log)

-- `writes` tells whether the log's file can be written during the call.
module _ (u : Unicode) (transport : Transport) (writes : Bool) where
  -- The active path behind the presence of a policy and a log.
  unfoldable pub send_active : EmailSettings → Report → ℕ → SendLog → Effect
  unfolding logged was_sent compose
  send_active settings r now log = elim (evaluate u settings (compose r) r.circumstances) [
    | refused reason ↦ blocked transport reason (some log)
    | allowed ↦
        if was_sent (key_of r) log
        then blocked transport "mensagem já enviada para este scan e grupo" (some log)
        else record {
          answer = (logged (key_of r) now writes (transport.send (compose r)) log).0;
          handed = some (compose r);
          log = some (logged (key_of r) now writes (transport.send (compose r)) log).1;
        }
  ]

  unfoldable pub send_guarded : Option EmailSettings → Report → ℕ → Option SendLog → Effect
  unfolding send_active
  send_guarded none r now log = blocked transport "política de envio ativo ausente" log
  send_guarded (some settings) r now none =
      blocked transport "log idempotente de envio ativo ausente" none
  send_guarded (some settings) r now (some log) = send_active settings r now log

  unfoldable pub send_report : Option EmailSettings → Report → ℕ → Option SendLog → Effect
  unfolding send_guarded compose
  send_report policy r now log =
      let mode = r.circumstances.mode in
      if not (elem mode ("dry-run" ∷ "active" ∷ []))
      then blocked transport (str_append "modo de envio inválido: " mode) log
      else if mode == "dry-run"
      then (if not (transport.name == "dry_run")
          then blocked transport "dry-run exige o transporte dry_run" log
          else record { answer = transport.send (compose r); handed = some (compose r); log = log })
      else if transport.name == "dry_run"
      then blocked transport "envio ativo não pode usar o transporte dry_run" log
      else send_guarded policy r now log
