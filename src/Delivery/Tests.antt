-- ===== src/Delivery/Tests.antt =====
-- A message of an account and the calls that send it.
use julius.Common.{
  suc, not, count_where, ◌≤◌, ◌≡◌, ◌↔◌, refl, true, false, none, some, [], ◌∷◌, if◌then◌else◌,
}
use julius.Common.Texts.{Unicode}
use julius.Delivery.Messages.{EmailSettings, Circumstances}
use julius.Delivery.Policy.{allowed, evaluate}
use julius.Delivery.Service.{unreadable, Transport, Report, compose}
use julius.Delivery.Permission.{Permitted, evaluate-Permitted}
use julius.Delivery.Once.{Call, deliveries, sent_in, deliveries-once}

abbrev ascii : Unicode
ascii = record { is_space = λ c. false; lower = λ s. s }

abbrev settings : EmailSettings
settings = record {
  mode = "active";
  sender = "julius@x.com";
  allowed_recipient_domains = "@x.com" ∷ [];
  approved_recipient_groups = "owners" ∷ [];
  max_recipients = 2;
}

abbrev circumstances : Circumstances
circumstances = record {
  mode = "active";
  confirmed = true;
  non_interactive = false;
  recipient_group = "owners";
  critical_error = false;
}

abbrev report : Report
report = record {
  subject = "s";
  sender = "julius@x.com";
  recipients = "ana@x.com" ∷ [];
  cc = [];
  html_body = "<p>";
  text_body = "p";
  scan_id = "s1";
  report_html = none;
  circumstances = circumstances;
}

evaluate-Permitted_example :
    (evaluate ascii settings (compose report) circumstances ≡ allowed)
    ↔ Permitted ascii settings (compose report) circumstances
evaluate-Permitted_example = evaluate-Permitted ascii settings (compose report) circumstances refl

abbrev smtp : Transport
smtp = record {
  name = "smtp";
  send = λ m. some (record {
    status = "sent";
    transport = "smtp";
    provider_message_id = none;
    outbox_dir = none;
    reason = none;
  });
}

abbrev send_now : Call
send_now = record {
  transport = smtp;
  policy = some settings;
  report = report;
  now = 1;
  writes = true;
}

deliveries-once_example :
    deliveries ascii "s1|account-report|owners" (send_now ∷ send_now ∷ []) (some unreadable) ≤ (
      if sent_in "s1|account-report|owners" (some unreadable)
      then 0
      else suc (count_where (λ c. not c.writes) (send_now ∷ send_now ∷ [])))
deliveries-once_example =
    deliveries-once ascii "s1|account-report|owners" (send_now ∷ send_now ∷ []) (some unreadable)
