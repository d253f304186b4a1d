-- ===== src/Delivery/Once.antt =====
-- A report goes out at most once: what the log keeps over any number of calls.
use julius.Common.{
  suc, not, count_where, ℕ, ◌+◌, ◌≤◌, String, ◌≡◌, refl, sym, subst, Bool, true, false, ◌&&◌,
  Option, none, some, List, [], ◌∷◌, ◌==◌, string_eq, if◌then◌else◌, Bool-cases, inl, inr, arith,
  get-put, eq_iff,
}
use julius.Common.Texts.{Unicode}
use julius.Delivery.Messages.{EmailMessage, SendResult, EmailSettings}
use julius.Delivery.Service.{
  SendLog, load, was_sent, record_send, Transport, Report, key_of, compose, Effect, blocked, logged,
  send_active, send_guarded, send_report,
}

-- One call, with the service that it is made on; the log is the file that all of them share.
pub record Call : Type 0 where
  pub transport : Transport
  pub policy : Option EmailSettings
  pub report : Report
  pub now : ℕ
  pub writes : Bool

abbrev pub call : Unicode → Call → Option SendLog → Effect
call u c log = send_report u c.transport c.writes c.policy c.report c.now log

abbrev pub answers_sent : Option SendResult → Bool
answers_sent none = false
answers_sent (some result) = result.status == "sent"

abbrev pub hands : Option EmailMessage → Bool
hands none = false
hands (some message) = true

-- The call is an active one for this scan and group, and the transport sent its message, also if
-- the call raises afterwards.
abbrev pub delivers : String → Call → Effect → Bool
delivers key c e =
    key_of c.report == key
    && c.report.circumstances.mode == "active"
    && hands e.handed
    && answers_sent (c.transport.send (compose c.report))

abbrev pub sent_in : String → Option SendLog → Bool
sent_in key none = false
sent_in key (some log) = was_sent key log

-- How often a scan and group are sent by a sequence of calls.
unfoldable pub deliveries : Unicode → String → List Call → Option SendLog → ℕ
deliveries u key [] log = 0
deliveries u key (c ∷ cs) log =
    let e = call u c log in (if delivers key c e then 1 else 0) + deliveries u key cs e.log

-- What one call may do to the log and to the deliveries of a key.
abbrev Fair : String → Bool → Bool → Option SendLog → Effect → Type 0
Fair key sends writes log e =
    (sends && hands e.handed ≡ true
      → (sent_in key log ≡ false) × (writes ≡ true → sent_in key e.log ≡ true))
    × (sent_in key log ≡ true → sent_in key e.log ≡ true)

-- The same with the key of the call left open.
abbrev FairAll : String → Bool → Bool → Option SendLog → Effect → Type 0
FairAll own sends writes log e = (key : String) → Fair key (own == key && sends) writes log e

blocked-Fair :
    (own : String) (sends writes : Bool) (transport : Transport) (reason : String)
    (log : Option SendLog)
    → FairAll own sends writes log (blocked transport reason log)
blocked-Fair own sends writes transport reason log key = ((λ h. ground arith), (λ h. h))

logged-sent :
    (own key : String) (now : ℕ) (writes : Bool) (answer : Option SendResult) (log : SendLog)
    → was_sent key (logged own now writes answer log).1
      ≡ (if own == key && answers_sent answer && writes then true else was_sent key log)
unfolding logged was_sent record_send load
logged-sent own key now writes none log = ground arith
logged-sent own key now true (some result) log = elim (Bool-cases (result.status == "sent")) [
  | inl e ↦ rw (e, get-put own key) (ground (arith, e))
  | inr e ↦ rw e (ground arith)
]
logged-sent own key now false (some result) log = elim (Bool-cases (result.status == "sent")) [
  | inl e ↦ rw e (ground arith)
  | inr e ↦ rw e (ground arith)
]

dry-active : (mode : String) → (mode == "dry-run") ≡ true → (mode == "active") ≡ false
dry-active mode h = subst (λ m. (m == "active") ≡ false) (sym ((eq_iff mode "dry-run").0 h)) refl

module _ (u : Unicode) (transport : Transport) (writes : Bool) where
  -- An active call whose message the transport sends.
  abbrev sends : Bool → Report → Bool
  sends active r = active && answers_sent (transport.send (compose r))

  send_active-Fair :
      (settings : EmailSettings) (r : Report) (now : ℕ) (log : SendLog) (active : Bool)
      → FairAll
          (key_of r)
          (sends active r)
          writes
          (some log)
          (send_active u transport writes settings r now log)
  unfolding send_active
  send_active-Fair settings r now log active key =
      let own = key_of r in
      let answer = transport.send (compose r) in
      ground (
        arith,
        eq_iff own key,
        logged-sent own key now writes answer log,
        logged-sent own own now writes answer log,
      )

  send_guarded-Fair :
      (policy : Option EmailSettings) (r : Report) (now : ℕ) (log : Option SendLog) (active : Bool)
      → FairAll
          (key_of r)
          (sends active r)
          writes
          log
          (send_guarded u transport writes policy r now log)
  unfolding send_guarded
  send_guarded-Fair none r now log active =
      blocked-Fair (key_of r) (sends active r) writes transport "política de envio ativo ausente"
        log
  send_guarded-Fair (some settings) r now none active =
      blocked-Fair (key_of r) (sends active r) writes transport
        "log idempotente de envio ativo ausente" none
  send_guarded-Fair (some settings) r now (some log) active =
      send_active-Fair settings r now log active

  send_report-Fair :
      (policy : Option EmailSettings) (r : Report) (now : ℕ) (log : Option SendLog)
      → FairAll
          (key_of r)
          (sends (r.circumstances.mode == "active") r)
          writes
          log
          (send_report u transport writes policy r now log)
  unfolding send_report
  send_report-Fair policy r now log key = ground (
    arith,
    dry-active r.circumstances.mode,
    send_guarded-Fair policy r now log (r.circumstances.mode == "active") key,
  )

-- Over any sequence of calls on one log, each with a transport, a policy, a report and a disk of its
-- own, the transports send no active message for a scan and group that the log holds as sent; and
-- otherwise at most one, with one more for each call that could not write the log's file, also if
-- that file was missing or could not be read.
pub deliveries-once :
    (u : Unicode) (key : String) (calls : List Call) (log : Option SendLog)
    → deliveries u key calls log
      ≤ (if sent_in key log then 0 else suc (count_where (λ c. not c.writes) calls))
unfolding deliveries count_where
deliveries-once u key [] log = ground arith
deliveries-once u key (c ∷ cs) log =
    let e = call u c log in
    ground (
      arith,
      send_report-Fair u c.transport c.writes c.policy c.report c.now log key,
      deliveries-once u key cs e.log,
    )
