-- ===== src/Delivery/Policy.antt =====
-- `NotificationPolicy.evaluate` of julius/reporting/delivery/policy.py.
use Prim.Native.String.{◌++◌ as str_append}
use julius.Common.{
  String, Bool, true, false, not, ◌||◌, Option, none, some, List, [], ◌∷◌, ◌++◌, map, elem, length,
  ltb, ◌==◌, string_eq, if◌then◌else◌,
}
use julius.Common.Texts.{Unicode, is_blank, is_at, strip, strip_left, domain_of}
use julius.Delivery.Messages.{EmailMessage, EmailSettings, Circumstances}

pub data PolicyDecision : Type 0 where
  allowed : PolicyDecision
  refused : String → PolicyDecision

-- domain.lower().lstrip("@") for domain in …
unfoldable pub allowed_domains : Unicode → EmailSettings → List String
allowed_domains u settings =
    map (λ domain. strip_left is_at (u.lower domain)) settings.allowed_recipient_domains

abbrev pub recipients_of : EmailMessage → List String
recipients_of message = message.recipients ++ message.cc

abbrev pub is_nil : List String → Bool
is_nil [] = true
is_nil (x ∷ xs) = false

-- for address in recipients: …
unfoldable pub first_outside : Unicode → List String → List String → Option String
first_outside u domains [] = none
first_outside u domains (address ∷ rest) =
    if elem (domain_of u address) domains then first_outside u domains rest else some address

unfoldable pub evaluate_consent : EmailSettings → Circumstances → PolicyDecision
evaluate_consent settings c =
    if c.non_interactive
    then (if elem c.recipient_group settings.approved_recipient_groups
        then allowed
        else refused "grupo não aprovado para envio não interativo")
    else if c.confirmed
    then allowed
    else refused "envio manual exige confirmação humana"

unfoldable pub evaluate_recipients :
    Unicode → EmailSettings → EmailMessage → Circumstances → PolicyDecision
unfolding first_outside evaluate_consent allowed_domains
evaluate_recipients u settings message c =
    if is_nil (recipients_of message)
    then refused "nenhum destinatário"
    else if ltb settings.max_recipients (length (recipients_of message))
    then refused "limite de destinatários excedido"
    else if is_nil (allowed_domains u settings)
    then refused "allowlist de domínios vazia"
    else elim (first_outside u (allowed_domains u settings) (recipients_of message)) [
      | some address ↦ refused (str_append "destinatário fora da allowlist: " address)
      | none ↦ evaluate_consent settings c
    ]

unfoldable pub evaluate : Unicode → EmailSettings → EmailMessage → Circumstances → PolicyDecision
unfolding evaluate_recipients
evaluate u settings message c =
    if not (c.mode == "active")
    then allowed
    else if not (settings.mode == "active")
    then refused "configuração não autoriza mode=active"
    else if is_blank (strip u message.html_body)
    then refused "HTML do e-mail não foi gerado"
    else if c.critical_error
    then refused "scan possui erro crítico"
    else if is_blank settings.sender || not (u.lower message.sender == u.lower settings.sender)
    then refused "remetente não autorizado"
    else evaluate_recipients u settings message c
