-- ===== src/Delivery/Permission.antt =====
-- What the policy demands of an active send, said without its order of checks.
use julius.Common.{
  ◌≤◌, String, ◌≡◌, refl, ◌↔◌, ◌⊎◌, inl, inr, true, false, none, List, [], ◌∷◌, elem, length,
  string_eq, All, Option-cases, arith, eq_iff,
}
use julius.Common.Texts.{Unicode, is_blank, strip, domain_of}
use julius.Delivery.Messages.{EmailMessage, EmailSettings, Circumstances}
use julius.Delivery.Policy.{
  allowed, allowed_domains, recipients_of, is_nil, first_outside, evaluate, evaluate_consent,
  evaluate_recipients,
}

module _ (u : Unicode) (settings : EmailSettings) (message : EmailMessage) (c : Circumstances) where
  -- A human confirmed, or the group was approved beforehand.
  abbrev pub Consented : Type 0
  Consented =
      ((c.non_interactive ≡ true)
        × (elem c.recipient_group settings.approved_recipient_groups ≡ true))
      ⊎ ((c.non_interactive ≡ false) × (c.confirmed ≡ true))

  abbrev pub Addressed : Type 0
  Addressed =
      (1 ≤ length (recipients_of message))
      × (length (recipients_of message) ≤ settings.max_recipients)
      × All (λ address. elem (domain_of u address) (allowed_domains u settings) ≡ true)
          (recipients_of message)

  abbrev pub Permitted : Type 0
  Permitted =
      (settings.mode ≡ "active")
      × (is_blank (strip u message.html_body) ≡ false)
      × (c.critical_error ≡ false)
      × (is_blank settings.sender ≡ false)
      × (u.lower message.sender ≡ u.lower settings.sender)
      × Addressed
      × Consented

first_outside-none :
    (u : Unicode) (domains : List String) (rs : List String)
    → (first_outside u domains rs ≡ none)
      ↔ All (λ address. elem (domain_of u address) domains ≡ true) rs
unfolding first_outside
first_outside-none u domains [] = ((λ h. tt), (λ h. refl))
first_outside-none u domains (r ∷ rs) = ground (arith, first_outside-none u domains rs)

is_nil-length : (xs : List String) → (is_nil xs ≡ false) ↔ (1 ≤ length xs)
is_nil-length [] = ground arith
is_nil-length (x ∷ xs) = ground arith

-- An address has no domain of an empty list.
allowlist :
    (u : Unicode) (domains rs : List String)
    → 1 ≤ length rs
    → All (λ address. elem (domain_of u address) domains ≡ true) rs
    → is_nil domains ≡ false
allowlist u [] [] h a = absurd (omega (arith, h))
allowlist u [] (r ∷ rs) h a = ground arith
allowlist u (d ∷ ds) rs h a = refl

consent :
    (u : Unicode) (settings : EmailSettings) (message : EmailMessage) (c : Circumstances)
    → (evaluate_consent settings c ≡ allowed) ↔ Consented u settings message c
unfolding evaluate_consent
consent u settings message c = ground arith

recipients-Addressed :
    (u : Unicode) (settings : EmailSettings) (message : EmailMessage) (c : Circumstances)
    → (evaluate_recipients u settings message c ≡ allowed)
      ↔ (Addressed u settings message c × (evaluate_consent settings c ≡ allowed))
unfolding evaluate_recipients
recipients-Addressed u settings message c =
    let domains = allowed_domains u settings in
    let rs = recipients_of message in
    elim (Option-cases (first_outside u domains rs)) [
      | inl e ↦ rw e (
          ground
            (arith, e, is_nil-length rs, first_outside-none u domains rs, allowlist u domains rs))
      | inr (a, e) ↦ rw e (ground (arith, e, first_outside-none u domains rs))
    ]

-- At mode "active" the policy allows a message exactly if the settings are active and name the
-- sender, the scan has no critical error, the body is not blank, the recipients are at least one
-- and at most as many as the settings say, each in an allowed domain, and either the group is
-- approved, for a call without a human, or a human confirmed.
pub evaluate-Permitted :
    (u : Unicode) (settings : EmailSettings) (message : EmailMessage) (c : Circumstances)
    → c.mode ≡ "active"
    → (evaluate u settings message c ≡ allowed) ↔ Permitted u settings message c
unfolding evaluate
evaluate-Permitted u settings message c active = ground (
  arith,
  active,
  eq_iff c.mode "active",
  eq_iff settings.mode "active",
  eq_iff (u.lower message.sender) (u.lower settings.sender),
  recipients-Addressed u settings message c,
  consent u settings message c,
)
