-- ===== src/Signals/Suppression.antt =====
-- Which signals the ledger of julius/state/signal_ledger.py silences.
use julius.Common.{
  String, ◌≡◌, Bool, false, not, ◌&&◌, Option, none, some, List, [], ◌∷◌, ◌++◌, map, select, get,
  ◌==◌, string_eq, Bool-cases, Option-cases, inl, inr,
}
use mathlib.Core.List.{append-nil, append_assoc}
use julius.Signals.Ledger.{Measures, Signal, Entry, Ledger, Suppression, suppress_into, suppress}

module _ {m : Measures} where
  abbrev pub on_entry : (Entry m → Bool) → Option (Entry m) → Bool
  on_entry p none = false
  on_entry p (some e) = p e

  -- An entry whose question is settled, on the evidence that the signal has now.
  abbrev pub silences : Signal → Entry m → Bool
  silences s e = not (e.verdict == "needs_evidence") && e.evidence_hash == s.evidence_signature

  -- An entry whose question was settled, on other evidence.
  abbrev pub returns : Signal → Entry m → Bool
  returns s e = not (e.verdict == "needs_evidence") && not (e.evidence_hash == s.evidence_signature)

  module _ (store : Ledger m) (account : String) where
    abbrev pub is_silenced : Signal → Bool
    is_silenced s = on_entry (silences s) (get (s.fingerprint account) store)

    abbrev pub is_returning : Signal → Bool
    is_returning s = on_entry (returns s) (get (s.fingerprint account) store)

    abbrev pub split : Suppression → List Signal → Suppression
    split r signals = record {
      open_signals = r.open_signals ++ select (λ s. not (is_silenced s)) signals;
      suppressed = r.suppressed ++ map (λ s. s.fingerprint account) (select is_silenced signals);
      reopened = r.reopened ++ map (λ s. s.fingerprint account) (select is_returning signals);
    }

  suppress_into-split :
      (store : Ledger m) (account : String) (signals : List Signal) (r : Suppression)
      → suppress_into store account signals r ≡ split store account r signals
  unfolding suppress_into select
  suppress_into-split store account [] r = simp append-nil
  suppress_into-split store account (s ∷ rest) r =
      elim (Option-cases (get (s.fingerprint account) store)) [
        | inl e ↦ simp (e, suppress_into-split store account rest, append_assoc)
        | inr (entry, e) ↦ elim (Bool-cases (entry.verdict == "needs_evidence")) [
          | inl t ↦ simp (e, t, suppress_into-split store account rest, append_assoc)
          | inr t ↦ elim (Bool-cases (entry.evidence_hash == s.evidence_signature)) [
            | inl h ↦ simp (e, t, h, suppress_into-split store account rest, append_assoc)
            | inr h ↦ simp (e, t, h, suppress_into-split store account rest, append_assoc)
          ]
        ]
      ]

-- Of the signals of a scan, in their order: those stay in the package that the ledger does not
-- silence; it silences exactly those whose entry has a verdict other than "needs_evidence" on the
-- evidence that the signal has now, "confirmed" ones among them whether or not they were promoted,
-- and reports as reopened those whose settled verdict stood on other evidence.
pub suppress-comprehensions :
    (m : Measures) (store : Ledger m) (account : String) (signals : List Signal)
    → suppress store account signals ≡ record {
      open_signals = select (λ s. not (is_silenced store account s)) signals;
      suppressed = map (λ s. s.fingerprint account) (select (is_silenced store account) signals);
      reopened = map (λ s. s.fingerprint account) (select (is_returning store account) signals);
    }
unfolding suppress
suppress-comprehensions m store account signals =
    suppress_into-split store account signals
      (record { open_signals = []; suppressed = []; reopened = [] })
