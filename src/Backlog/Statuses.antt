-- ===== src/Backlog/Statuses.antt =====
-- Statuses of the lifecycle in a backlog, and the changes that julius/findings/lifecycle.py allows.
use julius.Common.{
  String, ◌≡◌, refl, subst, Bool, true, false, ◌||◌, some, [], ◌∷◌, elem, get, put, remove, find?,
  ◌==◌, string_eq, All, All-elem, Bool-cases, inl, inr, arith, eq_iff,
}
use julius.Backlog.Lifecycle.{statuses, transitions, can_transition}
use julius.Backlog.Store.{Floats, Entry, Backlog, StatusChange, is_closed, is_over}
use julius.Backlog.Reconcile.{ended}

abbrev pub IsAllowed : StatusChange → Type 0
IsAllowed c = can_transition c.from_status c.to_status ≡ true

-- A text of `STATUSES`.
abbrev pub IsStatus : String → Type 0
IsStatus s = elem s statuses ≡ true

pub reopen-allowed :
    (s : String) → (s == "expired" || is_closed s) ≡ true → can_transition s "detected" ≡ true
unfolding can_transition transitions
reopen-allowed s h =
    All-elem (λ x. can_transition x "detected" ≡ true) ("expired" ∷ "dismissed" ∷ "validated" ∷ [])
      s (refl, (refl, (refl, tt)))
      (ground (
        arith,
        eq_iff s "expired",
        eq_iff s "dismissed",
        eq_iff s "validated",
        eq_iff "expired" s,
        eq_iff "dismissed" s,
        eq_iff "validated" s,
      ))

pub ended-allowed :
    (s : String) → IsStatus s → is_over s ≡ false → can_transition s (ended s) ≡ true
unfolding can_transition transitions
ended-allowed s h =
    All-elem (λ x. is_over x ≡ false → can_transition x (ended x) ≡ true) statuses s
      (
        (λ n. refl),
        (
          (λ n. refl),
          (
            (λ n. refl),
            ((λ n. refl), ((λ n. refl), ((λ n. cc n), ((λ n. cc n), ((λ n. cc n), tt))))),
          ),
        ),
      )
      h

pub ended-IsStatus : (s : String) → IsStatus (ended s)
ended-IsStatus s = elim (Bool-cases (s == "implemented")) [ inl e ↦ rw e | inr e ↦ rw e ]

-- Where every entry has a status of the lifecycle.
abbrev pub Statuses : {floats : Floats} → Backlog floats → Type 0
Statuses = All (λ (fp, e). IsStatus e.status)

module _ {floats : Floats} where
  pub Statuses-put :
      (fp : String) (e : Entry floats) (store : Backlog floats)
      → IsStatus e.status
      → Statuses store
      → Statuses (put fp e store)
  unfolding put
  Statuses-put fp e [] i h = (i, tt)
  Statuses-put fp e ((k, v) ∷ rest) i (j, h) = elim (Bool-cases (k == fp)) [
    | inl t ↦ simp t (i, h)
    | inr t ↦ simp t (j, Statuses-put fp e rest i h)
  ]

  pub Statuses-remove :
      (fp : String) (store : Backlog floats) → Statuses store → Statuses (remove fp store)
  unfolding remove
  Statuses-remove fp [] h = tt
  Statuses-remove fp ((k, v) ∷ rest) (j, h) = elim (Bool-cases (k == fp)) [
    | inl t ↦ simp t (Statuses-remove fp rest h)
    | inr t ↦ simp t (j, Statuses-remove fp rest h)
  ]

  pub Statuses-get :
      (fp : String) (store : Backlog floats) (e : Entry floats)
      → Statuses store
      → get fp store ≡ some e
      → IsStatus e.status
  unfolding get
  Statuses-get fp [] e h g = absurd (ground (arith, g))
  Statuses-get fp ((k, v) ∷ rest) e (i, h) g = elim (Bool-cases (k == fp)) [
    | inl t ↦
        let same : v ≡ e = ground (arith, g, t) in
        subst (λ (x : Entry floats). IsStatus x.status) same i
    | inr t ↦ Statuses-get fp rest e h (ground (arith, g, t))
  ]

  pub Statuses-find? :
      (p : String × Entry floats → Bool) (store : Backlog floats) (row : String × Entry floats)
      → Statuses store
      → find? p store ≡ some row
      → IsStatus row.1.status
  unfolding find?
  Statuses-find? p [] row h g = absurd (ground (arith, g))
  Statuses-find? p (x ∷ rest) row (i, h) g = elim (Bool-cases (p x)) [
    | inl t ↦
        let same : x ≡ row = ground (arith, g, t) in
        subst (λ (r : String × Entry floats). IsStatus r.1.status) same i
    | inr t ↦ Statuses-find? p rest row h (ground (arith, g, t))
  ]
