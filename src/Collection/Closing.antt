-- ===== src/Collection/Closing.antt =====
-- The domains that the checkpoint writer has closed after any sequence of completed sources.
use julius.Common.{
  String, Bool, true, false, ◌||◌, ◌≡◌, refl, sym, ap, ◌∙◌, subst, List, [], ◌∷◌, map, all, any,
  elem, distinct, All, count_where, arith, ◌==◌, string_eq, if◌then◌else◌,
}
use julius.Collection.Domains.{is_empty}
use julius.Collection.Writer.{
  Writer, opened, Completion, own_status, is_complete, close_complete, recorded, source_completed,
  complete_all,
}
use julius.Collection.Settling.{
  names, domains, elem-put, IsPacked, AreSettled, close_complete-IsPacked, close_complete-statuses,
  close_complete-AreSettled,
}

abbrev is_reported : List Completion → String → Bool
is_reported cs n = any (λ c. c.source == n) cs

module _ (precedes : String → String → Bool) (table : List (String × List String)) where
  record IsConsistent (w : Writer) : Type 0 where
    packed : IsPacked w
    settled : AreSettled precedes "" (λ d. d) w.closed w.statuses table

  source_completed-IsConsistent :
      (c : Completion) (w : Writer)
      → distinct (domains table) ≡ true
      → IsConsistent w
      → IsConsistent (source_completed precedes table c w)
  unfolding source_completed
  source_completed-IsConsistent c w once h =
      let known = recorded precedes c w in
      record {
        packed = close_complete-IsPacked precedes c.source c.dataset table known h.packed;
        settled =
            subst
              (λ m.
                AreSettled precedes "" (λ d. d) (source_completed precedes table c w).closed m
                  table)
              (sym (close_complete-statuses precedes c.source c.dataset table known))
              (close_complete-AreSettled precedes c.source c.dataset (own_status c.source c.entries)
                w.statuses table known once refl h.settled);
      }

  complete_all-IsConsistent :
      (cs : List Completion) (w : Writer)
      → distinct (domains table) ≡ true
      → IsConsistent w
      → IsConsistent (complete_all precedes table cs w)
  unfolding complete_all
  complete_all-IsConsistent [] w once h = h
  complete_all-IsConsistent (c ∷ cs) w once h =
      complete_all-IsConsistent cs (source_completed precedes table c w) once
        (source_completed-IsConsistent c w once h)

  complete_all-names :
      (n : String) (cs : List Completion) (w : Writer)
      → elem n (names (complete_all precedes table cs w).statuses)
        ≡ (is_reported cs n || elem n (names w.statuses))
  unfolding complete_all source_completed
  complete_all-names n [] w = refl
  complete_all-names n (c ∷ cs) w =
      let known = recorded precedes c w in
      let after = close_complete precedes table c.source c.dataset known in
      let kept : elem n (names after.statuses) ≡ elem n (names known.statuses) =
        ap (λ m. elem n (names m))
          (close_complete-statuses precedes c.source c.dataset table known) in
      ground (
        arith,
        complete_all-names n cs after,
        kept,
        elem-put n c.source (own_status c.source c.entries) w.statuses,
      )

  is_complete-reported :
      (cs : List Completion) (expected : List String)
      → is_complete expected (complete_all precedes table cs opened).statuses
        ≡ all (is_reported cs) expected
  unfolding is_complete
  is_complete-reported cs [] = refl
  is_complete-reported cs (n ∷ ns) =
      ground (arith, complete_all-names n cs opened, is_complete-reported cs ns)

  none_complete :
      (rows : List (String × List String))
      → All (λ r. is_empty r.1 ≡ false) rows
      → AreSettled precedes "" (λ d. d) [] [] rows
  unfolding is_complete
  none_complete [] h = tt
  none_complete ((d, []) ∷ rows) (h, hs) = absurd (ground (arith, h))
  none_complete ((d, n ∷ ns) ∷ rows) (h, hs) = (refl, none_complete rows hs)

  opened-IsPacked : IsPacked opened
  unfolding count_where
  opened-IsPacked d = refl

  closed_once :
      (cs : List Completion) (w : Writer) (rows : List (String × List String))
      → ((ns : List String) → is_complete ns w.statuses ≡ all (is_reported cs) ns)
      → IsPacked w
      → AreSettled precedes "" (λ d. d) w.closed w.statuses rows
      → All
          (λ r.
            count_where (λ p. p.domain == r.0) w.packages
            ≡ (if all (is_reported cs) r.1 then 1 else 0))
          rows
  closed_once cs w [] known packed h = tt
  closed_once cs w ((d, ns) ∷ rows) known packed (h, hs) = (
    packed d ∙ ap (λ b. if b then 1 else 0) (h ∙ known ns),
    closed_once cs w rows known packed hs,
  )

-- Whatever sources were completed, in whatever order and however often, the writer has handed over
-- one package for each domain of which every source was completed, and none for any other domain.
-- The table names each domain once, and each domain waits for some source.
pub complete_all_closes :
    (precedes : String → String → Bool) (table : List (String × List String)) (cs : List Completion)
    → distinct (map (λ r. r.0) table) ≡ true
    → All (λ r. is_empty r.1 ≡ false) table
    → All
        (λ r.
          count_where (λ p. p.domain == r.0) (complete_all precedes table cs opened).packages
          ≡ (if all (λ n. any (λ c. c.source == n) cs) r.1 then 1 else 0))
        table
complete_all_closes precedes table cs once waits =
    let good = complete_all-IsConsistent precedes table cs opened once (record {
      packed = opened-IsPacked precedes table;
      settled = none_complete precedes table table waits;
    }) in
    closed_once precedes table cs (complete_all precedes table cs opened) table
      (is_complete-reported precedes table cs) good.packed good.settled
