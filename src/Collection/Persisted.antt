-- ===== src/Collection/Persisted.antt =====
-- A package that the writer persisted, read back from the ledger and from its file.
use julius.Common.{
  ℕ, String, ◌≡◌, refl, sym, ap, ◌∙◌, subst, true, Option, none, some, get, put, remove, get-put,
  arith, ◌==◌, string_eq, Bool-cases, Option-cases, inl, inr, eq_of_beq, beq_self,
}
use julius.Runs.Ledger.{Checkpoint, Store, Result, ok, err, checkpoint}
use julius.Runs.Queue.{enqueue_ai}
use julius.Runs.Reading.{found, is_intact, first_match, verified_checkpoint}
use julius.Runs.Enqueueing.{enqueue_ai-checkpoints}
use julius.Runs.Lookup.{verified_checkpoint-checkpoint}
use julius.Collection.Writer.{Package}
use julius.Collection.Persisting.{
  Files, Failure, Archive, Outcome, raised_by, write_file, package_path, row_of, request_of,
  enqueue, register, persist,
}

-- `file_sha256` of a file that exists
abbrev pub digest_in : Archive → Files → String → Option String
digest_in a files path = elim (get path files) [ none ↦ none | some s ↦ some (a.sha256 s) ]

write_file-get :
    (a : Archive) (path payload : String) (files files' : Files)
    → write_file a path payload files ≡ (none, files')
    → get path files' ≡ some payload
unfolding write_file
write_file-get a path payload files files' h = elim (Option-cases (get path files)) [
  | inr (held, e) ↦ elim (Bool-cases (held == payload)) [
    | inl t ↦
        let same : files ≡ files' = ground (arith, e, t, h) in
        subst (λ m. get path m ≡ some payload) same (e ∙ ap some (eq_of_beq held payload t))
    | inr t ↦ absurd (ground (arith, e, t, h))
  ]
  | inl e ↦ elim (Bool-cases (a.is_writable path)) [
    | inl t ↦
        let written = put path payload (remove (a.temporary path) files) in
        let same : written ≡ files' = ground (arith, e, t, h) in
        subst (λ m. get path m ≡ some payload) same
          (get-put path path payload (remove (a.temporary path) files) ∙ rw (beq_self path))
    | inr t ↦ absurd (ground (arith, e, t, h))
  ]
]

-- Reading a checkpoint asks no other table.
same_checkpoints :
    (digest : String → Option String) (account scan domain : String) (s t : Store)
    → t.checkpoints ≡ s.checkpoints
    → verified_checkpoint digest account scan domain t
      ≡ verified_checkpoint digest account scan domain s
unfolding verified_checkpoint first_match
same_checkpoints digest account scan domain s t h = rw h

intact :
    (digest : String → Option String) (c : Checkpoint)
    → digest c.payload_path ≡ some c.payload_hash
    → is_intact digest c ≡ true
intact digest c h = rw (is_intact, h, beq_self c.payload_hash)

module _ (a : Archive) (task_digest : String → String) (now : ℕ) (p : Package) where
  abbrev IsHeld : Files → Type 0
  IsHeld files = get (package_path a task_digest now p) files ≡ some (a.dumps p)

  abbrev IsReadable : Files → Store → Type 0
  IsReadable files s =
      verified_checkpoint (digest_in a files) a.account_id a.scan_id p.domain s
      ≡ found (row_of a task_digest now p)

  -- What follows the ledger's row touches neither the file nor the row.
  enqueue_keeps :
      (files files' : Files) (t t' : Store)
      → enqueue a task_digest now p files (ok tt, t) ≡ (none, files', t')
      → (files ≡ files') × (t'.checkpoints ≡ t.checkpoints)
  unfolding enqueue
  enqueue_keeps files files' t t' k =
      let kept = enqueue_ai-checkpoints task_digest (request_of a task_digest now p) now t in
      elim (Bool-cases a.enqueues) [
        | inr e ↦ (ground (arith, e, k), ground (arith, e, k))
        | inl e ↦
            let r = enqueue_ai task_digest (request_of a task_digest now p) now t in
            let same : ◌≡◌ {A = Outcome} (raised_by r.0, files, r.1) (none, files', t') =
              rw (enqueue, e) at k in
            (
              ap (λ (o : Outcome). o.1) same,
              ap (λ (o : Outcome). o.2.checkpoints) (sym same) ∙ kept,
            )
      ]

  enqueue-IsReadable :
      (files files' : Files) (s t' : Store) (r : Result (Unit {0}) × Store)
      → IsHeld files
      → checkpoint (row_of a task_digest now p) s ≡ r
      → enqueue a task_digest now p files r ≡ (none, files', t')
      → IsReadable files' t' × IsHeld files'
  unfolding enqueue
  enqueue-IsReadable files files' s t' (err e, t) held h k = absurd (ground (arith, k))
  enqueue-IsReadable files files' s t' (ok tt, t) held h k =
      let row = row_of a task_digest now p in
      let (same, kept) = enqueue_keeps files files' t t' k in
      let digest : digest_in a files row.payload_path ≡ some row.payload_hash =
        ap (λ (o : Option String). elim o [ none ↦ none | some x ↦ some (a.sha256 x) ]) held in
      let read : IsReadable files t =
        verified_checkpoint-checkpoint (digest_in a files) row s t h
        ∙ rw (intact (digest_in a files) row digest) in
      (
        subst (λ m. IsReadable m t') same
            (same_checkpoints (digest_in a files) a.account_id a.scan_id p.domain t t' kept ∙ read),
        subst IsHeld same held,
      )

  register-IsReadable :
      (files' : Files) (s t' : Store) (w : Option Failure × Files)
      → (w.0 ≡ none → IsHeld w.1)
      → register a task_digest now p s w ≡ (none, files', t')
      → IsReadable files' t' × IsHeld files'
  unfolding register
  register-IsReadable files' s t' (some e, files) held h = absurd (ground (arith, h))
  register-IsReadable files' s t' (none, files) held h =
      enqueue-IsReadable files files' s t' (checkpoint (row_of a task_digest now p) s) (held refl)
        refl h

-- A package that was persisted without an error is the checkpoint of its domain: the ledger reads
-- back its row, status and sources included, finds its file intact, and the file holds the package.
pub persist-verified_checkpoint :
    (a : Archive) (task_digest : String → String) (now : ℕ) (p : Package) (files files' : Files)
    (s t : Store)
    → persist a task_digest now p files s ≡ (none, files', t)
    → (verified_checkpoint (digest_in a files') a.account_id a.scan_id p.domain t
        ≡ found (row_of a task_digest now p))
      × (get (package_path a task_digest now p) files' ≡ some (a.dumps p))
unfolding persist
persist-verified_checkpoint a task_digest now p files files' s t h =
    let path = package_path a task_digest now p in
    let w = write_file a path (a.dumps p) files in
    register-IsReadable a task_digest now p files' s t w
      (λ e. write_file-get a path (a.dumps p) files w.1 (ap (λ x. (x, w.1)) e)) h
