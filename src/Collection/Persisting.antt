-- ===== src/Collection/Persisting.antt =====
-- `_persist` and `wait` of julius/collection/checkpoints.py: the single thread that writes a package
-- and enters it in the ledger. The digest (`hashlib`), JSON's text (`json`), the join of paths
-- (`pathlib`) and a disk that may refuse a write are parameters; a file is a path with its text.
use julius.Common.{
  ℕ, String, Bool, Option, none, some, List, [], ◌∷◌, get, put, remove, ◌==◌, string_eq,
  if◌then◌else◌,
}
use julius.Common.Texts.{prefix}
use julius.Runs.Ledger.{Error, Checkpoint, Store, Result, ok, err, checkpoint}
use julius.Runs.Queue.{Request, enqueue_ai, ◌⊕◌}
use julius.Collection.Writer.{Package}

abbrev pub Files : Type 0
Files = List (String × String)

-- RuntimeError of a collision, an error of the disk, or one that the ledger raised.
pub data Failure : Type 0 where
  collision disk_error : Failure
  ledger : Error → Failure

-- What the writer was made with, and the functions of the standard library.
pub record Archive : Type 0 where
  pub account_id : String
  pub scan_id : String
  pub enqueues : Bool
  pub sha256 : String → String
  pub dumps : Package → String
  -- root / account_id / scan_id / name, and path.with_suffix(".tmp")
  pub path_of : String → String
  pub temporary : String → String
  pub is_writable : String → Bool

-- The file and the ledger after a call that returned, or raised: what was done stays done.
abbrev pub Outcome : Type 0
Outcome = Option Failure × Files × Store

abbrev pub raised_by : {A : Type 0} → Result A → Option Failure
raised_by (ok a) = none
raised_by (err e) = some (ledger e)

-- `_write_immutable`
unfoldable pub write_file : Archive → String → String → Files → Option Failure × Files
write_file a path payload files = elim (get path files) [
  | some held ↦ if held == payload then (none, files) else (some collision, files)
  | none ↦
      if a.is_writable path
      then (none, put path payload (remove (a.temporary path) files))
      else (some disk_error, files)
]

module _ (a : Archive) (task_digest : String → String) (now : ℕ) where
  abbrev pub package_path : Package → String
  package_path p = a.path_of (p.domain ⊕ "-" ⊕ prefix 16 (a.sha256 (a.dumps p)) ⊕ ".json")

  abbrev pub row_of : Package → Checkpoint
  row_of p = record {
    account_id = a.account_id;
    scan_id = a.scan_id;
    domain = p.domain;
    status = p.status;
    payload_path = package_path p;
    payload_hash = a.sha256 (a.dumps p);
    sources = p.sources;
    created_at = now;
  }

  abbrev pub request_of : Package → Request
  request_of p = record {
    account_id = a.account_id;
    scan_id = a.scan_id;
    domain = p.domain;
    context_hash = a.sha256 (a.dumps p);
    payload_path = package_path p;
  }

  -- What follows `store.checkpoint`.
  unfoldable pub enqueue : Package → Files → Result (Unit {0}) × Store → Outcome
  enqueue p files (err e, s) = (some (ledger e), files, s)
  enqueue p files (ok _, s) =
      if a.enqueues
      then (let (r, s') = enqueue_ai task_digest (request_of p) now s in (raised_by r, files, s'))
      else (none, files, s)

  -- What follows the file.
  unfoldable pub register : Package → Store → Option Failure × Files → Outcome
  register p s (some e, files) = (some e, files, s)
  register p s (none, files) = enqueue p files (checkpoint (row_of p) s)

  unfoldable pub persist : Package → Files → Store → Outcome
  persist p files s = register p s (write_file a (package_path p) (a.dumps p) files)

  abbrev pub first_error : Option Failure → Option Failure → Option Failure
  first_error none later = later
  first_error (some e) later = some e

  -- `wait`: every package is tried, and the first error is kept.
  unfoldable pub wait : List Package → Files → Store → Outcome
  wait [] files s = (none, files, s)
  wait (p ∷ ps) files s =
      let (e, files', s') = persist p files s in
      let (e', files'', s'') = wait ps files' s' in (first_error e e', files'', s'')
