-- ===== src/Runs/Tasks/Rows.antt =====
-- One step of a job's row, and the discipline of the job under a task id.
use julius.Common.{
  String, ◌≡◌, refl, ◌∙◌, ◌≤◌, Bool, true, some, arith, stay, Chain-trans, update_where, Evolves,
  Evolves-refl, Evolves-trans, Evolves-update_where, string_eq,
}
use julius.Runs.Status.{TaskPath, task_allows}
use julius.Runs.Ledger.{Job, Store, Action, is_task, find_task}
use julius.Runs.Preserves.{Discipline, Preserves}

pub record JobStep (a b : Job) : Type 0 where
  pub path : TaskPath a.status b.status
  pub attempts : a.attempts ≤ b.attempts
  pub account : b.account_id ≡ a.account_id
  pub scan : b.scan_id ≡ a.scan_id
  pub domain : b.domain ≡ a.domain
  pub context : b.context_hash ≡ a.context_hash
  pub payload : b.payload_path ≡ a.payload_path

pub JobStep-refl : (a : Job) → JobStep a a
JobStep-refl a = record {
  path = stay a.status;
  attempts = omega arith;
  account = refl;
  scan = refl;
  domain = refl;
  context = refl;
  payload = refl;
}

pub JobStep-trans : (a b c : Job) → JobStep a b → JobStep b c → JobStep a c
JobStep-trans a b c x y = record {
  path = Chain-trans task_allows a.status b.status c.status x.path y.path;
  attempts = omega arith;
  account = y.account ∙ x.account;
  scan = y.scan ∙ x.scan;
  domain = y.domain ∙ x.domain;
  context = y.context ∙ x.context;
  payload = y.payload ∙ x.payload;
}

module _ (t' : String) where
  abbrev pub Held : Store → Store → Type 0
  Held s t = Evolves JobStep (find_task t' s) (find_task t' t)

  pub Held-refl : (s : Store) → Held s s
  Held-refl s = Evolves-refl JobStep JobStep-refl (find_task t' s)

  pub Held-trans : (s t u : Store) → Held s t → Held t u → Held s u
  Held-trans s t u =
      Evolves-trans JobStep JobStep-trans (find_task t' s) (find_task t' t) (find_task t' u)

  pub update_jobs-Held :
      (q : Job → Bool) (f : Job → Job) (s : Store)
      → ((j : Job) → is_task t' (f j) ≡ is_task t' j)
      → ((j : Job) → find_task t' s ≡ some j → q j ≡ true → JobStep j (f j))
      → Held s (record s { jobs = update_where q f s.jobs })
  update_jobs-Held q f s keeps step =
      Evolves-update_where JobStep (is_task t') q f s.jobs JobStep-refl keeps step

-- The discipline of the job under t'.
abbrev pub jobs : String → Discipline
jobs t' = record { Keeps = Held t'; same = Held-refl t'; chain = Held-trans t' }

abbrev pub Holds : String → {A : Type 0} → Action A → Type 0
Holds t' m = Preserves (jobs t') m
