-- ===== src/Collection/Resuming.antt =====
-- `resume_ready_domains` of julius/collection/checkpoints.py. The text of JSON (`json`) and the loader
-- of a dataset (julius/collection/normalizers) are parameters; the account is its fields by name.
use julius.Common.{
  ℕ, zero, String, Bool, true, false, ◌&&◌, Option, none, some, List, [], ◌∷◌, ◌++◌, map, all, elem,
  get, put, ◌==◌, string_eq, if◌then◌else◌,
}
use julius.Json.{
  pos, Json, null, boolean, integer, real, text, array, object, none_left, Fields, empty, keys,
  lookup,
}
use julius.Json.Reading.{dict?, is_text}
use julius.Json.Checks.{Checked, ok, raised, ◌>>=◌, ◌>>◌, demand, known}
use julius.Runs.Ledger.{Checkpoint, Store}
use julius.Runs.Reading.{Answer, found, missing, checkpoints, verified_checkpoint}
use julius.Collection.Domains.{domain_sources, domain_fields}

-- `details` is what is kept as it is.
pub record Health : Type 0 where
  pub source : String
  pub result_origin : String
  pub duration_ms : ℕ
  pub details : String

pub record Account : Type 0 where
  pub account_id : String
  pub region : String
  pub window_start : String
  pub window_end : String
  pub fields : List (String × Json)

-- What `account_from_dataset` makes of a dataset.
pub record Loaded : Type 0 where
  pub fields : List (String × Json)
  pub collection_health : List Health

-- The exceptions that the loop goes on from, and AttributeError, which it does not catch.
pub data Trouble : Type 0 where
  skipped attribute_error : Trouble

-- What the call reads besides the ledger. `is_zero` is of a float, `load` is `none` where
-- `account_from_dataset` raises.
pub record Reader : Type 0 where
  pub digest : String → Option String
  pub read_text : String → Option String
  pub loads : String → Option Json
  pub is_zero : ℕ → Bool
  pub load : Account → Json → Option Loaded

-- raw.get("account") or {}
unfoldable pub dict_or_empty : (ℕ → Bool) → Json → Checked Trouble Fields
dict_or_empty is_zero null = ok empty
dict_or_empty is_zero (boolean false) = ok empty
dict_or_empty is_zero (boolean true) = raised attribute_error
dict_or_empty is_zero (integer (pos zero)) = ok empty
dict_or_empty is_zero (integer _) = raised attribute_error
dict_or_empty is_zero (real x) = if is_zero x then ok empty else raised attribute_error
dict_or_empty is_zero (text s) = if s == "" then ok empty else raised attribute_error
dict_or_empty is_zero (array none_left) = ok empty
dict_or_empty is_zero (array _) = raised attribute_error
dict_or_empty is_zero (object fs) = ok fs

-- raw.get("window", {})
abbrev pub window_in : Fields → Checked Trouble Fields
window_in fs =
    if elem "window" (keys fs) then known attribute_error (dict? (lookup "window" fs)) else ok empty

-- set(sources) == set(DOMAIN_SOURCES[domain]) and all(status == "ok" …)
unfoldable pub is_whole : List String → List (String × String) → Bool
is_whole expected sources =
    (all (λ s. elem s.0 expected) sources && all (λ n. elem n (map (λ s. s.0) sources)) expected)
    && all (λ s. s.1 == "ok") sources

-- KeyError and ValueError are caught.
abbrev pub current_of : Answer Checkpoint → Checked Trouble Checkpoint
current_of (found c) = ok c
current_of (missing e) = raised skipped

module _ (r : Reader) (account : Account) (scan_id fingerprint : String) where
  -- The four fields before the account's.
  abbrev pub is_of_scan : String → Fields → Bool
  is_of_scan domain fs =
      (is_text "2.0" (lookup "checkpoint_schema_version" fs)
        && is_text scan_id (lookup "scan_id" fs))
      && is_text domain (lookup "domain" fs)
      && is_text fingerprint (lookup "collection_fingerprint" fs)

  abbrev pub is_of_account : Fields → Bool
  is_of_account fs =
      is_text account.account_id (lookup "id" fs) && is_text account.region (lookup "region" fs)

  abbrev pub is_of_window : Fields → Bool
  is_of_window fs =
      is_text account.window_start (lookup "start" fs)
      && is_text account.window_end (lookup "end" fs)

  -- `_compatible_checkpoint`, where a false conjunct skips the domain before the next is evaluated.
  unfoldable pub compatible :
      String → List String → List (String × String) → Json → Checked Trouble (Unit {0})
  compatible domain expected sources raw = do
    fs ← known attribute_error (dict? raw)
    demand skipped (is_of_scan domain fs)
    owner ← dict_or_empty r.is_zero (lookup "account" fs)
    demand skipped (is_of_account owner)
    window ← window_in fs
    demand skipped (is_of_window window)
    demand skipped (is_whole expected sources)
    ok tt

  -- What a row of the ledger brings: the sources of its domain, its fields and what was loaded.
  unfoldable pub resume_row :
      Store → Checkpoint → Checked Trouble (List String × List String × Loaded)
  resume_row s row = do
    fields ← known skipped (get row.domain domain_fields)
    demand skipped (row.status == "ready")
    current ← current_of (verified_checkpoint r.digest account.account_id scan_id row.domain s)
    content ← known skipped (r.read_text current.payload_path)
    raw ← known skipped (r.loads content)
    expected ← known skipped (get row.domain domain_sources)
    compatible row.domain expected current.sources raw
    loaded ← known skipped (r.load account raw)
    ok (expected, fields, loaded)

-- What the call has put together so far.
pub record Resumption : Type 0 where
  pub account : Account
  pub resumed : List String
  pub health : List Health

-- The four fields of the operational state of step functions.
abbrev pub operational : List String
operational =
    "stepfunctions_map_backlog" ∷ "stepfunctions_open_executions"
    ∷ "stepfunctions_service_integration_failures" ∷ "stepfunctions_service_integration_timeouts"
    ∷ []

-- getattr of a field that is not there is of no domain's concern: None.
abbrev pub field_of : String → List (String × Json) → Json
field_of name fs = elim (get name fs) [ none ↦ null | some v ↦ v ]

unfoldable pub copy_fields :
    List String → List (String × Json) → List (String × Json) → List (String × Json)
copy_fields [] loaded target = target
copy_fields (f ∷ fs) loaded target = copy_fields fs loaded (put f (field_of f loaded) target)

-- `_apply_domain`
unfoldable pub apply_domain :
    List String → List (String × Json) → List (String × Json) → List (String × Json)
apply_domain [] loaded target = target
apply_domain (f ∷ fs) loaded target =
    if f == "stepfunctions_operational"
    then apply_domain fs loaded (copy_fields operational loaded target)
    else apply_domain fs loaded (put f (field_of f loaded) target)

abbrev pub as_resumed : Health → Health
as_resumed h = record h { result_origin = "resumed"; duration_ms = 0 }

abbrev pub resumed_with : Resumption → List String × List String × Loaded → Resumption
resumed_with so_far (expected, fields, loaded) = record {
  account = record so_far.account {
    fields = apply_domain fields loaded.fields so_far.account.fields;
  };
  resumed = so_far.resumed ++ expected;
  health = so_far.health ++ map as_resumed loaded.collection_health;
}

-- `continue` behind an exception that is caught.
abbrev pub after_row :
    Resumption → Checked Trouble (List String × List String × Loaded) → Checked Trouble Resumption
after_row so_far (ok x) = ok (resumed_with so_far x)
after_row so_far (raised skipped) = ok so_far
after_row so_far (raised attribute_error) = raised attribute_error

module _ (r : Reader) (scan_id fingerprint : String) (s : Store) where
  unfoldable pub resume_rows : List Checkpoint → Resumption → Checked Trouble Resumption
  resume_rows [] so_far = ok so_far
  resume_rows (row ∷ rows) so_far =
      after_row so_far (resume_row r so_far.account scan_id fingerprint s row) >>= resume_rows rows

  unfoldable pub resume_ready_domains :
      (String → String → Bool) → Account → Checked Trouble Resumption
  resume_ready_domains precedes account =
      resume_rows (checkpoints precedes account.account_id scan_id s)
        (record { account = account; resumed = []; health = [] })
