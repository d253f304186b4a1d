-- ===== src/Collection/Resumed.antt =====
-- The sources that `resume_ready_domains` reports as resumed.
use julius.Common.{
  String, Bool, true, ◌≡◌, refl, subst, some, List, [], ◌∷◌, ◌++◌, All, All-weaken, All-append, map,
  elem, get, arith, ◌==◌, string_eq, beq_self,
}
use julius.Json.{Json, Fields, lookup}
use julius.Json.Reading.{dict?}
use julius.Json.Checks.{
  Checked, ok, raised, ◌>>=◌, ok-eq, known, bind-ok, demand-ok, then-ok, known-ok,
}
use julius.Runs.Ledger.{Checkpoint, Store}
use julius.Runs.Reading.{Answer, found, missing, checkpoints, verified_checkpoint}
use julius.Collection.Domains.{domain_sources, domain_fields}
use julius.Collection.Resuming.{
  Health, Account, Loaded, Trouble, skipped, attribute_error, Reader, dict_or_empty, window_in,
  is_whole, current_of, is_of_scan, is_of_account, is_of_window, compatible, resume_row, Resumption,
  apply_domain, as_resumed, after_row, resume_rows, resume_ready_domains,
}

all_members :
    (P : String → Type 0) (xs : List String) → ((n : String) → elem n xs ≡ true → P n) → All P xs
all_members P [] h = tt
all_members P (x ∷ xs) h =
    (h x (ground (arith, beq_self x)), all_members P xs (λ n m. h n (ground (arith, m))))

current_of-ok : (a : Answer Checkpoint) (c : Checkpoint) → current_of a ≡ ok c → a ≡ found c
current_of-ok (found d) c h = ground (arith, h)
current_of-ok (missing e) c h = absurd (ground (arith, h))

module _ (r : Reader) (account : Account) (scan_id fingerprint : String) where
  -- The file of a checkpoint was written for this scan, this account, this window and the same
  -- settings of the collection, and every source of the domain ended well.
  pub record IsCompatible (domain : String) (expected : List String)
      (sources : List (String × String)) (raw : Json) : Type 0 where
    pub fs : Fields
    pub is_dict : dict? raw ≡ some fs
    pub scan : is_of_scan r account scan_id fingerprint domain fs ≡ true
    pub owner : Fields
    pub owned : dict_or_empty r.is_zero (lookup "account" fs) ≡ ok owner
    pub same_account : is_of_account r account scan_id fingerprint owner ≡ true
    pub window : Fields
    pub has_window : window_in fs ≡ ok window
    pub same_window : is_of_window r account scan_id fingerprint window ≡ true
    pub whole : is_whole expected sources ≡ true

  compatible-IsCompatible :
      (domain : String) (expected : List String) (sources : List (String × String)) (raw : Json)
      → compatible r account scan_id fingerprint domain expected sources raw ≡ ok tt
      → IsCompatible domain expected sources raw
  unfolding compatible
  compatible-IsCompatible domain expected sources raw h =
      let (fs, p0, h0) = bind-ok (known attribute_error (dict? raw)) _ h in
      let (scan, h1) =
        demand-ok skipped (is_of_scan r account scan_id fingerprint domain fs) _ h0 in
      let (owner, p2, h2) = bind-ok (dict_or_empty r.is_zero (lookup "account" fs)) _ h1 in
      let (mine, h3) = demand-ok skipped (is_of_account r account scan_id fingerprint owner) _ h2 in
      let (window, p4, h4) = bind-ok (window_in fs) _ h3 in
      let (same, h5) = demand-ok skipped (is_of_window r account scan_id fingerprint window) _ h4 in
      let (whole, h6) = demand-ok skipped (is_whole expected sources) _ h5 in
      record {
        fs = fs;
        is_dict = known-ok attribute_error (dict? raw) p0;
        scan = scan;
        owner = owner;
        owned = p2;
        same_account = mine;
        window = window;
        has_window = p4;
        same_window = same;
        whole = whole;
      }

  pub record IsResumable (s : Store) (source : String) : Type 0 where
    pub domain : String
    pub expected : List String
    pub listed : get domain domain_sources ≡ some expected
    pub member : elem source expected ≡ true
    pub current : Checkpoint
    pub intact : verified_checkpoint r.digest account.account_id scan_id domain s ≡ found current
    pub content : String
    pub held : r.read_text current.payload_path ≡ some content
    pub raw : Json
    pub decoded : r.loads content ≡ some raw
    pub compatible : IsCompatible domain expected current.sources raw

  resume_row-IsResumable :
      (s : Store) (row : Checkpoint) (x : List String × List String × Loaded)
      → resume_row r account scan_id fingerprint s row ≡ ok x
      → All (IsResumable s) x.0
  unfolding resume_row
  resume_row-IsResumable s row x h =
      let (fields, p0, h0) = bind-ok (known skipped (get row.domain domain_fields)) _ h in
      let (ready, h1) = demand-ok skipped (row.status == "ready") _ h0 in
      let read = verified_checkpoint r.digest account.account_id scan_id row.domain s in
      let (current, p2, h2) = bind-ok (current_of read) _ h1 in
      let (content, p3, h3) = bind-ok (known skipped (r.read_text current.payload_path)) _ h2 in
      let (raw, p4, h4) = bind-ok (known skipped (r.loads content)) _ h3 in
      let (expected, p5, h5) = bind-ok (known skipped (get row.domain domain_sources)) _ h4 in
      let (good, h6) =
        then-ok (compatible r account scan_id fingerprint row.domain expected current.sources raw) _
          h5 in
      let (loaded, p7, h7) = bind-ok (known skipped (r.load account raw)) _ h6 in
      subst (λ (y : List String × List String × Loaded). All (IsResumable s) y.0)
        (ok-eq (expected, fields, loaded) x h7)
        (all_members (IsResumable s) expected (λ n member. record {
          domain = row.domain;
          expected = expected;
          listed = known-ok skipped (get row.domain domain_sources) p5;
          member = member;
          current = current;
          intact = current_of-ok read current p2;
          content = content;
          held = known-ok skipped (r.read_text current.payload_path) p3;
          raw = raw;
          decoded = known-ok skipped (r.loads content) p4;
          compatible = compatible-IsCompatible row.domain expected current.sources raw good;
        }))

module _ (r : Reader) (account : Account) (scan_id fingerprint : String) (s : Store) where
  abbrev with_fields : List (String × Json) → Account
  with_fields f = record account { fields = f }

  -- The account that a row sees has other fields, and the same identity and window.
  same_identity :
      (f : List (String × Json)) (n : String)
      → IsResumable r (with_fields f) scan_id fingerprint s n
      → IsResumable r account scan_id fingerprint s n
  same_identity f n h = record {
    domain = h.domain;
    expected = h.expected;
    listed = h.listed;
    member = h.member;
    current = h.current;
    intact = h.intact;
    content = h.content;
    held = h.held;
    raw = h.raw;
    decoded = h.decoded;
    compatible = record {
      fs = h.compatible.fs;
      is_dict = h.compatible.is_dict;
      scan = h.compatible.scan;
      owner = h.compatible.owner;
      owned = h.compatible.owned;
      same_account = h.compatible.same_account;
      window = h.compatible.window;
      has_window = h.compatible.has_window;
      same_window = h.compatible.same_window;
      whole = h.compatible.whole;
    };
  }

  abbrev AreResumable : List String → Type 0
  AreResumable = All (IsResumable r account scan_id fingerprint s)

  resume_rows-AreResumable :
      (rows : List Checkpoint) (f : List (String × Json)) (resumed : List String)
      (health : List Health) (out : Resumption)
      → AreResumable resumed
      → resume_rows r scan_id fingerprint s rows
          (record { account = with_fields f; resumed = resumed; health = health })
        ≡ ok out
      → AreResumable out.resumed
  unfolding resume_rows
  resume_rows-AreResumable [] f resumed health out good h =
      subst (λ (x : Resumption). AreResumable x.resumed) (ok-eq _ out h) good
  resume_rows-AreResumable (row ∷ rows) f resumed health out good h =
      go
        (λ f' resumed' health' good' k'.
          resume_rows-AreResumable rows f' resumed' health' out good' k')
        (resume_row r (with_fields f) scan_id fingerprint s row) refl h
    where
      so_far : Resumption
      so_far = record { account = with_fields f; resumed = resumed; health = health }

      go :
          ((f' : List (String × Json)) (resumed' : List String) (health' : List Health)
            → AreResumable resumed'
            → resume_rows r scan_id fingerprint s rows
                (record { account = with_fields f'; resumed = resumed'; health = health' })
              ≡ ok out
            → AreResumable out.resumed)
          → (x : Checked Trouble (List String × List String × Loaded))
          → resume_row r (with_fields f) scan_id fingerprint s row ≡ x
          → after_row so_far x >>= resume_rows r scan_id fingerprint s rows ≡ ok out
          → AreResumable out.resumed
      go again (raised skipped) e k = again f resumed health good k
      go again (raised attribute_error) e k = absurd (ground (arith, k))
      go again (ok (expected, fields, loaded)) e k =
          again (apply_domain fields loaded.fields f) (resumed ++ expected)
            (health ++ map as_resumed loaded.collection_health)
            (All-append (IsResumable r account scan_id fingerprint s) resumed expected good (
              All-weaken expected (same_identity f) (
                resume_row-IsResumable r (with_fields f) scan_id fingerprint s row
                  (expected, fields, loaded) e)))
            k

-- A source is reported as resumed only if it belongs to a domain whose checkpoint is in the ledger
-- with its file intact, the file was written for this scan, account, region, window and settings
-- of the collection, and each source of the domain, this one included, had ended well.
pub resume_ready_domains-IsResumable :
    (r : Reader) (scan_id fingerprint : String) (s : Store) (precedes : String → String → Bool)
    (account : Account) (out : Resumption)
    → resume_ready_domains r scan_id fingerprint s precedes account ≡ ok out
    → All (IsResumable r account scan_id fingerprint s) out.resumed
unfolding resume_ready_domains
resume_ready_domains-IsResumable r scan_id fingerprint s precedes account out h =
    resume_rows-AreResumable r account scan_id fingerprint s
      (checkpoints precedes account.account_id scan_id s) account.fields [] [] out tt h
