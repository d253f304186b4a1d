-- ===== src/Analysis/Response/Catalogue.antt =====
-- The keys of two tables of julius/knowledge that the validator asks: the rules that take an
-- estimate of the analysis (generative_estimation.py) and the families of remediation
-- (remediation.py).
use julius.Common.{String, Bool, List, [], ◌∷◌, elem, string_eq}

abbrev pub eligible_rule_ids : List String
eligible_rule_ids =
    "GLUE-CODE-CACHE-LIFECYCLE" ∷ "GLUE-CODE-DRIVER-MATERIALIZATION" ∷ "GLUE-CODE-FULL-OVERWRITE"
    ∷ "GLUE-CODE-ITERATIVE-PLAN" ∷ "GLUE-CODE-PUSHDOWN" ∷ "GLUE-CODE-PYTHON-UDF"
    ∷ "GLUE-CODE-REPEATED-ACTIONS" ∷ "GLUE-CODE-ROW-EXTERNAL-IO" ∷ "SM-CODE-FIXED-EPOCHS"
    ∷ "SM-CODE-FULL-DATASET-LOAD" ∷ "SM-CODE-ROW-EXTERNAL-IO" ∷ []

-- eligible(rule_id) is not None
unfoldable pub is_eligible : String → Bool
is_eligible rule = elem rule eligible_rule_ids

abbrev pub families : List String
families =
    "capacity_sizing" ∷ "shuffle_partitioning" ∷ "driver_memory_cache" ∷ "row_level_processing"
    ∷ "read_pruning" ∷ "output_layout" ∷ "incremental_state" ∷ "runtime_modality" ∷ "idle_capacity"
    ∷ "schedule_frequency" ∷ "failure_waste" ∷ "orchestration_waste" ∷ "silent_failure"
    ∷ "training_convergence" ∷ "table_format" ∷ "storage_class" ∷ "lifecycle_cleanup"
    ∷ "data_demand" ∷ "result_reuse" ∷ "observability_gap" ∷ "commitment_purchase"
    ∷ "advisor_backlog" ∷ "inventory_integrity" ∷ []

-- family in FAMILIES
unfoldable pub is_family : String → Bool
is_family f = elem f families
