-- ===== src/Collection/Domains.antt =====
-- The domains of julius/collection/checkpoints.py, the sources that each waits for, and the fields of
-- the account that each keeps.
use julius.Common.{
  String, Bool, true, false, ◌&&◌, not, List, [], ◌∷◌, all, any, elem, ◌==◌, string_eq,
  if◌then◌else◌,
}

abbrev pub domain_sources : List (String × List String)
domain_sources =
    (
      "glue",
      ("Glue Jobs" ∷ "Glue Scripts" ∷ "Spark Event Logs" ∷ "Glue Catalog" ∷ "Glue Crawlers"
          ∷ "Glue Triggers" ∷ "Glue DataBrew" ∷ "CloudWatch Glue CPU"
          ∷ "CloudWatch Glue Observability" ∷ "Glue Interactive Sessions" ∷ "Glue Cost Explorer"
          ∷ []),
    )
    ∷ ("athena", ("Athena Queries" ∷ "Athena Provisioned Capacity" ∷ []))
    ∷ (
      "s3",
      ("Amazon S3" ∷ "S3 Config" ∷ "S3 Prefixes" ∷ "S3 Access Evidence" ∷ "S3 Multipart Uploads"
          ∷ "S3 Cost Explorer" ∷ []),
    )
    ∷ (
      "sagemaker",
      ("SageMaker Studio" ∷ "SageMaker Spaces" ∷ "SageMaker Domains" ∷ "SageMaker Endpoints"
          ∷ "SageMaker Notebooks" ∷ "SageMaker Jobs" ∷ "SageMaker Feature Store"
          ∷ "SageMaker Pipelines" ∷ "SageMaker Model Monitor" ∷ "SageMaker Inference Recommender"
          ∷ "SageMaker Cost Explorer" ∷ "SageMaker Savings Plans" ∷ []),
    )
    ∷ ("redshift", ("Amazon Redshift" ∷ "Redshift Cost Explorer" ∷ []))
    ∷ ("orchestration", ("Step Functions" ∷ "EventBridge Schedules" ∷ []))
    ∷ []

abbrev pub domain_fields : List (String × List String)
domain_fields =
    (
      "glue",
      ("glue_jobs" ∷ "interactive_sessions" ∷ "glue_crawlers" ∷ "glue_triggers" ∷ "databrew_jobs"
          ∷ "tables" ∷ "glue_cost_coverage" ∷ []),
    )
    ∷ (
      "athena",
      ("athena_queries" ∷ "athena_capacity_reservations" ∷ "athena_coverage" ∷ "athena_actor_usage"
          ∷ []),
    )
    ∷ (
      "s3",
      ("s3_buckets" ∷ "s3_prefixes" ∷ "s3_multipart" ∷ "s3_bucket_configs" ∷ "s3_cost_coverage"
          ∷ []),
    )
    ∷ (
      "sagemaker",
      ("sagemaker_apps" ∷ "sagemaker_spaces" ∷ "sagemaker_domains" ∷ "sagemaker_endpoints"
          ∷ "sagemaker_notebooks" ∷ "sagemaker_jobs" ∷ "sagemaker_feature_groups"
          ∷ "sagemaker_pipelines" ∷ "sagemaker_monitoring_schedules"
          ∷ "sagemaker_inference_recommendations" ∷ "sagemaker_cost_coverage"
          ∷ "sagemaker_savings_plans" ∷ []),
    )
    ∷ ("redshift", ("redshift_clusters" ∷ "redshift_cost_coverage" ∷ []))
    ∷ ("orchestration", ("state_machines" ∷ "stepfunctions_operational" ∷ "schedules" ∷ []))
    ∷ []

abbrev pub is_empty : List String → Bool
is_empty [] = true
is_empty (x ∷ xs) = false

-- `_checkpoint_status`
unfoldable pub checkpoint_status : List String → String
checkpoint_status values =
    if not (is_empty values) && all (λ s. s == "ok") values
    then "ready"
    else if any (λ s. elem s ("ok" ∷ "partial" ∷ [])) values
    then "partial"
    else "unavailable"
