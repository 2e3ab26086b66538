-- ===== src/Scheduler/Orchestrator/Results.antt =====
-- `SchedulerRunResult` and the ends of a run that make one, with the class and the text of a failure.
use akasha_ingestion.Base.{
  ℕ, Bool, true, false, ◌||◌, Option, none, some, List, [], ◌∷◌, String, if◌then◌else◌, string_eq,
  length,
}
use akasha_ingestion.Base.Dict.{Dict}
use akasha_ingestion.Base.Text.{Text, codes, contains, lower}
use akasha_ingestion.Schemas.{Mode, full_pipeline}
use akasha_ingestion.Providers.Contracts.{
  ProviderErrorCategory, Failure, provider_error, other_error, text_of,
}
use akasha_ingestion.Jobs.Store.{Job, JobStatus}
use akasha_ingestion.Scheduler.Planner.{PlanReason, Thresholds, PlannedSourceRun}

pub data SchedulerRunStatus : Type 0 where
  planned blocked dispatched failed : SchedulerRunStatus

pub data ErrorCategory : Type 0 where
  unsupported_source source_gated lock_held approved_runtime_required : ErrorCategory
  insufficient_headroom lock_failed unknown : ErrorCategory
  provider : ProviderErrorCategory → ErrorCategory

-- The reasons as the source words them.
pub data RunReason : Type 0 where
  unsupported lifecycle_disabled manual_not_enabled aoi_out_of_scope dry_run_only : RunReason
  roots_not_approved : RunReason
  plan_reason : PlanReason → RunReason
  already_held : String → RunReason
  failure_text : Text → RunReason
  job_status : JobStatus → RunReason

pub record SchedulerRunResult : Type 0 where
  pub status : SchedulerRunStatus
  pub source_id : String
  pub aoi_id : String
  pub provider_route : String
  pub dry_run : Bool
  pub reason : RunReason
  pub planned_stages : List String
  pub thresholds : Option Thresholds
  pub counts : Dict String ℕ
  pub job_id : Option String
  pub error_category : Option ErrorCategory

abbrev pub is_full_pipeline : Mode → Bool
is_full_pipeline full_pipeline = true
is_full_pipeline _ = false

unfoldable pub planned_stages : Mode → List String
planned_stages mode =
    if is_full_pipeline mode
    then "provider_search" ∷ "raw_download" ∷ "prepare_scene" ∷ "scene_validation" ∷ "composite"
      ∷ "composite_validation" ∷ "index_generation" ∷ "pgstac_registration" ∷ "readiness_refresh"
      ∷ "cleanup" ∷ []
    else "provider_search" ∷ []

unfoldable pub classify_failure : Failure → ErrorCategory
classify_failure (provider_error category text) = provider category
classify_failure (other_error text) =
    if contains (lower text) (codes "approved runtime")
    then approved_runtime_required
    else if contains (lower text) (codes "headroom") || contains (lower text) (codes "disk")
    then insufficient_headroom
    else if contains (lower text) (codes "lock")
    then lock_failed
    else unknown

unfoldable pub safe_failure_reason : (Text → Text) → Failure → RunReason
safe_failure_reason redact failure =
    if contains (lower (text_of failure)) (codes "resourcesat runtime root")
      || contains (lower (text_of failure)) (codes "approved data root")
    then roots_not_approved
    else failure_text (redact (text_of failure))

unfoldable pub blocked_result :
    PlannedSourceRun → RunReason → List String → ErrorCategory → SchedulerRunResult
blocked_result p reason stages category = record {
  status = blocked;
  source_id = p.source_id;
  aoi_id = p.aoi_id;
  provider_route = p.provider_route;
  dry_run = p.dry_run;
  reason = reason;
  planned_stages = stages;
  thresholds = p.thresholds;
  counts = [];
  job_id = none;
  error_category = some category;
}

unfoldable pub dry_run_result : PlannedSourceRun → List String → SchedulerRunResult
dry_run_result p stages = record {
  status = planned;
  source_id = p.source_id;
  aoi_id = p.aoi_id;
  provider_route = p.provider_route;
  dry_run = true;
  reason = dry_run_only;
  planned_stages = stages;
  thresholds = p.thresholds;
  counts = ("plannedStages", length stages) ∷ ("providerCalls", 0) ∷ ("mutations", 0) ∷ [];
  job_id = none;
  error_category = none;
}

unfoldable pub failed_result :
    (Text → Text) → PlannedSourceRun → Failure → List String → SchedulerRunResult
unfolding classify_failure safe_failure_reason
failed_result redact p failure stages = record {
  status = failed;
  source_id = p.source_id;
  aoi_id = p.aoi_id;
  provider_route = p.provider_route;
  dry_run = false;
  reason = safe_failure_reason redact failure;
  planned_stages = stages;
  thresholds = p.thresholds;
  counts = ("plannedStages", length stages) ∷ [];
  job_id = none;
  error_category = some (classify_failure failure);
}

unfoldable pub dispatched_result : PlannedSourceRun → Job → List String → SchedulerRunResult
dispatched_result p job stages = record {
  status = dispatched;
  source_id = p.source_id;
  aoi_id = p.aoi_id;
  provider_route = p.provider_route;
  dry_run = false;
  reason = job_status job.status;
  planned_stages = stages;
  thresholds = p.thresholds;
  counts = ("plannedStages", length stages) ∷ [];
  job_id = some job.job_id;
  error_category = none;
}
