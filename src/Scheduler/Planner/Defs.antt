-- ===== src/Scheduler/Planner/Defs.antt =====
-- `PlannedSourceRun`, `_plan_source_aoi` and `plan_due_sources`.
use akasha_ingestion.Base.{
  ℕ, ◌+◌, ◌-◌, ◌*◌, ◌/◌, Bool, true, false, not, ◌&&◌, Option, none, some, List, [], ◌∷◌, ◌++◌,
  String, if◌then◌else◌, ltb, pair_eq, string_eq,
}
use akasha_ingestion.Base.Dict.{Dict, lookup}
use akasha_ingestion.Schemas.{Mode, full_pipeline}
use akasha_ingestion.Scheduler.Registry.{
  SourceScheduleState, disabled, manual, scheduled, SourceAoiState, SourceState, Settings,
  ingestion_source_registry,
}

pub data PlannerDecision : Type 0 where
  due not_due switched_off : PlannerDecision

-- The reasons as the source words them; a date is printed by `isoformat`, which the reader applies.
pub data PlanReason : Type 0 where
  schedule_disabled manual_only is_due manual_run : PlanReason
  next_run_due_at : ℕ → PlanReason

pub record Thresholds : Type 0 where
  pub max_downloads : ℕ
  pub min_coverage_percent : ℕ
  pub composite_window_days : ℕ
  pub freshness_max_age_hours : ℕ

pub record PlannedSourceRun : Type 0 where
  pub source_id : String
  pub aoi_id : String
  pub provider_route : String
  pub date_start : ℕ
  pub date_end : ℕ
  pub mode : Mode
  pub decision : PlannerDecision
  pub reason : PlanReason
  pub dry_run : Bool
  pub thresholds : Option Thresholds

abbrev pub day : ℕ
day = 86400000000

-- `moment.date()`
abbrev pub date_of : ℕ → ℕ
date_of moment = moment / day

abbrev pub plan :
    SourceState → SourceAoiState → ℕ → PlannerDecision → PlanReason → Bool → PlannedSourceRun
plan source aoi now decision reason dry_run = record {
  source_id = source.source_id;
  aoi_id = aoi.aoi_id;
  provider_route = aoi.provider_route;
  date_start = date_of (now - aoi.date_window_days * day);
  date_end = date_of now;
  mode = full_pipeline;
  decision = decision;
  reason = reason;
  dry_run = dry_run;
  thresholds = some (record {
    max_downloads = aoi.max_downloads;
    min_coverage_percent = aoi.min_coverage_percent;
    composite_window_days = aoi.composite_window_days;
    freshness_max_age_hours = aoi.freshness_max_age_hours;
  });
}

abbrev pub is_disabled : SourceScheduleState → Bool
is_disabled disabled = true
is_disabled _ = false

abbrev pub is_manual : SourceScheduleState → Bool
is_manual manual = true
is_manual _ = false

abbrev pub is_scheduled : SourceScheduleState → Bool
is_scheduled scheduled = true
is_scheduled _ = false

-- The moment before which a source that has succeeded is not due again.
abbrev pub next_due_at : SourceAoiState → ℕ → ℕ
next_due_at aoi last = last + aoi.refresh_days * day

abbrev pub too_early : SourceAoiState → ℕ → Option ℕ → Bool
too_early aoi now none = false
too_early aoi now (some last) = ltb now (next_due_at aoi last)

abbrev pub wait_reason : SourceAoiState → Option ℕ → PlanReason
wait_reason aoi none = is_due
wait_reason aoi (some last) = next_run_due_at (next_due_at aoi last)

unfoldable pub plan_source_aoi :
    SourceState → SourceAoiState → ℕ → Option ℕ → Bool → Bool → PlannedSourceRun
plan_source_aoi source aoi now last_success include_manual dry_run =
    if is_disabled source.schedule_state
    then plan source aoi now switched_off schedule_disabled dry_run
    else if is_manual source.schedule_state && not include_manual
    then plan source aoi now not_due manual_only dry_run
    else if too_early aoi now last_success
    then plan source aoi now not_due (wait_reason aoi last_success) dry_run
    else plan source aoi now due (if is_scheduled source.schedule_state then is_due else manual_run)
        dry_run

abbrev pub LastSuccess : Type 0
LastSuccess = Dict (String × String) ℕ

-- The inner loop of `plan_due_sources`, over the areas of one source.
unfoldable pub plan_aois :
    SourceState → List SourceAoiState → ℕ → LastSuccess → Bool → Bool → List PlannedSourceRun
unfolding plan_source_aoi
plan_aois source [] now last include_manual dry_run = []
plan_aois source (aoi ∷ aois) now last include_manual dry_run =
    plan_source_aoi source aoi now (lookup (source.source_id, aoi.aoi_id) last) include_manual
      dry_run
    ∷ plan_aois source aois now last include_manual dry_run

unfoldable pub plan_sources :
    List SourceState → ℕ → LastSuccess → Bool → Bool → List PlannedSourceRun
unfolding plan_aois
plan_sources [] now last include_manual dry_run = []
plan_sources (source ∷ sources) now last include_manual dry_run =
    plan_aois source source.default_aois now last include_manual dry_run
    ++ plan_sources sources now last include_manual dry_run

unfoldable pub plan_due_sources : Settings → ℕ → LastSuccess → Bool → Bool → List PlannedSourceRun
unfolding plan_sources
plan_due_sources settings now last include_manual dry_run =
    plan_sources (ingestion_source_registry settings) now last include_manual dry_run
