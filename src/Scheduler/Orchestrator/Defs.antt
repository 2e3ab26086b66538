-- ===== src/Scheduler/Orchestrator/Defs.antt =====
-- `run_source_job`. The service is a parameter: `start_backfill` acts on a world of any type, and
-- what it does to the lock of this run is nothing. Parameters too: `redact`, the regular expressions of
-- `redact_string` (src/akasha/providers/bhoonidhi.py), pydantic's text of an error, and the free space and the
-- path checks of the host, which `Runtime` holds.
use akasha_ingestion.Base.{
  ℕ, Bool, true, false, not, ◌&&◌, Option, none, some, List, ◌∷◌, String, if◌then◌else◌, ltb,
  nat_beq, ◌==◌, string_eq, any,
}
use mathlib.Core.List.{◌++◌}
use akasha_ingestion.Base.Text.{Text, codes, decimal}
use akasha_ingestion.Schemas.{
  SyncRequest, resourcesat_backfill, RequestError, Checked, accepted, rejected, validate,
}
use akasha_ingestion.Providers.Contracts.{Failure, other_error, Result, ok, raised}
use akasha_ingestion.Jobs.Store.{Job}
use akasha_ingestion.Scheduler.Registry.{SourceState, Settings, source_state_by_id}
use akasha_ingestion.Scheduler.Planner.{
  PlannerDecision, due, PlannedSourceRun, is_disabled, is_manual,
}
use akasha_ingestion.Scheduler.Locks.{Held, source_aoi_lock_name, enter, leave}
use akasha_ingestion.Scheduler.Orchestrator.Results.{
  unsupported_source, source_gated, lock_held, RunReason, unsupported, lifecycle_disabled,
  manual_not_enabled, aoi_out_of_scope, plan_reason, already_held, SchedulerRunResult,
  planned_stages, blocked_result, dry_run_result, failed_result, dispatched_result,
}

-- The settings and the facts of the host that the checks read: `roots` is what
-- `validate_resourcesat_runtime_roots` raises, `free` is `shutil.disk_usage(...).free`.
pub record Runtime : Type 0 where
  pub approved_runtime_required : Bool
  pub approved_runtime : Bool
  pub roots : Option Failure
  pub required_headroom : ℕ
  pub free : ℕ

abbrev pub is_due_decision : PlannerDecision → Bool
is_due_decision due = true
is_due_decision _ = false

abbrev pub in_scope : SourceState → String → Bool
in_scope source aoi_id = any (λ aoi. aoi.aoi_id == aoi_id) source.default_aois

unfoldable pub source_gate : SourceState → PlannedSourceRun → Option RunReason
source_gate source p =
    if not (is_due_decision p.decision)
    then some (plan_reason p.reason)
    else if is_disabled source.lifecycle_state
    then some lifecycle_disabled
    else if is_manual source.lifecycle_state && not p.dry_run
    then some manual_not_enabled
    else if not (in_scope source p.aoi_id)
    then some aoi_out_of_scope
    else none

abbrev pub approved_runtime_text : Text
approved_runtime_text = codes "Bhoonidhi ResourceSat live jobs require approved runtime"

unfoldable pub require_approved_runtime : Runtime → Option Failure
require_approved_runtime rt =
    if not rt.approved_runtime_required
    then none
    else if rt.approved_runtime
    then none
    else some (other_error approved_runtime_text)

abbrev pub headroom_text : ℕ → ℕ → Text
headroom_text required free =
    codes "insufficient ResourceSat disk headroom: required "
    ++ (decimal required ++ (codes " bytes, available " ++ (decimal free ++ codes " bytes")))

abbrev pub check_free : Runtime → Option Failure
check_free rt =
    if nat_beq rt.required_headroom 0
    then none
    else if ltb rt.free rt.required_headroom
    then some (other_error (headroom_text rt.required_headroom rt.free))
    else none

unfoldable pub require_disk_headroom : Runtime → Option Failure
require_disk_headroom rt = elim rt.roots [ some failure ↦ some failure | none ↦ check_free rt ]

abbrev pub sync_request : PlannedSourceRun → SyncRequest
sync_request p = record {
  source_id = p.source_id;
  aoi_id = p.aoi_id;
  date_start = p.date_start;
  date_end = p.date_end;
  job_type = resourcesat_backfill;
  provider_route = some p.provider_route;
  mode = p.mode;
}

-- The world of the service, the set of the lock registry, and the results that `_emit` has logged.
pub record Platform (W : Type 0) : Type 0 where
  pub world : W
  pub held : Held
  pub emitted : List SchedulerRunResult

abbrev pub lock_name : PlannedSourceRun → String
lock_name p = source_aoi_lock_name p.source_id p.aoi_id

module _ {W : Type 0} (redact : Text → Text) (invalid_text : RequestError → Text) (rt : Runtime)
    (start_backfill : SyncRequest → W → Result Job × W) where
  abbrev pub emit : SchedulerRunResult → Platform W → SchedulerRunResult × Platform W
  emit result s = (result, record s { emitted = result ∷ s.emitted })

  abbrev pub finish_call : PlannedSourceRun → Result Job × W → SchedulerRunResult × W
  finish_call p (ok job, w) = (dispatched_result p job (planned_stages p.mode), w)
  finish_call p (raised failure, w) = (failed_result redact p failure (planned_stages p.mode), w)

  abbrev pub call_service : PlannedSourceRun → Checked → W → SchedulerRunResult × W
  call_service p accepted w = finish_call p (start_backfill (sync_request p) w)
  call_service p (rejected e) w =
      (failed_result redact p (other_error (invalid_text e)) (planned_stages p.mode), w)

  abbrev pub after_headroom : PlannedSourceRun → Option Failure → W → SchedulerRunResult × W
  after_headroom p (some failure) w = (failed_result redact p failure (planned_stages p.mode), w)
  after_headroom p none w = call_service p (validate (sync_request p)) w

  abbrev pub after_approval : PlannedSourceRun → Option Failure → W → SchedulerRunResult × W
  after_approval p (some failure) w = (failed_result redact p failure (planned_stages p.mode), w)
  after_approval p none w = after_headroom p (require_disk_headroom rt) w

  -- The `try` block: the two requirements, the request, the call.
  unfoldable pub attempt_run : PlannedSourceRun → W → SchedulerRunResult × W
  attempt_run p w = after_approval p (require_approved_runtime rt) w

  -- Inside the lock.
  abbrev pub locked_run : PlannedSourceRun → W → SchedulerRunResult × W
  locked_run p w =
      if p.dry_run then (dry_run_result p (planned_stages p.mode), w) else attempt_run p w

  abbrev pub with_lock :
      PlannedSourceRun → Bool × Held → Platform W → SchedulerRunResult × Platform W
  with_lock p (false, held) s =
      emit (blocked_result p (already_held (lock_name p)) (planned_stages p.mode) lock_held)
        (record s { held = held })
  with_lock p (true, held) s =
      let (result, w) = locked_run p s.world in
      emit result (record s { world = w; held = leave (lock_name p) held })

  abbrev pub run_gated :
      PlannedSourceRun → Option RunReason → Platform W → SchedulerRunResult × Platform W
  run_gated p (some reason) s =
      emit (blocked_result p reason (planned_stages p.mode) source_gated) s
  run_gated p none s = with_lock p (enter (lock_name p) s.held) s

  abbrev pub run_source :
      PlannedSourceRun → Option SourceState → Platform W → SchedulerRunResult × Platform W
  run_source p none s =
      emit (blocked_result p unsupported (planned_stages p.mode) unsupported_source) s
  run_source p (some source) s = run_gated p (source_gate source p) s

  unfoldable pub run_source_job :
      Settings → PlannedSourceRun → Platform W → SchedulerRunResult × Platform W
  run_source_job settings p s = run_source p (source_state_by_id settings p.source_id) s
