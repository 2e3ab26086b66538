-- ===== src/Scheduler/Tests.antt =====
-- A registry with one scheduled source, its plans, locks and runs, and the theorems about them there.
use akasha_ingestion.Base.{
  ℕ, suc, ◌*◌, Bool, true, false, none, some, [], ◌∷◌, String, ◌≡◌, ◌↔◌, ◌⊎◌, refl, arith,
  string_eq, pair_eq, ap, ◌∙◌,
}
use akasha_ingestion.Base.Text.{Text}
use akasha_ingestion.Schemas.{SyncRequest, RequestError, validate}
use akasha_ingestion.Providers.Contracts.{Result, ok}
use akasha_ingestion.Jobs.Store.{Job, JobRequest, new_job}
use akasha_ingestion.Scheduler.Registry.{
  SourceState, SourceAoiState, PreloadSettings, Settings, manual, awifs_profile, state,
  regional_context, source_state_by_id,
}
use akasha_ingestion.Scheduler.Registry.Exposure.{IsSafe, source_state_by_id-IsSafe}
use akasha_ingestion.Scheduler.Planner.{PlannedSourceRun, day, due, plan_source_aoi}
use akasha_ingestion.Scheduler.Planner.Decision.{IsDue, plan_source_aoi-IsDue}
use akasha_ingestion.Scheduler.Locks.{enter}
use akasha_ingestion.Scheduler.Locks.Exclusion.{
  Locked, take, Reach, start, next, IsExclusive, Reach-IsExclusive,
}
use akasha_ingestion.Scheduler.Orchestrator.{
  Runtime, Platform, source_gate, sync_request, run_source_job, dispatched,
}
use akasha_ingestion.Scheduler.Orchestrator.Gates.{
  IsAllowed, run_source_job-guarded, run_source_job-releases, run_source_job-resourcesat_only,
}
use akasha_ingestion.Scheduler.Orchestrator.Dispatch.{
  IsServedJob, run_source_job-allowed, served-dispatched, run_source_job-dispatched,
  plan_source_aoi-source_gate,
}

abbrev preload : String → Bool → PreloadSettings
preload id enabled = record {
  source_id = id;
  aoi_id = "bangalore_60km_geodesic_aoi";
  provider_route = "bhoonidhi:ResourceSat-2A_AWIFS_BOA";
  date_window_days = 365;
  refresh_days = 14;
  freshness_max_age_hours = 336;
  max_downloads = 2;
  schedule_enabled = enabled;
  min_coverage_percent = 60000000;
  profile_version = "v1";
}

abbrev settings : Settings
settings = record {
  resourcesat_liss3 = preload "resourcesat-2a-liss3-boa" false;
  resourcesat_liss4 = preload "resourcesat-2a-liss4-mx70-l2" false;
  resourcesat_awifs = preload "resourcesat-2a-awifs-boa" true;
  eos04 = preload "eos-04-sar-mrs-l2b" true;
  nisar = preload "nisar-ssar-beta-gcov" false;
  landsat = preload "landsat-c2-l2" true;
  landsat_readiness_enabled = false;
  field_min_coverage_percentage = 50000000;
}

abbrev awifs : SourceState
awifs = unfold state in state awifs_profile settings.resourcesat_awifs regional_context

abbrev area : SourceAoiState
area = record {
  source_id = "resourcesat-2a-awifs-boa";
  aoi_id = "bangalore_60km_geodesic_aoi";
  provider_route = "bhoonidhi:ResourceSat-2A_AWIFS_BOA";
  date_window_days = 365;
  refresh_days = 14;
  freshness_max_age_hours = 336;
  max_downloads = 2;
  min_coverage_percent = 60000000;
  composite_window_days = 365;
}

abbrev today : ℕ
today = 739365 * day

awifs-known : source_state_by_id settings "resourcesat-2a-awifs-boa" ≡ some awifs
unfolding source_state_by_id state
awifs-known = refl

awifs-IsSafe : IsSafe awifs
awifs-IsSafe = (source_state_by_id-IsSafe settings "resourcesat-2a-awifs-boa" awifs-known).0

source_state_by_id-IsSafe_example : IsSafe awifs × (awifs.source_id ≡ "resourcesat-2a-awifs-boa")
unfolding state
source_state_by_id-IsSafe_example =
    source_state_by_id-IsSafe settings "resourcesat-2a-awifs-boa" awifs-known

plan_source_aoi-IsDue_example :
    ((plan_source_aoi awifs area today none false false).decision ≡ due)
    ↔ IsDue awifs area today none false
plan_source_aoi-IsDue_example = plan_source_aoi-IsDue awifs area today false false none

abbrev locked : Locked
locked = record { held = "source:s:aoi:a" ∷ []; inside = (1, "source:s:aoi:a") ∷ [] }

locked-Reach : Reach locked
unfolding enter
locked-Reach = next start (take 1 "source:s:aoi:a" refl)

Reach-IsExclusive_example : IsExclusive locked
Reach-IsExclusive_example = Reach-IsExclusive locked-Reach

-- A service that counts its calls.
abbrev job_request : JobRequest
job_request = record {
  job_type = "resourcesat_backfill";
  idempotency_key = "k";
  source_id = "resourcesat-2a-awifs-boa";
  aoi_id = "bangalore_60km_geodesic_aoi";
  date_start = "d1";
  date_end = "d2";
}

abbrev service : SyncRequest → ℕ → Result Job × ℕ
service r calls = (ok (new_job "j1" 5 job_request), suc calls)

abbrev same_text : Text → Text
same_text t = t

abbrev no_text : RequestError → Text
no_text e = []

abbrev runtime : Runtime
runtime = record {
  approved_runtime_required = true;
  approved_runtime = true;
  roots = none;
  required_headroom = 100;
  free = 200;
}

abbrev idle : Platform ℕ
idle = record { world = 0; held = []; emitted = [] }

abbrev awifs_plan : PlannedSourceRun
awifs_plan = unfold plan_source_aoi in plan_source_aoi awifs area today none false false

run_source_job-guarded_example :
    ((run_source_job same_text no_text runtime service settings awifs_plan idle).1.world ≡ 0)
    ⊎ ((source : SourceState) × IsAllowed settings runtime awifs_plan idle source)
run_source_job-guarded_example =
    run_source_job-guarded same_text no_text runtime service settings awifs_plan idle

run_source_job-releases_example :
    let (result, t) = run_source_job same_text no_text runtime service settings awifs_plan idle in
    (t.held ≡ []) × (t.emitted ≡ result ∷ [])
run_source_job-releases_example =
    run_source_job-releases same_text no_text runtime service settings awifs_plan idle

abbrev eos04_plan : PlannedSourceRun
eos04_plan = record awifs_plan { source_id = "eos-04-sar-mrs-l2b" }

run_source_job-resourcesat_only_example :
    (run_source_job same_text no_text runtime service settings eos04_plan idle).1.world ≡ 0
unfolding plan_source_aoi
run_source_job-resourcesat_only_example =
    run_source_job-resourcesat_only same_text no_text runtime service settings eos04_plan idle refl

awifs_plan-IsAllowed : IsAllowed settings runtime awifs_plan idle awifs
unfolding plan_source_aoi state validate source_state_by_id
awifs_plan-IsAllowed = record {
  known = refl;
  is_due = refl;
  enabled = λ e. cc;
  automatic = λ e. cc;
  live = refl;
  scoped = refl;
  unlocked = refl;
  approved = λ e. refl;
  roots_approved = refl;
  headroom = omega arith;
  valid = refl;
}

run_source_job-dispatched_example :
    ((run_source_job same_text no_text runtime service settings awifs_plan idle).0.status
      ≡ dispatched)
    ↔ (((source : SourceState) × IsAllowed settings runtime awifs_plan idle source)
        × IsServedJob same_text no_text runtime service awifs_plan idle
            (run_source_job same_text no_text runtime service settings awifs_plan idle))
run_source_job-dispatched_example =
    run_source_job-dispatched same_text no_text runtime service settings awifs_plan idle

-- The left side of it holds there.
awifs_dispatched :
    (run_source_job same_text no_text runtime service settings awifs_plan idle).0.status
    ≡ dispatched
awifs_dispatched =
    ap (λ r. r.0.status)
      (run_source_job-allowed same_text no_text runtime service settings awifs_plan idle awifs
        awifs_plan-IsAllowed)
    ∙ served-dispatched same_text no_text runtime service awifs_plan _
        (service (sync_request awifs_plan) 0) refl

plan_source_aoi-source_gate_example :
    (source_gate awifs (plan_source_aoi awifs area today none false false) ≡ none)
    ↔ (IsDue awifs area today none false × (awifs.schedule_state ≡ manual → false ≡ true))
unfolding state
plan_source_aoi-source_gate_example =
    plan_source_aoi-source_gate awifs area today none false false awifs-IsSafe refl
