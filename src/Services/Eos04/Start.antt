-- ===== src/Services/Eos04/Start.antt =====
-- `start_backfill` of the EOS-04 service: a job for a request, run at once or handed to a worker.
use akasha_ingestion.Base.{ℕ, Bool, true, false, Option, none, some, String, if◌then◌else◌}
use akasha_ingestion.Base.Dict.{Dict}
use akasha_ingestion.Base.Text.{Text}
use akasha_ingestion.Providers.Contracts.{Failure, Result, ok, raised}
use akasha_ingestion.Jobs.Store.{Job, JobRequest, JobStore, create_or_get, mark_failed}
use akasha_ingestion.Jobs.Keys.{compute_eos04_backfill_idempotency_key}
use akasha_ingestion.Schemas.{Mode, JobType, eos04_backfill, SyncRequest}
use akasha_ingestion.Services.Staged.{World, Step, bind}
use akasha_ingestion.Services.Eos04.Records.{Settings, Operations, mode_text}
use akasha_ingestion.Services.Eos04.Parts.{provider_route, processing_profile_version, error}
use akasha_ingestion.Services.Eos04.Backfill.{outside_only, lost_job, execute_backfill}

abbrev pub is_eos04 : JobType → Bool
is_eos04 eos04_backfill = true
is_eos04 _ = false

-- `request.provider_route or EOS04_PROVIDER_ROUTE`
abbrev pub route_or_default : Option String → String
route_or_default none = provider_route
route_or_default (some route) = route

module _ {E : Type 0} (ops : Operations E) (settings : Settings) (uuid : ℕ → String)
    (redact : Text → String) (now : ℕ) (digest : Dict String String → String)
    (task_dispatcher : Option (String → Mode → String → Step E Unit))
    (send_task : String → Mode → String → Step E Unit) where
  abbrev pub key : SyncRequest → String
  key r =
      compute_eos04_backfill_idempotency_key digest r.source_id (route_or_default r.provider_route)
        r.aoi_id (ops.isoformat r.date_start) (ops.isoformat r.date_end) (mode_text r.mode)
        settings.request_params_version processing_profile_version

  abbrev pub job_request : SyncRequest → JobRequest
  job_request r = record {
    job_type = "eos04_backfill";
    idempotency_key = key r;
    source_id = r.source_id;
    aoi_id = r.aoi_id;
    date_start = ops.isoformat r.date_start;
    date_end = ops.isoformat r.date_end;
  }

  -- `mark_failed(job, error=f"task dispatch failed: {exc}")`, and `raise`
  abbrev pub undone : Failure → World E → Option (Job × JobStore) → Result Job × World E
  undone f w none = (raised (lost_job ops settings uuid redact now), w)
  undone f w (some (job, jobs)) = (raised f, record w { jobs = jobs })

  abbrev pub after_send :
      (Failure → String) → Job → Result {0} Unit × World E → Result Job × World E
  after_send message job (ok sent, w) = (ok job, w)
  after_send message job (raised f, w) = undone f w (mark_failed job.job_id now (message f) w.jobs)

  abbrev pub hand_over :
      (Failure → String)
      → Option (String → Mode → String → Step E Unit)
      → Job
      → Mode
      → String
      → Step (World E) Job
  hand_over message (some dispatch) job mode route w =
      bind (outside_only ops settings uuid redact now (dispatch job.job_id mode route) w)
        (λ sent v. (ok job, v))
  hand_over message none job mode route w =
      after_send message job
        (outside_only ops settings uuid redact now (send_task job.job_id mode route) w)

  abbrev pub start_created : (Failure → String) → SyncRequest → Job → Step (World E) Job
  start_created message r job w =
      let route = route_or_default r.provider_route in
      if settings.task_always_eager
      then execute_backfill ops settings uuid redact now job.job_id r.mode route w
      else hand_over message task_dispatcher job r.mode route w

  abbrev pub after_create :
      (Failure → String)
      → SyncRequest
      → World E
      → Option ((Job × Bool) × JobStore)
      → Result Job × World E
  after_create message r w none = (raised (lost_job ops settings uuid redact now), w)
  after_create message r w (some ((job, created), jobs)) =
      if created
      then start_created message r job (record w { jobs = jobs })
      else (ok job, record w { jobs = jobs })

  -- `message` is the text that the job gets when the broker fails.
  unfoldable pub start_backfill : (Failure → String) → String → SyncRequest → Step (World E) Job
  start_backfill message job_uuid r w =
      if is_eos04 r.job_type
      then after_create message r w (create_or_get job_uuid now (job_request r) w.jobs)
      else (error "Eos04IngestionService only handles eos04_backfill", w)
