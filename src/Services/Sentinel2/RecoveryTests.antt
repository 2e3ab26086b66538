-- ===== src/Services/Sentinel2/RecoveryTests.antt =====
-- A recovery at concrete stores.
use akasha_ingestion.Base.{none, some, [], ◌∷◌, ◌≡◌, refl, string_eq, nat_eq}
use akasha_ingestion.Jobs.Stages.{
  StageRequest, Stages, new_stage, start_stage, running_stage, next_attempt,
}
use akasha_ingestion.Jobs.Stages.Reach.{start, exec, StageReach, empty, next}
use akasha_ingestion.Jobs.Store.{JobRequest, JobStore, new_job, register, empty_store, get}
use akasha_ingestion.Services.Sentinel2.Recovery.{recover_worker_lost}
use akasha_ingestion.Services.Sentinel2.NoneRunning.{IsRecovered, recover_worker_lost-IsRecovered}

abbrev search : StageRequest
search = record {
  job_id = "j1";
  stage_name = "search";
  lease_owner = none;
  lease_expires_at = none;
  metadata = none;
}

abbrev busy : Stages
busy = ("s1", new_stage "s1" 5 1 search) ∷ []

busy-StageReach : StageReach busy
unfolding exec start_stage next_attempt running_stage
busy-StageReach = next (start "s1" 5 search) empty refl refl

abbrev request : JobRequest
request = record {
  job_type = "sentinel2_backfill";
  idempotency_key = "k";
  source_id = "sentinel-2-l2a";
  aoi_id = "a";
  date_start = "2026-01-01";
  date_end = "2026-01-02";
}

abbrev one_job : JobStore
one_job = (register "j1" 5 request empty_store).1

one_job-get : get "j1" one_job ≡ some (new_job "j1" 5 request)
unfolding get
one_job-get = refl

recover_worker_lost-IsRecovered_example : IsRecovered "j1" (recover_worker_lost "j1" 9 busy one_job)
recover_worker_lost-IsRecovered_example =
    recover_worker_lost-IsRecovered "j1" 9 one_job (new_job "j1" 5 request) busy-StageReach
      one_job-get
