-- ===== src/Jobs/Store/Tests.antt =====
-- Runs of the job store, and its theorems at concrete stores.
use akasha_ingestion.Base.{false, none, some, [], ◌∷◌, ◌≡◌, refl, arith, eq_iff, string_eq}
use akasha_ingestion.Base.Dict.{lookup}
use akasha_ingestion.Jobs.Store.Defs.{
  Job, JobRequest, JobStore, running, failed, empty_store, new_job, register, create_or_get, get,
  list_jobs, mark_running, mark_queued, mark_failed,
}
use akasha_ingestion.Jobs.Store.Invariant.{Serves, IsValid}
use akasha_ingestion.Jobs.Store.Reach.{submit, run, Reach, start, next, Reach-IsValid}
use akasha_ingestion.Jobs.Store.Sharing.{Run, here, after, create_or_get_once, requeue_duplicates}

abbrev request : JobRequest
request = record {
  job_type = "sentinel2_backfill";
  idempotency_key = "k";
  source_id = "sentinel-2-l2a";
  aoi_id = "a";
  date_start = "2026-01-01";
  date_end = "2026-01-02";
}

abbrev one_job : JobStore
one_job = (register "j1" 5 request empty_store).1

abbrev running_job : JobStore
running_job = record one_job {
  jobs = ("j1", record (new_job "j1" 5 request) { status = running; updated_at = 6 }) ∷ [];
}

abbrev failed_job : Job
failed_job = record (new_job "j1" 5 request) {
  status = failed;
  error = some "boom";
  updated_at = 7;
}

abbrev after_failure : JobStore
after_failure = record { jobs = ("j1", failed_job) ∷ []; by_idempotency = [] }

one_job-Reach : Reach one_job
unfolding create_or_get
one_job-Reach = next start (submit "j1" 5 request refl refl)

one_job-running :
    mark_running "j1" 6 one_job
    ≡ some (record (new_job "j1" 5 request) { status = running; updated_at = 6 }, running_job)
unfolding mark_running
one_job-running = refl

one_job-failing : mark_failed "j1" 7 "boom" one_job ≡ some (failed_job, after_failure)
unfolding mark_failed
one_job-failing = refl

list_jobs_run : list_jobs one_job ≡ new_job "j1" 5 request ∷ []
unfolding list_jobs
list_jobs_run = refl

get_run : get "j2" one_job ≡ none
unfolding get
get_run = refl

Reach-IsValid_example : IsValid one_job
Reach-IsValid_example = Reach-IsValid one_job-Reach

running_job-Run : Run "j1" one_job running_job
running_job-Run = after here (run "j1" 6 one_job-running) (λ e. cc)

create_or_get_once_example :
    (job : Job) × (lookup "j1" running_job.jobs ≡ some job)
    × (create_or_get "j2" 8 request running_job ≡ some ((job, false), running_job))
create_or_get_once_example =
    create_or_get_once "j1" "j2" 8 request (Reach-IsValid one_job-Reach) refl running_job-Run

requeue_duplicates_example :
    let u = (register "j2" 7 request after_failure).1 in
    (job' : Job) × (w : JobStore) × (create_or_get "j2" 7 request after_failure
      ≡ some (register "j2" 7 request after_failure))
    × (mark_queued "j1" 7 u ≡ some (job', w))
    × Serves "k" (lookup "j1" w.jobs)
    × Serves "k" (lookup "j2" w.jobs)
requeue_duplicates_example =
    requeue_duplicates "j1" "j2" "boom" 7 request one_job (Reach-IsValid one_job-Reach) refl
      one_job-failing (ground (arith, eq_iff "j2" "j1"))
