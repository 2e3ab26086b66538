-- ===== src/Services/Sentinel2/Recovery.antt =====
-- `recover_worker_lost`: the stages of a job whose worker died are closed, and the job is queued.
use akasha_ingestion.Base.{ℕ, Option, none, some, List, [], ◌∷◌, String, if◌then◌else◌}
use akasha_ingestion.Jobs.Stages.{
  JobStage, Stages, Result, ok, err, is_running, mark_failed, list_for_job,
}
use akasha_ingestion.Jobs.Store.{Job, JobStore}
use akasha_ingestion.Jobs.Store

abbrev pub stages_of : Result (JobStage × Stages) → Option Stages
stages_of (ok (st, s)) = some s
stages_of (err e) = none

abbrev pub bind {ℓ} : {A : Type ℓ} → Option A → (A → Option A) → Option A
bind none k = none
bind (some a) k = k a

abbrev pub fail_running : ℕ → JobStage → Stages → Option Stages
fail_running now st s =
    if is_running st.status
    then stages_of (
        mark_failed st.stage_id now "worker_lost"
          "Celery redelivered the task after its worker process exited." none s)
    else some s

-- The loop; `none` stands for the `ValueError` of a stage that is not found.
abbrev pub recover_stages : ℕ → List JobStage → Stages → Option Stages
recover_stages now [] s = some s
recover_stages now (st ∷ sts) s = bind (fail_running now st s) (λ t. recover_stages now sts t)

abbrev pub beside : Stages → Option (Job × JobStore) → Option (Stages × JobStore)
beside s none = none
beside s (some (job, store)) = some (s, store)

abbrev pub queue_after : Option Stages → String → ℕ → JobStore → Option (Stages × JobStore)
queue_after none job_id now store = none
queue_after (some s) job_id now store = beside s (Store.mark_queued job_id now store)

abbrev pub recover_found : Option Job → String → ℕ → Stages → JobStore → Option (Stages × JobStore)
recover_found none job_id now s store = none
recover_found (some job) job_id now s store =
    queue_after (recover_stages now (list_for_job job_id s) s) job_id now store

unfoldable pub recover_worker_lost : String → ℕ → Stages → JobStore → Option (Stages × JobStore)
recover_worker_lost job_id now s store = recover_found (Store.get job_id store) job_id now s store
