-- ===== src/Services/Eos04/Lost.antt =====
-- A dispatch that fails: what becomes of the job, by the way in which it was handed over.
use akasha_ingestion.Base.{
  ℕ, true, false, Option, none, some, String, ◌≡◌, refl, string_eq, beq_refl,
}
use akasha_ingestion.Base.Dict.{Dict, lookup, lookup-insert}
use akasha_ingestion.Base.Text.{Text}
use akasha_ingestion.Providers.Contracts.{Failure, ok, raised}
use akasha_ingestion.Jobs.Store.{queued, Job, create_or_get, register, new_job}
use akasha_ingestion.Schemas.{Mode, SyncRequest}
use akasha_ingestion.Services.Staged.{World, Step}
use akasha_ingestion.Services.Eos04.Records.{Settings, Operations}
use akasha_ingestion.Services.Eos04.Start.{
  is_eos04, route_or_default, key, job_request, start_backfill,
}

module _ {E : Type 0} (ops : Operations E) (settings : Settings) (uuid : ℕ → String)
    (redact : Text → String) (now : ℕ) (digest : Dict String String → String)
    (send_task : String → Mode → String → Step E Unit) (message : Failure → String)
    (job_uuid : String) (r : SyncRequest) (w : World E) where
  abbrev pub made : Option (String → Mode → String → Step E Unit) → Job
  made d = new_job job_uuid now (job_request ops settings uuid redact now digest d send_task r)

  -- A request for which a new job is made and whose `task_dispatcher` raises leaves the job queued
  -- under its key: the same request, sent again, returns that job and hands nothing over.
  pub start_backfill_lost :
      (dispatch : String → Mode → String → Step E Unit) (f : Failure) (e : E) (later : String)
      → is_eos04 r.job_type ≡ true
      → settings.task_always_eager ≡ false
      → lookup
          (key ops settings uuid redact now digest (some dispatch) send_task r)
          w.jobs.by_idempotency
        ≡ none
      → dispatch job_uuid r.mode (route_or_default r.provider_route) w.outside ≡ (raised f, e)
      → (v : World E) × (start_backfill ops settings uuid redact now digest
            (some dispatch)
            send_task
            message
            job_uuid
            r
            w
          ≡ (raised f, v))
        × ((made (some dispatch)).status ≡ queued)
        × (start_backfill ops settings uuid redact now digest
              (some dispatch)
              send_task
              message
              later
              r
              v
            ≡ (ok (made (some dispatch)), v))
  unfolding start_backfill create_or_get
  start_backfill_lost dispatch f e later ours handed free fails =
      let id = key ops settings uuid redact now digest (some dispatch) send_task r in
      let request = job_request ops settings uuid redact now digest (some dispatch) send_task r in
      let job = made (some dispatch) in
      let v : World E = record w { jobs = (register job_uuid now request w.jobs).1; outside = e } in
      (
        v,
        rw (ours, free, handed, fails) refl,
        refl,
        rw
            (
              ours,
              lookup-insert id id job_uuid w.jobs.by_idempotency,
              beq_refl id,
              lookup-insert job_uuid job_uuid job w.jobs.jobs,
              beq_refl job_uuid,
            )
            refl,
      )
