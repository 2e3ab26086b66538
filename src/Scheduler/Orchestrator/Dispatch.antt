-- ===== src/Scheduler/Orchestrator/Dispatch.antt =====
-- The runs that do reach the service, and the plans that pass the gate.
use akasha_ingestion.Base.{
  ℕ, ◌≤◌, Bool, true, false, Option, none, some, ◌∷◌, ◌≡◌, ◌≢◌, arith, string_eq, ◌↔◌, refl, sym,
  ap, subst, ◌∙◌, inl, inr,
}
use akasha_ingestion.Base.Text.{Text}
use akasha_ingestion.Schemas.{SyncRequest, RequestError, accepted, validate}
use akasha_ingestion.Providers.Contracts.{Result, ok, raised}
use akasha_ingestion.Jobs.Store.{Job}
use akasha_ingestion.Scheduler.Registry.{SourceState, SourceAoiState, Settings, disabled, manual}
use akasha_ingestion.Scheduler.Registry.Exposure.{IsSafe}
use akasha_ingestion.Scheduler.Planner.{due, PlannedSourceRun, plan_source_aoi}
use akasha_ingestion.Scheduler.Planner.Decision.{IsDue}
use akasha_ingestion.Scheduler.Locks.{enter}
use akasha_ingestion.Scheduler.Orchestrator.Defs.{
  Runtime, Platform, in_scope, source_gate, require_approved_runtime, require_disk_headroom,
  sync_request, lock_name, finish_call, attempt_run, locked_run, run_source_job,
}
use akasha_ingestion.Scheduler.Orchestrator.Gates.{IsAllowed, leave-enter, run_source_job-IsQuiet}
use akasha_ingestion.Scheduler.Orchestrator.Results.{
  SchedulerRunResult, dispatched, dispatched_result, failed_result,
}

source_gate-open :
    (source : SourceState) (p : PlannedSourceRun)
    → p.decision ≡ due
    → source.lifecycle_state ≢ disabled
    → (source.lifecycle_state ≡ manual → p.dry_run ≡ true)
    → in_scope source p.aoi_id ≡ true
    → source_gate source p ≡ none
unfolding source_gate
source_gate-open source p a b c d = ground arith

require_approved_runtime-met :
    (rt : Runtime)
    → (rt.approved_runtime_required ≡ true → rt.approved_runtime ≡ true)
    → require_approved_runtime rt ≡ none
unfolding require_approved_runtime
require_approved_runtime-met rt h = ground arith

require_disk_headroom-met :
    (rt : Runtime)
    → rt.roots ≡ none
    → rt.required_headroom ≤ rt.free
    → require_disk_headroom rt ≡ none
unfolding require_disk_headroom
require_disk_headroom-met rt e h = ground arith

module _ {W : Type 0} (redact : Text → Text) (invalid_text : RequestError → Text) (rt : Runtime)
    (start_backfill : SyncRequest → W → Result Job × W) where
  locked_run-ready :
      (p : PlannedSourceRun) (w : W)
      → p.dry_run ≡ false
      → require_approved_runtime rt ≡ none
      → require_disk_headroom rt ≡ none
      → validate (sync_request p) ≡ accepted
      → locked_run redact invalid_text rt start_backfill p w
        ≡ finish_call redact invalid_text rt start_backfill p (start_backfill (sync_request p) w)
  unfolding attempt_run
  locked_run-ready p w live a b v = simp (live, a, b, v)

  pub run_source_job-allowed :
      (settings : Settings) (p : PlannedSourceRun) (s : Platform W) (source : SourceState)
      → IsAllowed settings rt p s source
      → let (result, w) =
          finish_call redact invalid_text rt start_backfill p
            (start_backfill (sync_request p) s.world) in
        run_source_job redact invalid_text rt start_backfill settings p s
        ≡ (result, record { world = w; held = s.held; emitted = result ∷ s.emitted })
  unfolding run_source_job enter
  run_source_job-allowed settings p s source c =
      let gate =
        source_gate-open source p c.is_due c.enabled (λ m. absurd (c.automatic m)) c.scoped in
      let run =
        locked_run-ready p s.world c.live (require_approved_runtime-met rt c.approved)
          (require_disk_headroom-met rt c.roots_approved c.headroom) c.valid in
      simp (c.known, gate, c.unlocked, run, leave-enter (lock_name p) s.held c.unlocked)

  -- The service returned a job: the result names it, and the world is the one it left.
  pub record IsServedJob (p : PlannedSourceRun) (s : Platform W)
      (r : SchedulerRunResult × Platform W) : Type 0 where
    pub job : Job
    pub returned : (start_backfill (sync_request p) s.world).0 ≡ ok job
    pub named : r.0.job_id ≡ some job.job_id
    pub left : r.1.world ≡ (start_backfill (sync_request p) s.world).1

  finish_call-dispatched :
      (p : PlannedSourceRun) (s : Platform W) (out : Result Job × W)
      → start_backfill (sync_request p) s.world ≡ out
      → let (result, w) = finish_call redact invalid_text rt start_backfill p out in
        result.status ≡ dispatched
        → IsServedJob p s
            (result, record { world = w; held = s.held; emitted = result ∷ s.emitted })
  unfolding dispatched_result failed_result
  finish_call-dispatched p s (ok job, w) e d = record {
    job = job;
    returned = ap (λ o. o.0) e;
    named = refl;
    left = sym (ap (λ o. o.1) e);
  }
  finish_call-dispatched p s (raised failure, w) e d = cc d

  pub served-dispatched :
      (p : PlannedSourceRun) (job : Job) (out : Result Job × W)
      → out.0 ≡ ok job
      → (finish_call redact invalid_text rt start_backfill p out).0.status ≡ dispatched
  unfolding dispatched_result
  served-dispatched p job (ok j, w) e = refl
  served-dispatched p job (raised failure, w) e = cc e

  -- A run is reported as dispatched exactly when every condition of a live run holds and the service
  -- was called and returned a job, which the result then names; the world is as the service left it.
  pub run_source_job-dispatched :
      (settings : Settings) (p : PlannedSourceRun) (s : Platform W)
      → let r = run_source_job redact invalid_text rt start_backfill settings p s in
        (r.0.status ≡ dispatched)
        ↔ (((source : SourceState) × IsAllowed settings rt p s source) × IsServedJob p s r)
  run_source_job-dispatched settings p s = (
    (λ d. elim (run_source_job-IsQuiet redact invalid_text rt start_backfill settings p s) [
      | inl quiet ↦ absurd (quiet.1 d)
      | inr (source, allowed) ↦
          let same = run_source_job-allowed settings p s source allowed in
          (
            (source, allowed),
            subst (IsServedJob p s) (sym same) (
                finish_call-dispatched p s (start_backfill (sync_request p) s.world) refl
                  (sym (ap (λ r. r.0.status) same) ∙ d)),
          )
    ]),
    (λ c.
        ap (λ r. r.0.status) (run_source_job-allowed settings p s c.0.0 c.0.1)
        ∙ served-dispatched p c.1.job (start_backfill (sync_request p) s.world) c.1.returned),
  )

-- A due plan that the planner makes for a safe source and one of its areas passes the gate of the
-- orchestrator, unless the source is manual and the run is live; no other plan passes.
pub plan_source_aoi-source_gate :
    (source : SourceState) (aoi : SourceAoiState) (now : ℕ) (last : Option ℕ)
    (include_manual dry_run : Bool)
    → IsSafe source
    → in_scope source aoi.aoi_id ≡ true
    → (source_gate source (plan_source_aoi source aoi now last include_manual dry_run) ≡ none) ↔ (
        IsDue source aoi now last include_manual
        × (source.schedule_state ≡ manual → dry_run ≡ true))
unfolding source_gate plan_source_aoi
plan_source_aoi-source_gate source aoi now none include_manual dry_run safe scope = ground arith
plan_source_aoi-source_gate source aoi now (some l) include_manual dry_run safe scope = ground arith
