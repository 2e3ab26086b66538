-- ===== src/Scheduler/Orchestrator/Gates.antt =====
-- What has to hold before a run touches the world, and what every run leaves behind.
use akasha_ingestion.Base.{
  ◌≤◌, Bool, true, false, Option, none, some, [], ◌∷◌, String, ◌≡◌, ◌≢◌, refl, sym, subst, ◌∙◌, ◌⊎◌,
  inl, inr, arith, eq_iff, string_eq, Bool-cases,
}
use akasha_ingestion.Base.Dict.{lookup}
use akasha_ingestion.Base.Text.{Text}
use akasha_ingestion.Schemas.{
  SyncRequest, RequestError, Checked, accepted, rejected, validate, resourcesat_source_collections,
}
use akasha_ingestion.Schemas.Accepted.{validate-Fits}
use akasha_ingestion.Providers.Contracts.{Failure, Result}
use akasha_ingestion.Jobs.Store.{Job}
use akasha_ingestion.Scheduler.Registry.{
  SourceState, Settings, disabled, manual, source_state_by_id,
}
use akasha_ingestion.Scheduler.Planner.{due, PlannedSourceRun}
use akasha_ingestion.Scheduler.Locks.{Held, is_held, enter, leave}
use akasha_ingestion.Scheduler.Orchestrator.Results.{
  RunReason, SchedulerRunResult, dispatched, failed_result, blocked_result, dry_run_result,
}
use akasha_ingestion.Scheduler.Orchestrator.Defs.{
  Runtime, Platform, in_scope, source_gate, require_approved_runtime, require_disk_headroom,
  sync_request, lock_name, after_headroom, after_approval, attempt_run, locked_run, with_lock,
  run_gated, run_source, run_source_job,
}

-- The conditions under which a live run may call the service, read off none of the code's tests.
pub record IsAllowed {W : Type 0} (settings : Settings) (rt : Runtime) (p : PlannedSourceRun)
    (s : Platform W) (source : SourceState) : Type 0 where
  pub known : source_state_by_id settings p.source_id ≡ some source
  pub is_due : p.decision ≡ due
  pub enabled : source.lifecycle_state ≢ disabled
  pub automatic : source.lifecycle_state ≢ manual
  pub live : p.dry_run ≡ false
  pub scoped : in_scope source p.aoi_id ≡ true
  pub unlocked : is_held (lock_name p) s.held ≡ false
  pub approved : rt.approved_runtime_required ≡ true → rt.approved_runtime ≡ true
  pub roots_approved : rt.roots ≡ none
  pub headroom : rt.required_headroom ≤ rt.free
  pub valid : validate (sync_request p) ≡ accepted

leave-not_held : (name : String) (held : Held) → is_held name held ≡ false → leave name held ≡ held
unfolding leave
leave-not_held name [] free = refl
leave-not_held name (x ∷ held) free = ground (arith, leave-not_held name held)

pub leave-enter :
    (name : String) (held : Held) → is_held name held ≡ false → leave name (name ∷ held) ≡ held
unfolding leave
leave-enter name held free = ground (arith, eq_iff name name, leave-not_held name held free)

none-some {ℓ} : {A : Type ℓ} {a : A} → none ≡ some a → ⊥
none-some e = cc

source_gate-none :
    (source : SourceState) (p : PlannedSourceRun)
    → source_gate source p ≡ none
    → (p.decision ≡ due)
      × (source.lifecycle_state ≢ disabled)
      × ((source.lifecycle_state ≢ manual) ⊎ (p.dry_run ≡ true))
      × (in_scope source p.aoi_id ≡ true)
unfolding source_gate
source_gate-none source p h = ground arith

require_approved_runtime-none :
    (rt : Runtime)
    → require_approved_runtime rt ≡ none
    → rt.approved_runtime_required ≡ true
    → rt.approved_runtime ≡ true
unfolding require_approved_runtime
require_approved_runtime-none rt h q = ground arith

require_disk_headroom-none :
    (rt : Runtime)
    → require_disk_headroom rt ≡ none
    → (rt.roots ≡ none) × (rt.required_headroom ≤ rt.free)
unfolding require_disk_headroom
require_disk_headroom-none rt h = ground arith

-- The world is as before, and no job is reported as dispatched.
abbrev pub IsIdle : {W : Type 0} → W → SchedulerRunResult × W → Type 0
IsIdle w r = (r.1 ≡ w) × (r.0.status ≢ dispatched)

abbrev pub IsQuiet : {W : Type 0} → Platform W → SchedulerRunResult × Platform W → Type 0
IsQuiet s r = (r.1.world ≡ s.world) × (r.0.status ≢ dispatched)

module _ {W : Type 0} (redact : Text → Text) (invalid_text : RequestError → Text) (rt : Runtime)
    (start_backfill : SyncRequest → W → Result Job × W) where
  -- What the `try` block asks for.
  abbrev IsReady : PlannedSourceRun → Type 0
  IsReady p =
      (require_approved_runtime rt ≡ none)
      × (require_disk_headroom rt ≡ none)
      × (validate (sync_request p) ≡ accepted)

  after_headroom-world :
      (p : PlannedSourceRun) (o : Option Failure) (c : Checked) (w : W)
      → require_disk_headroom rt ≡ o
      → validate (sync_request p) ≡ c
      → IsIdle w (after_headroom redact invalid_text rt start_backfill p o w)
        ⊎ ((o ≡ none) × (c ≡ accepted))
  unfolding failed_result
  after_headroom-world p (some failure) c w e f = inl (refl, (λ d. cc d))
  after_headroom-world p none accepted w e f = inr (refl, refl)
  after_headroom-world p none (rejected x) w e f = inl (rw f (refl, (λ d. cc d)))

  -- The `try` block calls the service only when each requirement is met.
  after_approval-world :
      (p : PlannedSourceRun) (o : Option Failure) (w : W)
      → require_approved_runtime rt ≡ o
      → IsIdle w (after_approval redact invalid_text rt start_backfill p o w) ⊎ IsReady p
  unfolding failed_result
  after_approval-world p (some failure) w e = inl (refl, (λ d. cc d))
  after_approval-world p none w e =
      elim (after_headroom-world p (require_disk_headroom rt) (validate (sync_request p)) w refl
        refl) [ inl same ↦ inl same | inr ready ↦ inr (e, ready.0, ready.1) ]

  locked_run-world :
      (p : PlannedSourceRun) (w : W)
      → IsIdle w (locked_run redact invalid_text rt start_backfill p w)
        ⊎ ((p.dry_run ≡ false) × IsReady p)
  unfolding attempt_run dry_run_result
  locked_run-world p w = elim (Bool-cases p.dry_run) [
    | inl dry ↦ inl (rw dry (refl, (λ d. cc d)))
    | inr live ↦ elim (after_approval-world p (require_approved_runtime rt) w refl) [
      | inl same ↦
          let e : locked_run redact invalid_text rt start_backfill p w
              ≡ after_approval redact invalid_text rt start_backfill p (require_approved_runtime rt)
                  w =
            simp live in
          inl (subst (IsIdle w) (sym e) same)
      | inr ready ↦ inr (live, ready)
    ]
  ]

  with_lock-world :
      (p : PlannedSourceRun) (s : Platform W) (got : Bool × Held)
      → enter (lock_name p) s.held ≡ got
      → IsQuiet s (with_lock redact invalid_text rt start_backfill p got s)
        ⊎ ((got.0 ≡ true) × (p.dry_run ≡ false) × IsReady p)
  unfolding blocked_result
  with_lock-world p s (false, held) e = inl (refl, (λ d. cc d))
  with_lock-world p s (true, held) e = elim (locked_run-world p s.world) [
    | inl same ↦ inl same
    | inr (live, ready) ↦ inr (refl, live, ready)
  ]

  run_gated-world :
      (p : PlannedSourceRun) (o : Option RunReason) (s : Platform W)
      → IsQuiet s (run_gated redact invalid_text rt start_backfill p o s)
        ⊎ ((o ≡ none) × (is_held (lock_name p) s.held ≡ false) × (p.dry_run ≡ false) × IsReady p)
  unfolding enter blocked_result
  run_gated-world p (some reason) s = inl (refl, (λ d. cc d))
  run_gated-world p none s = elim (with_lock-world p s (enter (lock_name p) s.held) refl) [
    | inl same ↦ inl same
    | inr (got, live, ready) ↦ inr (refl, ground arith, live, ready)
  ]

  run_source-world :
      (settings : Settings) (p : PlannedSourceRun) (o : Option SourceState) (s : Platform W)
      → source_state_by_id settings p.source_id ≡ o
      → IsQuiet s (run_source redact invalid_text rt start_backfill p o s)
        ⊎ ((source : SourceState) × IsAllowed settings rt p s source)
  unfolding blocked_result
  run_source-world settings p none s e = inl (refl, (λ d. cc d))
  run_source-world settings p (some source) s e =
      elim (run_gated-world p (source_gate source p) s) [
        | inl same ↦ inl same
        | inr (open_gate, free, live, ready) ↦
            let gate = source_gate-none source p open_gate in
            let host = require_disk_headroom-none rt ready.1 in
            inr (
              source,
              record {
                known = e;
                is_due = gate.0;
                enabled = gate.1;
                automatic = ground (arith, gate.2);
                live = live;
                scoped = gate.3;
                unlocked = free;
                approved = require_approved_runtime-none rt ready.0;
                roots_approved = host.0;
                headroom = host.1;
                valid = ready.2;
              },
            )
      ]

  pub run_source_job-IsQuiet :
      (settings : Settings) (p : PlannedSourceRun) (s : Platform W)
      → IsQuiet s (run_source_job redact invalid_text rt start_backfill settings p s)
        ⊎ ((source : SourceState) × IsAllowed settings rt p s source)
  unfolding run_source_job
  run_source_job-IsQuiet settings p s =
      run_source-world settings p (source_state_by_id settings p.source_id) s refl

  -- A run changes nothing in the world of the service, unless every condition of a live run holds:
  -- a due plan of a known, enabled and not manual source, an area in its scope, a live run, a free
  -- lock, an approved runtime with approved roots and enough space, and a request that is accepted.
  pub run_source_job-guarded :
      (settings : Settings) (p : PlannedSourceRun) (s : Platform W)
      → ((run_source_job redact invalid_text rt start_backfill settings p s).1.world ≡ s.world)
        ⊎ ((source : SourceState) × IsAllowed settings rt p s source)
  unfolding run_source_job
  run_source_job-guarded settings p s = elim (run_source_job-IsQuiet settings p s) [
    | inl quiet ↦ inl quiet.0
    | inr allowed ↦ inr allowed
  ]

  with_lock-held :
      (p : PlannedSourceRun) (s : Platform W) (got : Bool × Held)
      → enter (lock_name p) s.held ≡ got
      → ((with_lock redact invalid_text rt start_backfill p got s).1.held ≡ s.held)
        × ((with_lock redact invalid_text rt start_backfill p got s).1.emitted
            ≡ (with_lock redact invalid_text rt start_backfill p got s).0 ∷ s.emitted)
  unfolding enter
  with_lock-held p s (false, held) e = (ground arith, refl)
  with_lock-held p s (true, held) e = (ground (arith, leave-enter (lock_name p) s.held), refl)

  run_source-held :
      (p : PlannedSourceRun) (o : Option SourceState) (s : Platform W)
      → let (result, t) = run_source redact invalid_text rt start_backfill p o s in
        (t.held ≡ s.held) × (t.emitted ≡ result ∷ s.emitted)
  run_source-held p none s = (refl, refl)
  run_source-held p (some source) s = gated (source_gate source p)
    where
      gated :
          (o : Option RunReason)
          → let (result, t) = run_gated redact invalid_text rt start_backfill p o s in
            (t.held ≡ s.held) × (t.emitted ≡ result ∷ s.emitted)
      gated (some reason) = (refl, refl)
      gated none = with_lock-held p s (enter (lock_name p) s.held) refl

  -- Every run, however it ends, leaves the locks as it found them and logs exactly its result.
  pub run_source_job-releases :
      (settings : Settings) (p : PlannedSourceRun) (s : Platform W)
      → let (result, t) = run_source_job redact invalid_text rt start_backfill settings p s in
        (t.held ≡ s.held) × (t.emitted ≡ result ∷ s.emitted)
  unfolding run_source_job
  run_source_job-releases settings p s =
      run_source-held p (source_state_by_id settings p.source_id) s

  -- A plan for a source that is no ResourceSat source never reaches the service, though the registry
  -- knows the source and the planner may call it due.
  pub run_source_job-resourcesat_only :
      (settings : Settings) (p : PlannedSourceRun) (s : Platform W)
      → lookup p.source_id resourcesat_source_collections ≡ none
      → (run_source_job redact invalid_text rt start_backfill settings p s).1.world ≡ s.world
  run_source_job-resourcesat_only settings p s other = elim (run_source_job-guarded settings p s) [
    | inl same ↦ same
    | inr (source, allowed) ↦
        let fits = (validate-Fits (sync_request p) allowed.valid).0 in
        absurd (none-some (sym other ∙ fits.1))
  ]
