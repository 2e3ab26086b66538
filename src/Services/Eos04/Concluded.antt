-- ===== src/Services/Eos04/Concluded.antt =====
-- A run of the EOS-04 service as a whole: its job is completed or failed, and no stage is left open.
use akasha_ingestion.Base.{
  ℕ, false, Option, none, some, List, [], ◌++◌, String, ◌≡◌, refl, sym, ap, ◌∙◌, arith, string_eq,
  any, beq_refl,
}
use akasha_ingestion.Base.Dict.{values, lookup, insert, lookup-insert}
use mathlib.Core.List.{append-nil}
use akasha_ingestion.Base.Text.{Text}
use akasha_ingestion.Providers.Contracts.{text_of, Result, ok, raised}
use akasha_ingestion.Jobs.Store.{
  completed, failed, running, Job, JobStore, get, mark_running, mark_completed, mark_failed,
  release,
}
use akasha_ingestion.Jobs.Stages.{JobStage, Stages}
use akasha_ingestion.Schemas.{Mode}
use akasha_ingestion.Services.Staged.{World, bind}
use akasha_ingestion.Services.Staged.Runs.{runs, Full, Cut, Ended, Ready, Ran, bind-Ran}
use akasha_ingestion.Services.Eos04.Records.{Settings, Operations, Summary, mode_limit}
use akasha_ingestion.Services.Eos04.Register.{require_dependencies}
use akasha_ingestion.Services.Eos04.Backfill.{
  is_completed, known_aoi, empty_summary, attempt, complete, conclude, execute_backfill,
}
use akasha_ingestion.Services.Eos04.Ending.{stages_of, run_stages-Ran}

release-jobs : (o : Option String) (job : Job) (s : JobStore) → (release o job s).jobs ≡ s.jobs
release-jobs none job s = refl
release-jobs (some owner) job s = ground arith

module _ (redact : Text → String) (job_id : String) where
  -- A run that returns has completed the stages of its mode, in order, and its job; a run that
  -- raises has closed each stage that it started, and its job has failed with that error.
  abbrev pub Verdict : Mode → Result Job → JobStore → List JobStage → Type 0
  Verdict mode (ok job) jobs sts =
      Full job_id (stages_of mode) sts × (get job_id jobs ≡ some job) × (job.status ≡ completed)
  Verdict mode (raised f) jobs sts =
      Cut job_id (stages_of mode) sts
      × ((job : Job) × (get job_id jobs ≡ some job)
          × (job.status ≡ failed)
          × (job.error ≡ some (redact (text_of f))))

  pub record Concluded {E : Type 0} (mode : Mode) (w : World E) (r : Result Job × World E)
      : Type 0 where
    pub added : Stages
    pub grown : r.1.stages ≡ w.stages ++ added
    pub idle : any (runs job_id) (values r.1.stages) ≡ false
    pub verdict : Verdict mode r.0 r.1.jobs (values added)

none-Ended : {A : Type 0} (job_id : String) (r : Result A) → Ended job_id [] r []
none-Ended job_id (ok a) = tt
none-Ended job_id (raised f) = tt

module _ {E A : Type 0} (uuid : ℕ → String) (job_id : String) where
  -- What changes no store.
  still-Ran :
      (r : Result A) (e : E) (w : World E)
      → Ready uuid job_id w
      → Ran uuid job_id w [] (r, record w { outside = e })
  still-Ran r e w ready = record {
    added = [];
    grown = sym (append-nil w.stages);
    jobs_kept = refl;
    ready = record { idle = ready.idle; unused = ready.unused };
    ended = none-Ended job_id r;
  }

module _ {E : Type 0} (ops : Operations E) (settings : Settings) (uuid : ℕ → String)
    (redact : Text → String) (now : ℕ) (distinct : (m n : ℕ) → uuid m ≡ uuid n → m ≡ n) where
  pub attempt-Ran :
      (job : Job) (mode : Mode) (limit route : String) (w : World E)
      → mode_limit mode ≡ some limit
      → Ready uuid job.job_id w
      → Ran uuid job.job_id w
          (stages_of mode)
          (attempt ops settings uuid redact now job mode route w)
  attempt-Ran job mode limit route w known r =
      let id = job.job_id in
      let names = stages_of mode in
      bind-Ran uuid id w [] names _ _
        (still-Ran uuid id (require_dependencies ops settings mode) w.outside w r)
        (λ met w0 r0.
          bind-Ran uuid id w0 [] names _ _
            (still-Ran uuid id (ops.aoi_get job.aoi_id w0.outside).0
              (ops.aoi_get job.aoi_id w0.outside).1 w0 r0)
            (λ there w1 r1.
              bind-Ran uuid id w1 [] names _ _
                (still-Ran uuid id (known_aoi ops settings uuid redact now job there) w1.outside w1
                  r1)
                (λ aoi w2 r2.
                  bind-Ran uuid id w2 [] names _ _
                    (still-Ran uuid id (ops.fromisoformat job.date_start) w2.outside w2 r2)
                    (λ date_start w3 r3.
                      bind-Ran uuid id w3 [] names _ _
                        (still-Ran uuid id (ops.fromisoformat job.date_end) w3.outside w3 r3)
                        (λ date_end w4 r4.
                          run_stages-Ran ops settings uuid redact now distinct job mode limit aoi
                            (empty_summary ops settings uuid redact now job mode route date_start
                              date_end)
                            w4 known r4)))))

  conclude-Concluded :
      (job : Job) (mode : Mode) (w v : World E) (r : Result Summary × World E)
      → Ran uuid job.job_id w (stages_of mode) r
      → w.stages ≡ v.stages
      → lookup job.job_id w.jobs.jobs ≡ some job
      → Concluded redact job.job_id mode v (
          conclude ops settings uuid redact now job
            (bind r (λ s. complete ops settings uuid redact now job s)))
  unfolding mark_completed mark_failed get
  conclude-Concluded job mode w v (ok s, u) ran same found =
      let there : lookup job.job_id u.jobs.jobs ≡ some job =
        ap (λ x. lookup job.job_id x.jobs) ran.jobs_kept ∙ found in
      rw there (record {
        added = ran.added;
        grown = ran.grown ∙ ap (λ x. x ++ ran.added) same;
        idle = ran.ready.idle;
        verdict = (
          ran.ended,
          lookup-insert job.job_id job.job_id _ u.jobs.jobs ∙ rw (beq_refl job.job_id) refl,
          refl,
        );
      })
  conclude-Concluded job mode w v (raised f, u) ran same found =
      let there : lookup job.job_id u.jobs.jobs ≡ some job =
        ap (λ x. lookup job.job_id x.jobs) ran.jobs_kept ∙ found in
      let lost : Job = record job {
        status = failed;
        error = some (redact (text_of f));
        updated_at = now;
      } in
      let jobs : JobStore = record u.jobs { jobs = insert job.job_id lost u.jobs.jobs } in
      let owner = lookup job.idempotency_key u.jobs.by_idempotency in
      rw there (record {
        added = ran.added;
        grown = ran.grown ∙ ap (λ x. x ++ ran.added) same;
        idle = ran.ready.idle;
        verdict = (
          ran.ended,
          (
            lost,
            ap (lookup job.job_id) (release-jobs owner lost jobs)
                ∙ lookup-insert job.job_id job.job_id lost u.jobs.jobs
                ∙ rw (beq_refl job.job_id) refl,
            refl,
            refl,
          ),
        );
      })

  -- A run of a job that is stored under its id and not yet completed, in a mode that the service
  -- knows, when no stage of the job runs and `uuid4()` gives new ids, leaves no stage of the job
  -- running. If it returns, the job is completed and the run has added exactly the stages that the
  -- mode reaches, in order, all completed. If it raises, the job has failed with the redacted error
  -- and the run has added the first of these stages, all completed but the last one, which may have
  -- failed.
  pub execute_backfill-Concluded :
      (job : Job) (mode : Mode) (limit route : String) (w : World E)
      → mode_limit mode ≡ some limit
      → get job.job_id w.jobs ≡ some job
      → is_completed job.status ≡ false
      → Ready uuid job.job_id w
      → Concluded redact job.job_id mode w
          (execute_backfill ops settings uuid redact now job.job_id mode route w)
  unfolding execute_backfill get mark_running
  execute_backfill-Concluded job mode limit route w known found unfinished r =
      let marked : Job = record job { status = running; updated_at = now } in
      let w1 : World E = record w {
        jobs = record w.jobs { jobs = insert job.job_id marked w.jobs.jobs };
      } in
      rw (known, found, unfinished, found)
        (conclude-Concluded marked mode w1 w
          (attempt ops settings uuid redact now marked mode route w1)
          (attempt-Ran marked mode limit route w1 known
            (record { idle = r.idle; unused = r.unused }))
          refl
          (lookup-insert job.job_id job.job_id marked w.jobs.jobs ∙ rw (beq_refl job.job_id) refl))
