-- ===== src/Services/Staged/Closing.antt =====
-- One stage of a run: it starts, its body works on the world outside, and it is closed.
use akasha_ingestion.Base.{
  ℕ, suc, false, none, some, List, [], ◌∷◌, ◌++◌, String, ◌≡◌, inr, refl, ap, ◌∙◌, arith, string_eq,
  any,
}
use akasha_ingestion.Base.Dict.{Dict, values, update}
use akasha_ingestion.Base.Dict.Growth.{
  any-append, find-any, values-append, insert_new, insert_last, lookup_last, lookup_other,
}
use akasha_ingestion.Base.Json.{Value}
use akasha_ingestion.Base.Text.{Text}
use akasha_ingestion.Providers.Contracts.{Failure, text_of, Result, ok, raised}
use akasha_ingestion.Jobs.Stages.{
  JobStage, is_running, is_running_stage, running_stage, next_attempt, new_stage, start_stage,
  mark_completed, mark_failed, complete_stage, fail_stage,
}
use akasha_ingestion.Services.Staged.{World, Step, stage_request, with_stage, bind}
use akasha_ingestion.Services.Staged.Runs.{runs, Ready, Ran, bind-Ran}

module _ {E : Type 0} (uuid : ℕ → String) (redact : Text → String) (now : ℕ) (error_code : String)
    (distinct : (m n : ℕ) → uuid m ≡ uuid n → m ≡ n) (job_id name : String)
    (metadata : Dict String Value) where
  -- The stage as it is started.
  abbrev pub fresh : World E → JobStage
  fresh w =
      new_stage (uuid w.taken) now (next_attempt job_id name w.stages)
        (stage_request job_id name metadata)

  -- The world after a body that left the outside as `e`, with the closed stage.
  abbrev pub after : World E → E → JobStage → World E
  after w e st = record w {
    stages = w.stages ++ ((uuid w.taken, st) ∷ []);
    outside = e;
    taken = suc w.taken;
  }

  pub after-Ready :
      (w : World E) (e : E) (st : JobStage)
      → Ready uuid job_id w
      → is_running st.status ≡ false
      → Ready uuid job_id (after w e st)
  after-Ready w e st r stopped = record {
    idle =
        ap (any (runs job_id)) (values-append w.stages ((uuid w.taken, st) ∷ []))
        ∙ any-append (runs job_id) (values w.stages) (st ∷ [])
        ∙ ground (arith, r.idle);
    unused = λ n le.
        lookup_other (uuid w.taken) (uuid n) st w.stages (r.unused n (omega arith))
          (λ same. let e = distinct w.taken n same in omega arith);
  }

  not_running : (w : World E) → Ready uuid job_id w → running_stage job_id name w.stages ≡ none
  unfolding running_stage
  not_running w r =
      find-any (is_running_stage job_id name) (runs job_id) (values w.stages)
        (λ st idle. ground arith) r.idle

  module _ {A : Type 0} where
    -- What a stage comes to when its body returns.
    pub stage_completes :
        (body : Step E (A × Dict String Value)) (w : World E) (a : A) (written : Dict String Value)
        (e : E)
        → Ready uuid job_id w
        → body w.outside ≡ (ok (a, written), e)
        → with_stage uuid redact now error_code job_id name metadata body w
          ≡ (ok a, after w e (complete_stage now (some (update metadata written)) (fresh w)))
    unfolding with_stage start_stage mark_completed
    stage_completes body w a written e r returns =
        let free = r.unused w.taken (omega arith) in
        rw
          (
            not_running w r,
            insert_new (uuid w.taken) (fresh w) w.stages free,
            returns,
            lookup_last (uuid w.taken) (fresh w) w.stages free,
            insert_last (uuid w.taken)
                (complete_stage now (some (update metadata written)) (fresh w)) (fresh w) w.stages
                free,
          )
          refl

    -- What a stage comes to when its body raises.
    stage_fails :
        (body : Step E (A × Dict String Value)) (w : World E) (f : Failure) (e : E)
        → Ready uuid job_id w
        → body w.outside ≡ (raised f, e)
        → with_stage uuid redact now error_code job_id name metadata body w ≡ (
          raised f,
          after w e
              (fail_stage now error_code (redact (text_of f)) (some (fresh w).metadata) (fresh w)),
        )
    unfolding with_stage start_stage mark_failed
    stage_fails body w f e r raises =
        let free = r.unused w.taken (omega arith) in
        rw
          (
            not_running w r,
            insert_new (uuid w.taken) (fresh w) w.stages free,
            raises,
            lookup_last (uuid w.taken) (fresh w) w.stages free,
            insert_last (uuid w.taken)
                (fail_stage now error_code (redact (text_of f)) (some (fresh w).metadata) (fresh w))
                (fresh w) w.stages free,
          )
          refl

    ends-Ran :
        (body : Step E (A × Dict String Value)) (w : World E)
        (o : Result (A × Dict String Value) × E)
        → Ready uuid job_id w
        → body w.outside ≡ o
        → Ran uuid job_id w
            (name ∷ [])
            (with_stage uuid redact now error_code job_id name metadata body w)
    ends-Ran body w (ok (a, written), e) r same =
        let st = complete_stage now (some (update metadata written)) (fresh w) in
        rw (stage_completes body w a written e r same) (record {
          added = (uuid w.taken, st) ∷ [];
          grown = refl;
          jobs_kept = refl;
          ready = after-Ready w e st r refl;
          ended = ((refl, refl, refl), tt);
        })
    ends-Ran body w (raised f, e) r same =
        let st =
          fail_stage now error_code (redact (text_of f)) (some (fresh w).metadata) (fresh w) in
        rw (stage_fails body w f e r same) (record {
          added = (uuid w.taken, st) ∷ [];
          grown = refl;
          jobs_kept = refl;
          ready = after-Ready w e st r refl;
          ended = inr ((refl, refl, refl), refl);
        })

    -- A stage of a job of which none runs is started and closed.
    pub with_stage-Ran :
        (body : Step E (A × Dict String Value)) (w : World E)
        → Ready uuid job_id w
        → Ran uuid job_id w
            (name ∷ [])
            (with_stage uuid redact now error_code job_id name metadata body w)
    with_stage-Ran body w r = ends-Ran body w (body w.outside) r refl

  module _ {A B : Type 0} where
    -- A stage, and what follows it.
    pub stage-Ran :
        (body : Step E (A × Dict String Value)) (more : List String) (w : World E)
        (k : A → Step (World E) B)
        → Ready uuid job_id w
        → ((a : A) (v : World E) → Ready uuid job_id v → Ran uuid job_id v more (k a v))
        → Ran uuid job_id w
            (name ∷ more)
            (bind (with_stage uuid redact now error_code job_id name metadata body w) k)
    stage-Ran body more w k r next =
        bind-Ran uuid job_id w (name ∷ []) more
          (with_stage uuid redact now error_code job_id name metadata body w) k
          (with_stage-Ran body w r) next
