-- ===== src/Services/Staged.antt =====
-- `_StageContext` of the services for Bhoonidhi's products (src/akasha/services/eos04_ingestion.py,
-- nisar_ingestion.py, resourcesat_ingestion.py): a part of a run that stands between the start of a
-- stage and its end, over the stores in memory. `uuid4()` is a sequence of ids, of which the world
-- counts those that were taken; a run reads one moment from the clock.
pub mod Runs
pub mod Closing
pub mod Returning
use akasha_ingestion.Base.{ℕ, suc, none, some, string_eq, List, [], ◌∷◌, String}
use akasha_ingestion.Base.Dict.{Dict, update}
use akasha_ingestion.Base.Json.{Value}
use akasha_ingestion.Base.Text.{Text, codes}
use akasha_ingestion.Providers.Contracts.{Failure, other_error, text_of, Result, ok, raised}
use akasha_ingestion.Jobs.Stages.{
  JobStage, StageRequest, StageError, already_running, not_found, Stages, Result as Answer,
  ok as answered, err as refused, start_stage, mark_completed, mark_failed,
}
use akasha_ingestion.Jobs.Store.{JobStore}

-- The job store, the stage store, and what the repositories, the object store, the provider and the
-- file system hold.
pub record World (E : Type 0) : Type 0 where
  pub jobs : JobStore
  pub stages : Stages
  pub outside : E
  pub taken : ℕ

-- A call that may raise leaves its world as it stands then.
abbrev pub Step : Type 0 → Type 0 → Type 0
Step W A = W → Result A × W

module _ {W A B : Type 0} where
  -- A statement and what follows it: an exception skips the rest.
  abbrev pub bind : Result A × W → (A → Step W B) → Result B × W
  bind (ok a, w) k = k a w
  bind (raised f, w) k = (raised f, w)

module _ {W A : Type 0} where
  abbrev pub done : A → Step W A
  done a w = (ok a, w)

module _ {W A B : Type 0} where
  -- `[f(x) for x in xs]`, and a loop that appends to a list
  abbrev pub each : (A → Step W B) → List A → Step W (List B)
  each f [] w = (ok [], w)
  each f (x ∷ xs) w = bind (f x w) (λ y w1. bind (each f xs w1) (λ ys. done (y ∷ ys)))

-- `ValueError`s of the stage store
abbrev pub stage_failure : StageError → Failure
stage_failure already_running = other_error (codes "stage already running")
stage_failure not_found = other_error (codes "stage not found")

abbrev pub stage_request : String → String → Dict String Value → StageRequest
stage_request job_id name metadata = record {
  job_id = job_id;
  stage_name = name;
  lease_owner = none;
  lease_expires_at = none;
  metadata = some metadata;
}

module _ {E : Type 0} (uuid : ℕ → String) (redact : Text → String) (now : ℕ)
    (error_code : String) where
  module _ {A : Type 0} where
    abbrev pub after_close : Result A → World E → Answer (JobStage × Stages) → Result A × World E
    after_close r w (answered (st, s)) = (r, record w { stages = s })
    after_close r w (refused e) = (raised (stage_failure e), w)

    -- `__exit__`: the metadata of the stage are its first ones, updated by what the body wrote.
    abbrev pub close : JobStage → World E → Result (A × Dict String Value) × E → Result A × World E
    close st w (ok (a, written), e) =
        after_close (ok a) (record w { outside = e })
          (mark_completed st.stage_id now (some (update st.metadata written)) w.stages)
    close st w (raised f, e) =
        after_close (raised f) (record w { outside = e })
          (mark_failed st.stage_id now error_code (redact (text_of f)) (some st.metadata) w.stages)

    -- `__enter__`: a stage that cannot start raises, and nothing is closed.
    abbrev pub after_start :
        Step E (A × Dict String Value) → World E → Answer (JobStage × Stages) → Result A × World E
    after_start body w (answered (st, s)) =
        close st (record w { stages = s; taken = suc w.taken }) (body w.outside)
    after_start body w (refused e) = (raised (stage_failure e), w)

    -- `with self._stage(job, name, metadata) as stage: ...`
    unfoldable pub with_stage :
        String → String → Dict String Value → Step E (A × Dict String Value) → Step (World E) A
    with_stage job_id name metadata body w =
        after_start body w
          (start_stage (uuid w.taken) now (stage_request job_id name metadata) w.stages)
