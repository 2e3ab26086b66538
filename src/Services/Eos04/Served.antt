-- ===== src/Services/Eos04/Served.antt =====
-- A run of the EOS-04 service whose calls all return: it completes its job with all its stages.
use akasha_ingestion.Base.{some, ◌++◌, String, ◌≡◌, string_eq}
use akasha_ingestion.Base.Dict.{values}
use akasha_ingestion.Base.Text.{Text}
use akasha_ingestion.Providers.Contracts.{Result, ok, raised}
use akasha_ingestion.Jobs.Store.{completed, Job, get}
use akasha_ingestion.Jobs.Stages.{Stages}
use akasha_ingestion.Schemas.{Mode}
use akasha_ingestion.Services.Staged.{World}
use akasha_ingestion.Services.Staged.Runs.{Full}
use akasha_ingestion.Services.Eos04.Ending.{stages_of}
use akasha_ingestion.Services.Eos04.Works.{Works}
use akasha_ingestion.Services.Eos04.Concluded.{Concluded}

abbrev pub code : String
code = "eos04_stage_failed"

-- The run returned a completed job, which the store holds, and added exactly the stages that the
-- mode reaches, in order, all completed.
abbrev pub IsServed : {E : Type 0} → String → Mode → World E → Result Job × World E → Type 0
IsServed job_id mode w (raised f, v) = ⊥
IsServed job_id mode w (ok job, v) =
    (get job_id v.jobs ≡ some job)
    × (job.status ≡ completed)
    × ((added : Stages) × (v.stages ≡ w.stages ++ added)
        × Full job_id (stages_of mode) (values added))
