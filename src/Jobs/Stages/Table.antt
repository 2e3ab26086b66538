-- ===== src/Jobs/Stages/Table.antt =====
-- `PostgresStageStore` over its table. A row is a `JobStage`; each statement is one transaction,
-- which the constraints of the table may reject. `CAST(... AS uuid)` is an argument, that gives the
-- id as the database spells it or fails; so is whether `processing_jobs` has a row of an id.
use akasha_ingestion.Base.{
  ℕ, ◌+◌, Bool, ◌&&◌, Option, none, some, String, if◌then◌else◌, ◌==◌, nat_eq, string_eq, any,
  filter, max_of,
}
use akasha_ingestion.Base.Dict.{Dict, values, lookup, insert}
use akasha_ingestion.Base.Json.{Value}
use akasha_ingestion.Jobs.Stages.Defs.{
  JobStage, StageRequest, Stages, is_stage, is_running_stage, is_running, new_stage, complete_stage,
  fail_stage,
}

-- `IntegrityError` of a constraint, `NoResultFound` of `.one()`, and the `DataError` of a cast.
pub data SqlError : Type 0 where
  unique_attempt unique_running foreign_key no_row invalid_uuid : SqlError

pub data SqlResult (A : Type 0) : Type 0 where
  ok : A → SqlResult A
  err : SqlError → SqlResult A

-- Another row that the constraint `uq_processing_job_stages_attempt` would hold against `row`.
abbrev pub same_attempt : JobStage → JobStage → Bool
same_attempt row other = is_stage row.job_id row.stage_name other && other.attempt == row.attempt

-- Likewise of the index `uq_processing_job_stages_running`, which covers running rows only.
abbrev pub both_running : JobStage → JobStage → Bool
both_running row other = is_running row.status && is_running_stage row.job_id row.stage_name other

-- `INSERT`: the unique constraints are checked as the row is written, in the order in which the table
-- declares them, and the reference to `processing_jobs` at the end of the statement.
abbrev pub insert_row : (String → Bool) → JobStage → Stages → SqlResult (JobStage × Stages)
insert_row has_job row s =
    if any (same_attempt row) (values s)
    then err unique_attempt
    else if any (both_running row) (values s)
    then err unique_running
    else if has_job row.job_id
    then ok (row, insert row.stage_id row s)
    else err foreign_key

-- `SELECT COALESCE(MAX(attempt), 0) + 1 ... WHERE job_id = ... AND stage_name = ...`
abbrev pub select_next_attempt : String → String → Stages → ℕ
select_next_attempt job_id stage_name s =
    max_of JobStage.attempt (filter (is_stage job_id stage_name) (values s)) + 1

-- The statement once the job id is cast.
abbrev pub start_cast :
    (String → Bool)
    → Option String
    → String
    → ℕ
    → StageRequest
    → Stages
    → SqlResult (JobStage × Stages)
start_cast has_job none uuid now r s = err invalid_uuid
start_cast has_job (some id) uuid now r s =
    insert_row has_job
      (new_stage uuid now (select_next_attempt id r.stage_name s) (record r { job_id = id })) s

unfoldable pub start_stage :
    (String → Option String)
    → (String → Bool)
    → String
    → ℕ
    → StageRequest
    → Stages
    → SqlResult (JobStage × Stages)
start_stage cast has_job uuid now r s = start_cast has_job (cast r.job_id) uuid now r s

-- `UPDATE ... WHERE id = ... RETURNING *`, to a status that no unique index covers.
abbrev pub update_row :
    Option JobStage → String → (JobStage → JobStage) → Stages → SqlResult (JobStage × Stages)
update_row none stage_id f s = err no_row
update_row (some row) stage_id f s = ok (f row, insert stage_id (f row) s)

abbrev pub update_cast :
    Option String → (JobStage → JobStage) → Stages → SqlResult (JobStage × Stages)
update_cast none f s = err invalid_uuid
update_cast (some id) f s = update_row (lookup id s) id f s

unfoldable pub mark_completed :
    (String → Option String)
    → String
    → ℕ
    → Option (Dict String Value)
    → Stages
    → SqlResult (JobStage × Stages)
mark_completed cast stage_id now metadata s =
    update_cast (cast stage_id) (complete_stage now metadata) s

unfoldable pub mark_failed :
    (String → Option String)
    → String
    → ℕ
    → String
    → String
    → Option (Dict String Value)
    → Stages
    → SqlResult (JobStage × Stages)
mark_failed cast stage_id now code message metadata s =
    update_cast (cast stage_id) (fail_stage now code message metadata) s
