-- ===== src/Jobs/Stages/Agreement.antt =====
-- The two stage stores give the same answers.
use akasha_ingestion.Base.{
  ℕ, suc, ◌≤◌, Bool, true, false, Option, none, some, Bool-cases, List, [], ◌∷◌, String, ◌≡◌, refl,
  inl, inr, arith, nat_eq, string_eq, any, filter, max_of, find, is_some, Option-cases,
}
use akasha_ingestion.Base.Dict.{Dict, values}
use akasha_ingestion.Base.Json.{Value}
use akasha_ingestion.Jobs.Stages.Defs.{
  JobStage, StageRequest, Stages, StageError, already_running, not_found, Result, is_stage,
  is_running_stage, new_stage, running_stage, next_attempt, start_stage, mark_completed,
  mark_failed,
}
use akasha_ingestion.Jobs.Stages.Table.{
  SqlError, unique_running, foreign_key, no_row, invalid_uuid, SqlResult, same_attempt,
  both_running, select_next_attempt, start_cast, update_cast, insert_row,
}
use akasha_ingestion.Jobs.Stages.Table

-- The database error that stands for the `ValueError` of the store in memory.
abbrev pub sql_error : StageError → SqlError
sql_error already_running = unique_running
sql_error not_found = no_row

abbrev pub to_sql : {A : Type 0} → Result A → SqlResult A
to_sql (Result.ok a) = SqlResult.ok a
to_sql (Result.err e) = SqlResult.err (sql_error e)

-- What the database makes of an answer of the memory store to a call for a job: it rejects a new stage
-- of a job that it does not have.
abbrev pub for_stored_job : {A : Type 0} → Bool → Result A → SqlResult A
for_stored_job true m = to_sql m
for_stored_job false (Result.ok a) = SqlResult.err foreign_key
for_stored_job false (Result.err e) = SqlResult.err (sql_error e)

-- And to a call with an id that has to be a UUID.
abbrev pub for_uuid : {A : Type 0} → Option String → (String → SqlResult A) → SqlResult A
for_uuid none answer = SqlResult.err invalid_uuid
for_uuid (some id) answer = answer id

-- A number above the largest attempt is taken by no row.
attempt_free :
    (row : JobStage) (xs : List JobStage)
    → suc (max_of JobStage.attempt (filter (is_stage row.job_id row.stage_name) xs)) ≤ row.attempt
    → any (same_attempt row) xs ≡ false
attempt_free row [] h = refl
attempt_free row (x ∷ xs) h = ground (arith, attempt_free row xs)

any-both_running :
    (uuid : String) (now attempt : ℕ) (r : StageRequest) (xs : List JobStage)
    → any (both_running (new_stage uuid now attempt r)) xs
      ≡ is_some (find (is_running_stage r.job_id r.stage_name) xs)
any-both_running uuid now attempt r [] = refl
any-both_running uuid now attempt r (x ∷ xs) =
    ground (arith, any-both_running uuid now attempt r xs)

insert_row_agrees :
    (has_job : String → Bool) (uuid : String) (now : ℕ) (r : StageRequest) (s : Stages)
    → insert_row has_job (new_stage uuid now (select_next_attempt r.job_id r.stage_name s) r) s
      ≡ for_stored_job (has_job r.job_id) (start_stage uuid now r s)
unfolding start_stage running_stage next_attempt
insert_row_agrees has_job uuid now r s =
    let attempt = select_next_attempt r.job_id r.stage_name s in
    rw (attempt_free (new_stage uuid now attempt r) (values s) (omega arith)) (
      rw (any-both_running uuid now attempt r (values s))
        (elim (Option-cases (find (is_running_stage r.job_id r.stage_name) (values s))) [
          | inl e ↦ elim (Bool-cases (has_job r.job_id)) [
            | inl there ↦ rw (e, there) refl
            | inr missing ↦ rw (e, missing) refl
          ]
          | inr (busy, e) ↦ elim (Bool-cases (has_job r.job_id)) [
            | inl there ↦ rw (e, there) refl
            | inr missing ↦ rw (e, missing) refl
          ]
        ]))

start_cast_agrees :
    (has_job : String → Bool) (o : Option String) (uuid : String) (now : ℕ) (r : StageRequest)
    (s : Stages)
    → start_cast has_job o uuid now r s
      ≡ for_uuid o
          (λ id. for_stored_job (has_job id) (start_stage uuid now (record r { job_id = id }) s))
start_cast_agrees has_job none uuid now r s = refl
start_cast_agrees has_job (some id) uuid now r s =
    insert_row_agrees has_job uuid now (record r { job_id = id }) s

-- From equal states, for a UUID of a job that the database has, `start_stage` of the table makes the
-- row that the memory store makes, and rejects exactly the calls that the memory store refuses: the
-- query for the attempt makes a clash of attempts impossible, and the index on running rows stands
-- for the explicit test. For a UUID of no job the database rejects also the calls that the memory
-- store accepts, and an id that is no UUID it rejects always.
pub start_stage_agrees :
    (cast : String → Option String) (has_job : String → Bool) (uuid : String) (now : ℕ)
    (r : StageRequest) (s : Stages)
    → Table.start_stage cast has_job uuid now r s
      ≡ for_uuid
          (cast r.job_id)
          (λ id. for_stored_job (has_job id) (start_stage uuid now (record r { job_id = id }) s))
unfolding Table.start_stage
start_stage_agrees cast has_job uuid now r s =
    start_cast_agrees has_job (cast r.job_id) uuid now r s

-- `mark_completed` and `mark_failed` agree too on a UUID, a missing stage included.
pub mark_completed_agrees :
    (cast : String → Option String) (id : String) (now : ℕ) (metadata : Option (Dict String Value))
    (s : Stages)
    → Table.mark_completed cast id now metadata s
      ≡ for_uuid (cast id) (λ i. to_sql (mark_completed i now metadata s))
unfolding mark_completed Table.mark_completed
mark_completed_agrees cast id now metadata s = ground arith

pub mark_failed_agrees :
    (cast : String → Option String) (id : String) (now : ℕ) (code message : String)
    (metadata : Option (Dict String Value)) (s : Stages)
    → Table.mark_failed cast id now code message metadata s
      ≡ for_uuid (cast id) (λ i. to_sql (mark_failed i now code message metadata s))
unfolding mark_failed Table.mark_failed
mark_failed_agrees cast id now code message metadata s = ground arith
