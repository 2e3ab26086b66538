-- ===== src/Jobs/Stages/Tests.antt =====
-- Runs of the stage stores, and their theorems at concrete stores.
use akasha_ingestion.Base.{
  String, Bool, Option, some, ◌==◌, string_eq, ◌+◌, none, [], ◌∷◌, ◌≡◌, refl,
}
use akasha_ingestion.Base.Dict.{insert}
use akasha_ingestion.Jobs.Stages.Defs.{
  StageRequest, Stages, ok, err, already_running, new_stage, complete_stage, running_stage,
  next_attempt, start_stage, mark_completed, list_for_job,
}
use akasha_ingestion.Jobs.Stages.Invariant.{IsValid, attempts}
use akasha_ingestion.Jobs.Stages.Agreement.{for_uuid, for_stored_job, start_stage_agrees}
use akasha_ingestion.Jobs.Stages.Table
use akasha_ingestion.Jobs.Stages.Reach.{
  start, complete, exec, StageReach, empty, next, StageReach-IsValid, start_stage_attempt,
}

abbrev search : StageRequest
search = record {
  job_id = "j1";
  stage_name = "search";
  lease_owner = none;
  lease_expires_at = none;
  metadata = none;
}

abbrev first : Stages
first = ("s1", new_stage "s1" 5 1 search) ∷ []

abbrev ended : Stages
ended = ("s1", complete_stage 6 none (new_stage "s1" 5 1 search)) ∷ []

first-StageReach : StageReach first
unfolding exec start_stage next_attempt running_stage
first-StageReach = next (start "s1" 5 search) empty refl refl

ended-StageReach : StageReach ended
unfolding exec mark_completed
ended-StageReach = next (complete "s1" 6 none) first-StageReach tt refl

start_while_running : start_stage "s2" 7 search first ≡ err already_running
unfolding start_stage running_stage
start_while_running = refl

second_attempt :
    list_for_job "j1" (insert "s2" (new_stage "s2" 7 2 search) ended)
    ≡ complete_stage 6 none (new_stage "s1" 5 1 search) ∷ new_stage "s2" 7 2 search ∷ []
unfolding list_for_job
second_attempt = refl

StageReach-IsValid_example : IsValid ended
StageReach-IsValid_example = StageReach-IsValid ended-StageReach

start_stage_attempt_example : start_stage "s2" 7 search ended ≡ (
    let st = new_stage "s2" 7 (attempts "j1" "search" ended + 1) search in
    ok (st, insert "s2" st ended))
unfolding running_stage
start_stage_attempt_example = start_stage_attempt "s2" 7 search ended-StageReach refl

abbrev any_uuid : String → Option String
any_uuid id = some id

abbrev only_job : String → Bool
only_job id = id == search.job_id

start_stage_agrees_example :
    Table.start_stage any_uuid only_job "s2" 7 search first
    ≡ for_uuid (any_uuid search.job_id) (λ id.
      for_stored_job (only_job id) (start_stage "s2" 7 (record search { job_id = id }) first))
start_stage_agrees_example = start_stage_agrees any_uuid only_job "s2" 7 search first
