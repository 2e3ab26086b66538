-- ===== src/Jobs/Stages/Defs.antt =====
-- `StageStatus`, `JobStage` and the methods of `InMemoryStageStore`.
use akasha_ingestion.Base.{
  ℕ, ◌+◌, Bool, true, false, ◌&&◌, ◌||◌, Option, none, some, List, [], String, leb, ◌==◌, string_eq,
  filter, find, max_of, text_lt,
}
use akasha_ingestion.Base.Dict.{Dict, values, lookup, insert, update}
use akasha_ingestion.Base.Json.{Value}
use akasha_ingestion.Base.Sort.{sort_by}

pub data StageStatus : Type 0 where
  pending running completed failed skipped retrying cancelled : StageStatus

abbrev pub is_running : StageStatus → Bool
is_running running = true
is_running _ = false

pub record JobStage : Type 0 where
  pub stage_id : String
  pub job_id : String
  pub stage_name : String
  pub attempt : ℕ
  pub status : StageStatus
  pub error_code : Option String
  pub error_message : Option String
  pub lease_owner : Option String
  pub lease_expires_at : Option ℕ
  pub metadata : Dict String Value
  pub started_at : Option ℕ
  pub completed_at : Option ℕ
  pub created_at : ℕ
  pub updated_at : ℕ

-- The keyword arguments of `start_stage`.
pub record StageRequest : Type 0 where
  pub job_id : String
  pub stage_name : String
  pub lease_owner : Option String
  pub lease_expires_at : Option ℕ
  pub metadata : Option (Dict String Value)

pub data StageError : Type 0 where
  already_running not_found : StageError

pub data Result (A : Type 0) : Type 0 where
  ok : A → Result A
  err : StageError → Result A

-- `metadata or {}`
abbrev pub or_empty : Option (Dict String Value) → Dict String Value
or_empty none = []
or_empty (some m) = m

-- `self._stages`, by stage id.
abbrev pub Stages : Type 0
Stages = Dict String JobStage

abbrev pub is_stage : String → String → JobStage → Bool
is_stage job_id stage_name st = st.job_id == job_id && st.stage_name == stage_name

abbrev pub is_running_stage : String → String → JobStage → Bool
is_running_stage job_id stage_name st = is_stage job_id stage_name st && is_running st.status

unfoldable pub running_stage : String → String → Stages → Option JobStage
running_stage job_id stage_name s = find (is_running_stage job_id stage_name) (values s)

unfoldable pub next_attempt : String → String → Stages → ℕ
next_attempt job_id stage_name s =
    max_of JobStage.attempt (filter (is_stage job_id stage_name) (values s)) + 1

abbrev pub new_stage : String → ℕ → ℕ → StageRequest → JobStage
new_stage uuid now attempt r = record {
  stage_id = uuid;
  job_id = r.job_id;
  stage_name = r.stage_name;
  attempt = attempt;
  status = running;
  error_code = none;
  error_message = none;
  lease_owner = r.lease_owner;
  lease_expires_at = r.lease_expires_at;
  metadata = or_empty r.metadata;
  started_at = some now;
  completed_at = none;
  created_at = now;
  updated_at = now;
}

abbrev pub start_unless :
    Option JobStage → String → ℕ → StageRequest → Stages → Result (JobStage × Stages)
start_unless (some busy) uuid now r s = err already_running
start_unless none uuid now r s =
    let stage = new_stage uuid now (next_attempt r.job_id r.stage_name s) r in
    ok (stage, insert uuid stage s)

unfoldable pub start_stage : String → ℕ → StageRequest → Stages → Result (JobStage × Stages)
start_stage uuid now r s = start_unless (running_stage r.job_id r.stage_name s) uuid now r s

-- The write to the object that `_get_required` finds.
abbrev pub write_found :
    Option JobStage → String → (JobStage → JobStage) → Stages → Result (JobStage × Stages)
write_found none stage_id f s = err not_found
write_found (some st) stage_id f s = ok (f st, insert stage_id (f st) s)

abbrev pub complete_stage : ℕ → Option (Dict String Value) → JobStage → JobStage
complete_stage now metadata st = record st {
  status = completed;
  completed_at = some now;
  updated_at = now;
  metadata = update st.metadata (or_empty metadata);
}

abbrev pub fail_stage : ℕ → String → String → Option (Dict String Value) → JobStage → JobStage
fail_stage now code message metadata st = record st {
  status = failed;
  error_code = some code;
  error_message = some message;
  completed_at = some now;
  updated_at = now;
  metadata = update st.metadata (or_empty metadata);
}

unfoldable pub mark_completed :
    String → ℕ → Option (Dict String Value) → Stages → Result (JobStage × Stages)
mark_completed stage_id now metadata s =
    write_found (lookup stage_id s) stage_id (complete_stage now metadata) s

unfoldable pub mark_failed :
    String → ℕ → String → String → Option (Dict String Value) → Stages → Result (JobStage × Stages)
mark_failed stage_id now code message metadata s =
    write_found (lookup stage_id s) stage_id (fail_stage now code message metadata) s

unfoldable pub list_for_job : String → Stages → List JobStage
unfolding text_lt
list_for_job job_id s =
    sort_by
      (λ a b.
        text_lt a.stage_name b.stage_name
        || (a.stage_name == b.stage_name && leb a.attempt b.attempt))
      (filter (λ st. st.job_id == job_id) (values s))
