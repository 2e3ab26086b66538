-- ===== src/Jobs/Stages/Reach.antt =====
-- The calls of the stage store, and the stores that they can reach.
use akasha_ingestion.Base.{ℕ, ◌+◌, Option, none, some, [], String, ◌≡◌, refl, nat_eq, string_eq}
use akasha_ingestion.Base.Dict.{Dict, lookup, insert}
use akasha_ingestion.Base.Json.{Value}
use akasha_ingestion.Jobs.Stages.Defs.{
  JobStage, StageRequest, Stages, Result, ok, err, new_stage, running_stage, next_attempt,
  start_stage, start_unless, write_found, complete_stage, fail_stage, mark_completed, mark_failed,
}
use akasha_ingestion.Jobs.Stages.Invariant.{attempts, IsValid, started-IsValid}
use akasha_ingestion.Jobs.Stages.Ending.{Ends, ended-IsValid}

-- What holds of the new stages where a call returns.
abbrev pub Keeps : (Stages → Type 0) → Result (JobStage × Stages) → Type 0
Keeps P (ok (st, t)) = P t
Keeps P (err e) = Unit

write_found-IsValid :
    (f : JobStage → JobStage) (ends : Ends f) (id : String) (s : Stages) (o : Option JobStage)
    → lookup id s ≡ o
    → IsValid s
    → Keeps IsValid (write_found o id f s)
write_found-IsValid f ends id s none e v = tt
write_found-IsValid f ends id s (some old) e v = ended-IsValid f ends id old s e v

start_unless-IsValid :
    (uuid : String) (now : ℕ) (r : StageRequest) (s : Stages) (o : Option JobStage)
    → running_stage r.job_id r.stage_name s ≡ o
    → IsValid s
    → lookup uuid s ≡ none
    → Keeps IsValid (start_unless o uuid now r s)
unfolding running_stage next_attempt
start_unless-IsValid uuid now r s none e v fresh = started-IsValid uuid now r s v fresh e
start_unless-IsValid uuid now r s (some busy) e v fresh = tt

-- One call of the store.
pub data Call : Type 0 where
  start : String → ℕ → StageRequest → Call
  complete : String → ℕ → Option (Dict String Value) → Call
  fail : String → ℕ → String → String → Option (Dict String Value) → Call

unfoldable pub exec : Call → Stages → Result (JobStage × Stages)
exec (start uuid now r) s = start_stage uuid now r s
exec (complete id now metadata) s = mark_completed id now metadata s
exec (fail id now code message metadata) s = mark_failed id now code message metadata s

-- `uuid4()` does not repeat an id of the store.
abbrev pub IsFresh : Call → Stages → Type 0
IsFresh (start uuid now r) s = lookup uuid s ≡ none
IsFresh _ s = Unit

pub exec-IsValid : (c : Call) (s : Stages) → IsFresh c s → IsValid s → Keeps IsValid (exec c s)
unfolding exec start_stage mark_completed mark_failed
exec-IsValid (start uuid now r) s fresh v =
    start_unless-IsValid uuid now r s (running_stage r.job_id r.stage_name s) refl v fresh
exec-IsValid (complete id now metadata) s fresh v =
    write_found-IsValid _ complete_stage-Ends id s (lookup id s) refl v
  where
    complete_stage-Ends : Ends (complete_stage now metadata)
    complete_stage-Ends = record {
      same_id = λ st. refl;
      same_job = λ st. refl;
      same_name = λ st. refl;
      same_attempt = λ st. refl;
      stops = λ st. refl;
    }
exec-IsValid (fail id now code message metadata) s fresh v =
    write_found-IsValid _ fail_stage-Ends id s (lookup id s) refl v
  where
    fail_stage-Ends : Ends (fail_stage now code message metadata)
    fail_stage-Ends = record {
      same_id = λ st. refl;
      same_job = λ st. refl;
      same_name = λ st. refl;
      same_attempt = λ st. refl;
      stops = λ st. refl;
    }

-- The stores that calls can reach; a call that raises leaves the store alone.
pub data StageReach : Stages → Type 0 where
  empty : StageReach []
  next :
      {s t : Stages} {st : JobStage} (c : Call)
      → StageReach s
      → IsFresh c s
      → exec c s ≡ ok (st, t)
      → StageReach t

empty-IsValid : IsValid []
empty-IsValid = record {
  stored = λ id st h. cc;
  distinct = λ i j a b p q same eq. cc;
  alone = λ i j a b p q ra rb. cc;
  numbered = λ job_id name. refl;
}

-- In every store that calls can reach, at most one attempt of a stage of a job runs, no attempt
-- number is used twice, and the largest attempt of each stage is the number of its attempts.
pub StageReach-IsValid : {s : Stages} → StageReach s → IsValid s
StageReach-IsValid empty = empty-IsValid
StageReach-IsValid (next {s} {t} {st} c r fresh e) =
    let k : Keeps IsValid (exec c s) = exec-IsValid c s fresh (StageReach-IsValid r) in rw e at k

-- In a store that calls can reach, a stage that does not run starts as attempt number one more
-- than the attempts that it has had.
pub start_stage_attempt :
    (uuid : String) (now : ℕ) (r : StageRequest) {s : Stages}
    → StageReach s
    → running_stage r.job_id r.stage_name s ≡ none
    → start_stage uuid now r s ≡ (
        let st = new_stage uuid now (attempts r.job_id r.stage_name s + 1) r in
        ok (st, insert uuid st s))
unfolding start_stage next_attempt
start_stage_attempt uuid now r {s} reach idle =
    rw idle (rw ((StageReach-IsValid reach).numbered r.job_id r.stage_name) refl)
