-- ===== src/Jobs/Store/Defs.antt =====
-- `JobStatus`, `Job` and the methods of `InMemoryJobStore`.
use akasha_ingestion.Base.{
  ℕ, Bool, true, false, Option, none, some, List, [], String, leb, if◌then◌else◌, ◌==◌, string_eq,
}
use akasha_ingestion.Base.Dict.{Dict, values, lookup, insert, erase}
use akasha_ingestion.Base.Json.{Value}
use akasha_ingestion.Base.Sort.{sort_by}

pub data JobStatus : Type 0 where
  pending queued running completed failed : JobStatus

abbrev pub is_failed : JobStatus → Bool
is_failed failed = true
is_failed _ = false

pub record Job : Type 0 where
  pub job_id : String
  pub job_type : String
  pub idempotency_key : String
  pub status : JobStatus
  pub source_id : String
  pub aoi_id : String
  pub date_start : String
  pub date_end : String
  pub object_path : Option String
  pub checksum_sha256 : Option String
  pub result_metadata : Dict String Value
  pub error : Option String
  pub created_at : ℕ
  pub updated_at : ℕ
  pub completed_at : Option ℕ

-- The keyword arguments of `create_or_get`.
pub record JobRequest : Type 0 where
  pub job_type : String
  pub idempotency_key : String
  pub source_id : String
  pub aoi_id : String
  pub date_start : String
  pub date_end : String

pub record JobStore : Type 0 where
  pub jobs : Dict String Job
  pub by_idempotency : Dict String String

abbrev pub empty_store : JobStore
empty_store = record { jobs = []; by_idempotency = [] }

-- `Job(...)` with its defaults; both clocks are read at the same instant.
abbrev pub new_job : String → ℕ → JobRequest → Job
new_job uuid now r = record {
  job_id = uuid;
  job_type = r.job_type;
  idempotency_key = r.idempotency_key;
  status = queued;
  source_id = r.source_id;
  aoi_id = r.aoi_id;
  date_start = r.date_start;
  date_end = r.date_end;
  object_path = none;
  checksum_sha256 = none;
  result_metadata = [];
  error = none;
  created_at = now;
  updated_at = now;
  completed_at = none;
}

abbrev pub register : String → ℕ → JobRequest → JobStore → (Job × Bool) × JobStore
register uuid now r s = (
  (new_job uuid now r, true),
  record s {
    jobs = insert uuid (new_job uuid now r) s.jobs;
    by_idempotency = insert r.idempotency_key uuid s.by_idempotency;
  },
)

-- `existing_job = self._jobs[existing_id]` and the test of its status; `none` is a `KeyError`.
abbrev pub reuse :
    Option Job → String → ℕ → JobRequest → JobStore → Option ((Job × Bool) × JobStore)
reuse none uuid now r s = none
reuse (some job) uuid now r s =
    if is_failed job.status then some (register uuid now r s) else some ((job, false), s)

abbrev pub create_from :
    Option String → String → ℕ → JobRequest → JobStore → Option ((Job × Bool) × JobStore)
create_from none uuid now r s = some (register uuid now r s)
create_from (some existing_id) uuid now r s = reuse (lookup existing_id s.jobs) uuid now r s

unfoldable pub create_or_get : String → ℕ → JobRequest → JobStore → Option ((Job × Bool) × JobStore)
create_or_get uuid now r s = create_from (lookup r.idempotency_key s.by_idempotency) uuid now r s

unfoldable pub get : String → JobStore → Option Job
get job_id s = lookup job_id s.jobs

unfoldable pub list_jobs : JobStore → List Job
list_jobs s = sort_by (λ a b. leb a.created_at b.created_at) (values s.jobs)

-- A write to the fields of the object behind a handle; `none` if the store holds no such job.
abbrev pub write_found : Option Job → String → (Job → Job) → JobStore → Option (Job × JobStore)
write_found none job_id f s = none
write_found (some job) job_id f s = some (f job, record s { jobs = insert job_id (f job) s.jobs })

abbrev pub write_job : String → (Job → Job) → JobStore → Option (Job × JobStore)
write_job job_id f s = write_found (lookup job_id s.jobs) job_id f s

unfoldable pub mark_running : String → ℕ → JobStore → Option (Job × JobStore)
mark_running job_id now s =
    write_job job_id (λ job. record job { status = running; updated_at = now }) s

unfoldable pub mark_queued : String → ℕ → JobStore → Option (Job × JobStore)
mark_queued job_id now s =
    write_job job_id (λ job. record job { status = queued; updated_at = now }) s

unfoldable pub mark_completed :
    String
    → ℕ
    → Option String
    → Option String
    → Option (Dict String Value)
    → JobStore
    → Option (Job × JobStore)
mark_completed job_id now path checksum metadata s =
    write_job job_id
      (λ job. record job {
        status = completed;
        object_path = path;
        checksum_sha256 = checksum;
        result_metadata = elim metadata [ none ↦ [] | some m ↦ m ];
        error = none;
        completed_at = some now;
        updated_at = now;
      })
      s

-- `if self._by_idempotency.get(job.idempotency_key) == job.job_id: del ...`
abbrev pub release : Option String → Job → JobStore → JobStore
release none job s = s
release (some owner) job s =
    if owner == job.job_id
    then record s { by_idempotency = erase job.idempotency_key s.by_idempotency }
    else s

abbrev pub release_written : Option (Job × JobStore) → Option (Job × JobStore)
release_written none = none
release_written (some (job, s)) =
    some (job, release (lookup job.idempotency_key s.by_idempotency) job s)

unfoldable pub mark_failed : String → ℕ → String → JobStore → Option (Job × JobStore)
mark_failed job_id now error s = release_written (
    write_job job_id (λ job. record job { status = failed; error = some error; updated_at = now })
      s)
