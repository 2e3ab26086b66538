-- ===== src/Jobs/Table/Defs.antt =====
-- The rows of `akasha.processing_jobs`, and `PostgresJobStore` as its statements.
use akasha_ingestion.Base.{
  ℕ, Bool, true, false, not, ◌&&◌, ◌||◌, Option, none, some, List, [], ◌∷◌, String, if◌then◌else◌,
  leb, ◌==◌, string_eq, any, filter, count, map,
}
use akasha_ingestion.Base.Dict.{Dict, values, lookup, insert, update}
use akasha_ingestion.Base.Json.{Value, null, text}
use akasha_ingestion.Base.Sort.{sort_by}
use akasha_ingestion.Jobs.Store.{JobStatus, queued, running, completed, failed, Job, JobRequest}

pub record JobRow : Type 0 where
  pub id : String
  pub job_type : String
  pub status : JobStatus
  pub idempotency_key : String
  pub source_id : String
  pub aoi_id : String
  pub request_params : Dict String String
  pub result_metadata : Dict String Value
  pub error_message : Option String
  pub started_at : Option ℕ
  pub created_at : ℕ
  pub updated_at : ℕ
  pub completed_at : Option ℕ

abbrev pub JobTable : Type 0
JobTable = Dict String JobRow

-- `IntegrityError` of the unique index, `NoResultFound` of `.one()`, and the `RuntimeError` of
-- `create_or_get`.
pub data TableError : Type 0 where
  unique_active no_row unresolved : TableError

pub data Result (A : Type 0) : Type 0 where
  ok : A → Result A
  err : TableError → Result A

-- `status IN ('pending', 'queued', 'running', 'completed')`
abbrev pub is_active : JobStatus → Bool
is_active failed = false
is_active _ = true

abbrev pub active_for : String → JobRow → Bool
active_for key row = row.idempotency_key == key && is_active row.status

-- `params.get(name, "")`
abbrev pub or_empty : Option String → String
or_empty none = ""
or_empty (some s) = s

-- `a or b` of two texts
abbrev pub or_text : String → String → String
or_text a b = if a == "" then b else a

-- A path or a checksum in the metadata is a text or `null`.
abbrev pub as_text : Option Value → Option String
as_text (some (text s)) = some s
as_text _ = none

abbrev pub is_private : String → Bool
is_private name = name == "object_path" || name == "checksum_sha256"

unfoldable pub public_result_metadata : Dict String Value → Dict String Value
public_result_metadata result = filter (λ item. not (is_private item.0)) result

unfoldable pub row_to_job : JobRow → Job
unfolding public_result_metadata
row_to_job row = record {
  job_id = row.id;
  job_type = row.job_type;
  idempotency_key = row.idempotency_key;
  status = row.status;
  source_id = or_text row.source_id (or_empty (lookup "source_id" row.request_params));
  aoi_id = or_text row.aoi_id (or_empty (lookup "aoi_id" row.request_params));
  date_start = or_empty (lookup "date_start" row.request_params);
  date_end = or_empty (lookup "date_end" row.request_params);
  object_path = as_text (lookup "object_path" row.result_metadata);
  checksum_sha256 = as_text (lookup "checksum_sha256" row.result_metadata);
  result_metadata = public_result_metadata row.result_metadata;
  error = row.error_message;
  created_at = row.created_at;
  updated_at = row.updated_at;
  completed_at = row.completed_at;
}

-- `ORDER BY created_at DESC LIMIT 1`
abbrev pub first_of : List JobRow → Option JobRow
first_of [] = none
first_of (row ∷ rows) = some row

unfoldable pub active_job : String → JobTable → Option JobRow
active_job key t =
    first_of (sort_by (λ a b. leb b.created_at a.created_at) (filter (active_for key) (values t)))

abbrev pub new_row : String → ℕ → JobRequest → JobRow
new_row uuid now r = record {
  id = uuid;
  job_type = r.job_type;
  status = queued;
  idempotency_key = r.idempotency_key;
  source_id = r.source_id;
  aoi_id = r.aoi_id;
  request_params =
      ("source_id", r.source_id)
      ∷ ("aoi_id", r.aoi_id)
      ∷ ("date_start", r.date_start)
      ∷ ("date_end", r.date_end)
      ∷ [];
  result_metadata = [];
  error_message = none;
  started_at = none;
  created_at = now;
  updated_at = now;
  completed_at = none;
}

-- `INSERT ... ON CONFLICT ... DO NOTHING RETURNING *`
unfoldable pub insert_row : JobRow → JobTable → Option JobRow × JobTable
insert_row row t =
    if any (active_for row.idempotency_key) (values t)
    then (none, t)
    else (some row, insert row.id row t)

-- The last query of `create_or_get`.
abbrev pub resolve : Option JobRow → JobTable → Result ((Job × Bool) × JobTable)
resolve none t = err unresolved
resolve (some row) t = ok ((row_to_job row, false), t)

abbrev pub after_insert :
    String → Option JobRow × JobTable → JobTable → Result ((Job × Bool) × JobTable)
after_insert key (some row, t) later = ok ((row_to_job row, true), t)
after_insert key (none, t) later = resolve (active_job key later) later

abbrev pub after_select :
    Option JobRow
    → String
    → ℕ
    → JobRequest
    → JobTable
    → JobTable
    → JobTable
    → Result ((Job × Bool) × JobTable)
after_select (some row) uuid now r t at_insert later = ok ((row_to_job row, false), t)
after_select none uuid now r t at_insert later =
    after_insert r.idempotency_key (insert_row (new_row uuid now r) at_insert) later

-- Other transactions commit between the statements: `t` is the table that the first query sees,
-- `at_insert` the one that the `INSERT` meets, and `later` the one that the last query sees.
unfoldable pub create_or_get :
    String → ℕ → JobRequest → JobTable → JobTable → JobTable → Result ((Job × Bool) × JobTable)
unfolding active_job insert_row
create_or_get uuid now r t at_insert later =
    after_select (active_job r.idempotency_key t) uuid now r t at_insert later

unfoldable pub get : String → JobTable → Option Job
get job_id t = elim (lookup job_id t) [ none ↦ none | some row ↦ some (row_to_job row) ]

unfoldable pub list_jobs : JobTable → List Job
list_jobs t = map row_to_job (sort_by (λ a b. leb a.created_at b.created_at) (values t))

-- The unique index over the rows of the key, after the write.
abbrev pub indexed : JobRow → JobTable → Result (Job × JobTable)
indexed row t =
    if leb (count (active_for row.idempotency_key) (values t)) 1
    then ok (row_to_job row, t)
    else err unique_active

-- `UPDATE ... WHERE id = ... RETURNING *`
abbrev pub update_found :
    Option JobRow → String → (JobRow → JobRow) → JobTable → Result (Job × JobTable)
update_found none job_id f t = err no_row
update_found (some row) job_id f t = indexed (f row) (insert job_id (f row) t)

unfoldable pub mark_queued : String → ℕ → JobTable → Result (Job × JobTable)
mark_queued job_id now t =
    update_found (lookup job_id t) job_id (λ row. record row { status = queued; updated_at = now })
      t

unfoldable pub mark_running : String → ℕ → JobTable → Result (Job × JobTable)
mark_running job_id now t =
    update_found (lookup job_id t) job_id
      (λ row. record row { status = running; updated_at = now; started_at = some now }) t

abbrev pub value_of : Option String → Value
value_of none = null
value_of (some s) = text s

abbrev pub with_metadata : Option (Dict String Value) → Dict String Value → Dict String Value
with_metadata none result = result
with_metadata (some metadata) result = update result metadata

unfoldable pub mark_completed :
    String
    → ℕ
    → Option String
    → Option String
    → Option (Dict String Value)
    → JobTable
    → Result (Job × JobTable)
mark_completed job_id now path checksum metadata t =
    update_found (lookup job_id t) job_id
      (λ row. record row {
        status = completed;
        result_metadata =
            with_metadata metadata
              (("object_path", value_of path) ∷ ("checksum_sha256", value_of checksum) ∷ []);
        error_message = none;
        completed_at = some now;
        updated_at = now;
      })
      t

unfoldable pub mark_failed : String → ℕ → String → JobTable → Result (Job × JobTable)
mark_failed job_id now error t =
    update_found (lookup job_id t) job_id
      (λ row. record row {
        status = failed;
        error_message = some error;
        completed_at = some now;
        updated_at = now;
      })
      t
