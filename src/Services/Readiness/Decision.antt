-- ===== src/Services/Readiness/Decision.antt =====
-- `ReadinessService.readiness`: the decision, its reasons, and what it reports.
use akasha_ingestion.Base.{
  ℕ, ◌+◌, ◌*◌, Bool, true, false, not, ◌&&◌, Option, none, some, List, [], ◌∷◌, ◌++◌, String, map,
  if◌then◌else◌, ◌==◌, string_eq, nat_eq, filter, any, leb, ltb, max, length, is_none,
}
use akasha_ingestion.Base.Dict.{Dict, values, lookup, insert}
use akasha_ingestion.Base.Sort.{sort_by}
use akasha_ingestion.Base.Text.{Text, codes}
use akasha_ingestion.Providers.Contracts.{other_error, Result, ok, raised}
use akasha_ingestion.Jobs.Store.{JobStatus, completed, Job, JobStore, list_jobs}
use akasha_ingestion.Catalog.SyncLedger.{
  Ledger, SyncLedgerRecord, heartbeat, latest_fully_searched_day, incomplete_count,
  processing_backlog, last_error, list_for_source_aoi,
}
use akasha_ingestion.Services.Readiness.Policy.{
  ReadinessPolicy, ReadinessSettings, sentinel_policy, policy,
}
use akasha_ingestion.Services.Readiness.Scenes.{
  ReadyScene, RasterOutput, readiness_scenes, index_dates, scene_dates, intersection, scene_ids,
  coverage_ok, latest, Coverage,
}

pub data Status : Type 0 where
  available stale unavailable : Status

pub record Reason : Type 0 where
  pub code : String
  pub message : String

pub record SyncMetrics : Type 0 where
  pub heartbeat_at : Option ℕ
  pub latest_fully_searched_day : Option ℕ
  pub incomplete_day_count : ℕ
  pub processing_backlog : ℕ
  pub last_error : Option Text
  pub acquisition_dates : List SyncLedgerRecord

-- `AnalyticsReadinessResponse`; a moment stands for the text that `_format_utc` makes of it.
pub record Response : Type 0 where
  pub status : Status
  pub source_id : String
  pub aoi_id : String
  pub provider_route : String
  pub latest_processed_scene_date : Option ℕ
  pub latest_successful_job_completed_at : Option ℕ
  pub last_successful_job_at : Option ℕ
  pub stale_after : Option ℕ
  pub freshness_max_age_hours : ℕ
  pub available_dates : List ℕ
  pub index_coverage : Dict String Coverage
  pub last_successful_job : Option (String × ℕ)
  pub unavailable_reasons : List Reason
  pub metrics : Option SyncMetrics

-- `policy.reason_messages[code]`; a missing code is a `KeyError`.
abbrev pub reason_from : String → Option String → Result Reason
reason_from code none = raised (other_error (codes code))
reason_from code (some message) = ok (record { code = code; message = message })

unfoldable pub reason : ReadinessPolicy → String → Result Reason
reason p code = reason_from code (lookup code p.reason_messages)

abbrev pub add_reason : Result Reason → Result (List Reason) → Result (List Reason)
add_reason (raised f) rest = raised f
add_reason (ok r) (raised f) = raised f
add_reason (ok r) (ok rs) = ok (r ∷ rs)

unfoldable pub reasons_of : ReadinessPolicy → List String → Result (List Reason)
unfolding reason
reasons_of p [] = ok []
reasons_of p (code ∷ more) = add_reason (reason p code) (reasons_of p more)

abbrev pub is_resourcesat : ReadinessPolicy → Bool
is_resourcesat p = p.job_type == "resourcesat_backfill"

abbrev pub no_outputs_code : ReadinessPolicy → String
no_outputs_code p = if is_resourcesat p then "NO_RESOURCE_SAT_OUTPUTS" else "NO_PRELOAD_OUTPUTS"

abbrev pub no_successful_job_code : ReadinessPolicy → String
no_successful_job_code p =
    if is_resourcesat p then "NO_SUCCESSFUL_RESOURCE_SAT_JOB" else "NO_SUCCESSFUL_PRELOAD_JOB"

abbrev pub stale_code : ReadinessPolicy → String
stale_code p = if is_resourcesat p then "RESOURCE_SAT_STALE" else "PRELOAD_STALE"

abbrev pub is_empty {ℓ} : {A : Type ℓ} → List A → Bool
is_empty [] = true
is_empty (x ∷ xs) = false

abbrev pub is_none_percent : Option ℕ → Bool
is_none_percent none = true
is_none_percent (some p) = false

-- The codes of `_unavailable_reasons`, in order.
abbrev pub no_dates_code : ReadinessPolicy → List ReadyScene → List RasterOutput → String
no_dates_code p scenes outputs =
    if is_empty outputs
    then no_outputs_code p
    else if not (is_empty scenes)
        && not (is_none_percent p.min_coverage_percent)
        && not (any (λ s. coverage_ok s p) scenes)
    then "LOW_COVERAGE"
    else "MISSING_INDEX_COVERAGE"

abbrev pub job_codes : Bool → ReadinessPolicy → Option Job → List String
job_codes when p last_job = if when && is_none last_job then no_successful_job_code p ∷ [] else []

unfoldable pub unavailable_codes :
    ReadinessPolicy → List ReadyScene → List ℕ → List RasterOutput → Option Job → List String
unfolding coverage_ok
unavailable_codes p scenes dates outputs last_job =
    if not (is_empty dates)
    then job_codes p.require_successful_job p last_job
    else job_codes p.require_successful_job p last_job
      ++ (no_dates_code p scenes outputs ∷ job_codes (not p.require_successful_job) p last_job)

abbrev pub is_completed : JobStatus → Bool
is_completed completed = true
is_completed _ = false

-- `_completed_at(job)`
abbrev pub completed_at : Job → ℕ
completed_at job = elim job.completed_at [ none ↦ job.updated_at | some t ↦ t ]

-- `max(jobs, key=...)`: the first one among the latest
abbrev pub later_job : Job → Option Job → Option Job
later_job a none = some a
later_job a (some b) = if leb (completed_at b) (completed_at a) then some a else some b

abbrev pub latest_job : List Job → Option Job
latest_job [] = none
latest_job (a ∷ jobs) = later_job a (latest_job jobs)

abbrev pub coverage_of : ℕ → ℕ → Coverage
coverage_of date_count denominator = record {
  available = ltb 0 date_count;
  date_count = date_count;
  denominator = denominator;
}

-- The repositories; `none` where the service is not wired to one. `produces` is
-- `_is_output_producing_full_pipeline`, which reads the counts of the job's JSON.
pub record Catalogue : Type 0 where
  pub scenes : Option (String → String → List ReadyScene)
  pub outputs : Option (List String → Option String → List RasterOutput)
  pub ledger : Option Ledger
  pub jobs : JobStore
  pub produces : Job → Bool

module _ (c : Catalogue) where
  unfoldable pub latest_successful_job : ReadinessPolicy → String → String → Option Job
  unfolding list_jobs
  latest_successful_job p source_id aoi_id = latest_job (
      filter
        (λ j.
          j.job_type == p.job_type
          && is_completed j.status
          && j.source_id == source_id
          && j.aoi_id == aoi_id
          && c.produces j)
        (list_jobs c.jobs))

  abbrev pub metrics_of : String → String → Option Ledger → Option SyncMetrics
  metrics_of source_id aoi_id none = none
  metrics_of source_id aoi_id (some ledger) = some (record {
    heartbeat_at = heartbeat source_id aoi_id ledger;
    latest_fully_searched_day = latest_fully_searched_day source_id aoi_id ledger;
    incomplete_day_count = incomplete_count source_id aoi_id ledger;
    processing_backlog = processing_backlog source_id aoi_id ledger;
    last_error = last_error source_id aoi_id ledger;
    acquisition_dates =
        filter (λ r. ltb 0 r.scene_count) (list_for_source_aoi source_id aoi_id ledger);
  })

-- `freshness_at + timedelta(hours=...)`
abbrev pub hour : ℕ
hour = 3600000000

abbrev pub stale_after : ReadinessPolicy → Option ℕ → Option ℕ
stale_after p none = none
stale_after p (some fresh) = some (fresh + p.freshness_max_age_hours * hour)

abbrev pub all_codes : ReadinessPolicy → Status → List String → List String
all_codes p stale reasons = reasons ++ (stale_code p ∷ [])
all_codes p _ reasons = reasons

abbrev pub first_of : List ℕ → Option ℕ
first_of [] = none
first_of (d ∷ days) = some d

abbrev pub job_time : Option Job → Option ℕ
job_time none = none
job_time (some job) = some (completed_at job)

abbrev pub job_payload : Option Job → Option (String × ℕ)
job_payload none = none
job_payload (some job) = some (job.job_id, completed_at job)

-- What was read for a policy.
pub record Reading : Type 0 where
  pub scenes : List ReadyScene
  pub by_index : List (String × List RasterOutput)
  pub registered : List RasterOutput
  pub last_job : Option Job

-- `index_date_sets`, and its values
abbrev pub dates_by_index :
    ReadinessPolicy → List ReadyScene → List (String × List RasterOutput) → List (String × List ℕ)
dates_by_index p scenes [] = []
dates_by_index p scenes ((index, outputs) ∷ rest) =
    (index, index_dates p outputs scenes) ∷ dates_by_index p scenes rest

abbrev pub date_sets : ReadinessPolicy → Reading → List (String × List ℕ)
date_sets p r = dates_by_index p r.scenes r.by_index

unfoldable pub available_dates : ReadinessPolicy → Reading → List ℕ
unfolding intersection coverage_ok
available_dates p r = sort_by (λ a b. leb b a) (intersection (values (date_sets p r)))

abbrev pub all_outputs : List (String × List RasterOutput) → List RasterOutput
all_outputs [] = []
all_outputs ((index, outputs) ∷ rest) = outputs ++ all_outputs rest

abbrev pub freshness_at : Reading → Option ℕ
freshness_at r =
    latest
      (latest (map RasterOutput.created_at (all_outputs r.by_index)) ∷ job_time r.last_job ∷ [])

abbrev pub codes_for : ReadinessPolicy → Reading → List String
codes_for p r = unavailable_codes p r.scenes (available_dates p r) r.registered r.last_job

module _ (now : ℕ) where
  abbrev pub is_over : Option ℕ → Bool
  is_over none = false
  is_over (some limit) = ltb limit now

  -- The status, and whether the reason of staleness is added.
  abbrev pub status_of : List ℕ → Option ℕ → List String → Status
  status_of dates limit reasons =
      if not (is_empty dates) && not (is_none limit) && is_empty reasons
      then (if is_over limit then stale else available)
      else unavailable

  unfoldable pub status_for : ReadinessPolicy → Reading → Status
  status_for p r = status_of (available_dates p r) (stale_after p (freshness_at r)) (codes_for p r)

module _ (c : Catalogue) where
  unfoldable pub read :
      ReadinessPolicy
      → String
      → String
      → (String → String → List ReadyScene)
      → (List String → Option String → List RasterOutput)
      → Reading
  unfolding readiness_scenes
  read p source_id aoi_id list_scenes list_outputs =
      let scenes = readiness_scenes (list_scenes source_id aoi_id) p in
      let ids = scene_ids scenes in
      record {
        scenes = scenes;
        by_index = map (λ i. (i, list_outputs ids (some i))) p.required_indices;
        registered = list_outputs ids none;
        last_job = latest_successful_job c p source_id aoi_id;
      }

module _ (upper : String → String) (c : Catalogue) (now : ℕ) where
  abbrev pub coverage_dict :
      List (String × List ℕ) → ℕ → Dict String Coverage → Dict String Coverage
  coverage_dict [] total d = d
  coverage_dict ((index, days) ∷ sets) total d =
      coverage_dict sets total
        (insert (upper index) (coverage_of (length days) (max total (length days))) d)

  abbrev pub unavailable_with : ReadinessPolicy → String → String → Result Reason → Result Response
  unavailable_with p source_id aoi_id (raised f) = raised f
  unavailable_with p source_id aoi_id (ok r) = ok (record {
    status = unavailable;
    source_id = source_id;
    aoi_id = aoi_id;
    provider_route = p.provider_route;
    latest_processed_scene_date = none;
    latest_successful_job_completed_at = none;
    last_successful_job_at = none;
    stale_after = none;
    freshness_max_age_hours = p.freshness_max_age_hours;
    available_dates = [];
    index_coverage = coverage_dict (map (λ i. (i, [])) p.required_indices) 0 [];
    last_successful_job = none;
    unavailable_reasons = r ∷ [];
    metrics = metrics_of c source_id aoi_id c.ledger;
  })

  unfoldable pub unavailable_for : ReadinessPolicy → String → String → String → Result Response
  unavailable_for p source_id aoi_id code = unavailable_with p source_id aoi_id (reason p code)

  abbrev pub respond :
      ReadinessPolicy → String → String → Reading → Status → Result (List Reason) → Result Response
  respond p source_id aoi_id r status (raised f) = raised f
  respond p source_id aoi_id r status (ok reasons) = ok (record {
    status = status;
    source_id = source_id;
    aoi_id = aoi_id;
    provider_route = p.provider_route;
    latest_processed_scene_date = first_of (available_dates p r);
    latest_successful_job_completed_at = job_time r.last_job;
    last_successful_job_at = freshness_at r;
    stale_after = stale_after p (freshness_at r);
    freshness_max_age_hours = p.freshness_max_age_hours;
    available_dates = available_dates p r;
    index_coverage = coverage_dict (date_sets p r) (length (scene_dates r.scenes)) [];
    last_successful_job = job_payload r.last_job;
    unavailable_reasons = reasons;
    metrics = metrics_of c source_id aoi_id c.ledger;
  })

  abbrev pub decide : ReadinessPolicy → String → String → Reading → Result Response
  decide p source_id aoi_id r =
      respond p source_id aoi_id r (status_for now p r)
        (reasons_of p (all_codes p (status_for now p r) (codes_for p r)))

  abbrev pub consult :
      ReadinessPolicy
      → String
      → String
      → Option (String → String → List ReadyScene)
      → Option (List String → Option String → List RasterOutput)
      → Result Response
  consult p source_id aoi_id (some scenes) (some outputs) =
      decide p source_id aoi_id (read c p source_id aoi_id scenes outputs)
  consult p source_id aoi_id (some scenes) none =
      unavailable_for p source_id aoi_id (no_outputs_code p)
  consult p source_id aoi_id none outputs = unavailable_for p source_id aoi_id (no_outputs_code p)

  abbrev pub for_policy : ReadinessPolicy → String → String → Result Response
  for_policy p source_id aoi_id =
      if not p.enabled
      then unavailable_for p source_id aoi_id "SOURCE_NOT_ENABLED"
      else if not (aoi_id == p.aoi_id)
      then unavailable_for p source_id aoi_id "AOI_MISMATCH"
      else consult p source_id aoi_id c.scenes c.outputs

  abbrev pub for_found :
      ReadinessSettings → String → String → Result (Option ReadinessPolicy) → Result Response
  for_found s source_id aoi_id (raised f) = raised f
  for_found s source_id aoi_id (ok none) =
      unavailable_for (sentinel_policy s.sentinel) source_id aoi_id "SOURCE_MISMATCH"
  for_found s source_id aoi_id (ok (some p)) = for_policy p source_id aoi_id

  module _ (lower : String → String) where
    unfoldable pub readiness : ReadinessSettings → String → String → Result Response
    readiness s source_id aoi_id = for_found s source_id aoi_id (policy lower source_id s)
