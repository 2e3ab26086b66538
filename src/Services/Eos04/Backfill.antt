-- ===== src/Services/Eos04/Backfill.antt =====
-- `start_backfill` and `execute_backfill` of the EOS-04 service, over the stores in memory.
use akasha_ingestion.Base.{
  ℕ, Bool, true, false, Option, none, some, List, [], ◌∷◌, String, if◌then◌else◌, length, string_eq,
}
use akasha_ingestion.Base.Dict.{Dict, insert}
use akasha_ingestion.Base.Json.{Value, bool, number, literal, text, object, texts, fields_of}
use akasha_ingestion.Base.Text.{Text, codes}
use akasha_ingestion.Providers.Contracts.{Failure, other_error, text_of, Result, ok, raised}
use akasha_ingestion.Jobs.Store.{
  JobStatus, completed, Job, JobStore, get, mark_running, mark_completed, mark_failed,
}
use akasha_ingestion.Schemas.{Mode}
use akasha_ingestion.Services.Staged.{World, Step, bind, done, each, with_stage}
use akasha_ingestion.Services.Eos04.Records.{
  Candidate, Aoi, DownloadedProduct, PreparedScene, SceneRecord, AssetRecord, Settings, Operations,
  Summary, collection_id, mode_text, mode_limit, summary_metadata,
}
use akasha_ingestion.Services.Eos04.Parts.{error, reaches, search_body, download_body, prepare_body}
use akasha_ingestion.Services.Eos04.Register.{store_all, register_pgstac, require_dependencies}
use Prim.Native.String.{◌++◌}

abbrev pub is_completed : JobStatus → Bool
is_completed completed = true
is_completed _ = false

abbrev pub count_entry : String → ℕ → Dict String Value
count_entry name n = (name, number n) ∷ []

module _ {E : Type 0} (ops : Operations E) (settings : Settings) (uuid : ℕ → String)
    (redact : Text → String) (now : ℕ) where
  -- What changes neither store.
  abbrev pub outside_only : {A : Type 0} → Step E A → Step (World E) A
  outside_only call w = let r = call w.outside in (r.0, record w { outside = r.1 })

  abbrev pub stage :
      {A : Type 0}
      → Job
      → String
      → Dict String Value
      → Step E (A × Dict String Value)
      → Step (World E) A
  stage job name metadata body =
      with_stage uuid redact now "eos04_stage_failed" job.job_id name metadata body

  abbrev pub search : Job → Aoi → Summary → Step (World E) (List Candidate × Summary)
  search job aoi summary =
      stage job "provider_search" (("collection", text collection_id) ∷ [])
        (search_body ops settings aoi summary)

  abbrev pub download :
      Job → List Candidate → Summary → Step (World E) (List DownloadedProduct × Summary)
  download job candidates summary =
      stage job "raw_download" (count_entry "candidate_count" (length candidates))
        (download_body ops settings job candidates summary)

  abbrev pub prepare :
      Job → List DownloadedProduct → Summary → Step (World E) (List PreparedScene × Summary)
  prepare job downloads summary =
      stage job "prepare_scene" (count_entry "downloaded_count" (length downloads))
        (prepare_body ops settings job downloads summary)

  abbrev pub validate : Job → List PreparedScene → Summary → Step (World E) Summary
  validate job prepared summary =
      stage job "scene_validation" (count_entry "prepared_count" (length prepared))
        (done (record summary { prepared_count = length prepared }, []))

  abbrev pub store_scenes :
      Job
      → List DownloadedProduct
      → List PreparedScene
      → Step (World E) (List (SceneRecord × AssetRecord))
  store_scenes job downloads prepared =
      stage job "object_storage" (count_entry "prepared_count" (length prepared)) (λ e.
        bind (store_all ops settings job downloads prepared e)
          (λ registered. done (registered, count_entry "stored_count" (length registered))))

  abbrev pub register : Job → List (SceneRecord × AssetRecord) → Summary → Step (World E) Summary
  register job registered summary =
      stage job "pgstac_registration" (count_entry "scene_count" (length registered)) (λ e.
        bind (each (register_pgstac ops settings) registered e) (λ ids. done (
          record summary { item_ids = ids; registered_count = length ids },
          ("item_ids", texts ids) ∷ [],
        )))

  abbrev pub cleanup : Job → Step (World E) Unit
  cleanup job = stage job "cleanup" (("retained_for_audit", bool true) ∷ []) (done (tt, []))

  -- From `object_storage` on.
  abbrev pub publish :
      Job → Mode → List DownloadedProduct → List PreparedScene → Summary → Step (World E) Summary
  publish job mode downloads prepared summary w =
      if reaches mode "object_storage"
      then bind (store_scenes job downloads prepared w) (λ registered w1.
        bind (register job registered summary w1)
          (λ s w2. bind (cleanup job w2) (λ cleaned. done s)))
      else done summary w

  abbrev pub refine : Job → Mode → List DownloadedProduct → Summary → Step (World E) Summary
  refine job mode downloads summary w =
      if reaches mode "prepare_scene"
      then bind (prepare job downloads summary w)
          (λ p w1. bind (validate job p.0 p.1 w1) (λ s. publish job mode downloads p.0 s))
      else done summary w

  abbrev pub fetch : Job → Mode → List Candidate → Summary → Step (World E) Summary
  fetch job mode candidates summary w =
      if reaches mode "raw_download"
      then bind (download job candidates summary w) (λ d. refine job mode d.0 d.1)
      else done summary w

  -- The stages of the run, up to the limit of its mode; each early return of the source passes the
  -- summary to `_complete`.
  abbrev pub run_stages : Job → Mode → Aoi → Summary → Step (World E) Summary
  run_stages job mode aoi summary w = bind (search job aoi summary w) (λ c. fetch job mode c.0 c.1)

  abbrev pub empty_summary : Job → Mode → String → ℕ → ℕ → Summary
  empty_summary job mode route date_start date_end = record {
    source_id = job.source_id;
    provider_route = route;
    aoi_id = job.aoi_id;
    date_start = date_start;
    date_end = date_end;
    mode = mode;
    searched_count = 0;
    selected_count = 0;
    downloaded_count = 0;
    prepared_count = 0;
    registered_count = 0;
    failed_count = 0;
    product_ids = [];
    item_ids = [];
  }

  abbrev pub known_aoi : Job → Option Aoi → Result Aoi
  known_aoi job none = error ("AOI not found: " ++ job.aoi_id)
  known_aoi job (some aoi) = ok aoi

  -- The body of the `try` before `_complete`.
  abbrev pub attempt : Job → Mode → String → Step (World E) Summary
  attempt job mode route w =
      bind (require_dependencies ops settings mode, w)
        (λ met w0. bind (outside_only (ops.aoi_get job.aoi_id) w0) (λ there w1.
          bind (known_aoi job there, w1)
            (λ aoi w2.
              bind (ops.fromisoformat job.date_start, w2)
                (λ date_start w3.
                  bind (ops.fromisoformat job.date_end, w3)
                    (λ date_end.
                      run_stages job mode aoi
                        (empty_summary job mode route date_start date_end))))))

  -- The result metadata that `_complete` records; the run takes no time.
  abbrev pub result_metadata : Summary → Dict String Value
  result_metadata s =
      (
        "backfill_summary",
        object (
            fields_of
              (insert "duration_seconds" (literal "0.0") (summary_metadata ops.isoformat s))),
      )
      ∷ ("mode", text (mode_text s.mode))
      ∷ ("provider_route", text s.provider_route)
      ∷ []

  abbrev pub lost_job : Failure
  lost_job = other_error (codes "job not found")

  abbrev pub written : World E → Option (Job × JobStore) → Result Job × World E
  written w none = (raised lost_job, w)
  written w (some (job, jobs)) = (ok job, record w { jobs = jobs })

  abbrev pub complete : Job → Summary → Step (World E) Job
  complete job s w =
      written w (mark_completed job.job_id now none none (some (result_metadata s)) w.jobs)

  -- The `except` clause: the job is marked as failed, and the exception is raised again.
  abbrev pub raised_again : Failure → World E → Option (Job × JobStore) → Result Job × World E
  raised_again f w none = (raised lost_job, w)
  raised_again f w (some (job, jobs)) = (raised f, record w { jobs = jobs })

  abbrev pub conclude : Job → Result Job × World E → Result Job × World E
  conclude job (ok finished, w) = (ok finished, w)
  conclude job (raised f, w) =
      raised_again f w (mark_failed job.job_id now (redact (text_of f)) w.jobs)

  abbrev pub run_job : Mode → String → Job → Step (World E) Job
  run_job mode route job w = bind (written w (mark_running job.job_id now w.jobs)) (λ running w1.
      conclude running (bind (attempt running mode route w1) (λ s. complete running s)))

  abbrev pub run_known : Mode → String → Job → Step (World E) Job
  run_known mode route job w =
      if is_completed job.status then (ok job, w) else run_job mode route job w

  abbrev pub run_found : String → Mode → String → Option Job → Step (World E) Job
  run_found job_id mode route none w = (error ("job not found: " ++ job_id), w)
  run_found job_id mode route (some job) w = run_known mode route job w

  abbrev pub run_mode : String → Mode → String → Option String → Step (World E) Job
  run_mode job_id mode route none w =
      (error ("unsupported EOS-04 backfill mode: " ++ mode_text mode), w)
  run_mode job_id mode route (some limit) w = run_found job_id mode route (get job_id w.jobs) w

  unfoldable pub execute_backfill : String → Mode → String → Step (World E) Job
  unfolding reaches
  execute_backfill job_id mode route w = run_mode job_id mode route (mode_limit mode) w
