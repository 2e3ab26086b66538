-- ===== src/Services/Eos04/Tests.antt =====
-- Runs of the EOS-04 service over a world outside that counts the calls, and the theorems there.
use akasha_ingestion.Base.{
  ℕ, zero, suc, true, false, none, some, [], ◌∷◌, String, ◌≡◌, refl, sym, ap, ◌∙◌,
}
use text.Mathlib.TextLemmas.{length-cons}
use Prim.Native.String.{count}
use akasha_ingestion.Base.Dict.{Dict}
use akasha_ingestion.Base.Json.{null}
use akasha_ingestion.Providers.Contracts.{other_error, Result, ok, raised}
use akasha_ingestion.Jobs.Store.{queued, Job, new_job, get}
use akasha_ingestion.Schemas.{Mode, full_pipeline, eos04_backfill, SyncRequest}
use akasha_ingestion.Services.Staged.{World, Step}
use akasha_ingestion.Services.Staged.Runs.{Ready}
use akasha_ingestion.Services.Eos04.Records.{
  BoundingBox, Candidate, PreparedScene, Settings, Operations,
}
use akasha_ingestion.Services.Eos04.Backfill.{execute_backfill}
use akasha_ingestion.Services.Eos04.Concluded.{Concluded, execute_backfill-Concluded}
use akasha_ingestion.Services.Eos04.Works.{Works}
use akasha_ingestion.Services.Eos04.Start.{start_backfill}
use akasha_ingestion.Services.Eos04.Lost.{made, start_backfill_lost}

abbrev box : BoundingBox
box = record { west = null; south = null; east = null; north = null }

abbrev candidate : Candidate
candidate = record {
  provider_product_id = "p1";
  online = true;
  intersects_aoi = true;
  overlap_area = 5;
  acquisition_at = some 3;
  bbox = box;
  raw_geometry = none;
  provider_metadata = [];
  provider_properties = null;
}

abbrev scene : PreparedScene
scene = record {
  product_id = "p1";
  acquisition_at = some 3;
  backscatter_path = "cog";
  checksum_sha256 = "c";
  polarizations = "HH" ∷ [];
  bbox = null;
  geometry = null;
  crs = "EPSG:4326";
  resolution = null;
  manifest = record {
    input_representation = null;
    calibration_formula = null;
    rtc_applied = true;
    comparison_metadata = null;
    policy_version = null;
    key_hash = null;
  };
}

-- The world outside is a number, to which every search adds one.
abbrev outside : (PreparedScene → Result PreparedScene) → Operations ℕ
outside prepared = record {
  has_aoi_repository = true;
  has_object_store = true;
  has_scene_repository = true;
  has_asset_repository = true;
  has_pgstac_repository = true;
  has_route_repository = false;
  runtime_roots = none;
  disk_free = 0;
  fromisoformat = λ s. ok 1;
  isoformat = λ d. "2024-01-01";
  aoi_get = λ id e. (ok (some (record { geometry = null; bbox = null })), e);
  search = λ source collection a from to cap e. (ok (candidate ∷ []), suc e);
  download_product = λ job product collection e. (ok ("zip", some "s"), e);
  file_sha256 = λ path e. (ok "s", e);
  file_size = λ path e. (ok 7, e);
  put_raw_file = λ source product path checksum e. (ok ("raw", checksum), e);
  prepare_product = λ p e. (prepared scene, e);
  put_prepared_cog_file = λ source product asset path checksum e. (ok ("cog", checksum), e);
  get_by_route_key = λ source key e. (ok none, e);
  upsert_scene = λ s e. (ok s, e);
  upsert_asset = λ a e. (ok a, e);
  build_item = λ s a. ok ("item", null);
  upsert_item_json = λ i e. (ok tt, e);
}

abbrev settings : Settings
settings = record {
  backfill_search_item_cap = 10;
  eos04_max_downloads_per_run = 2;
  minio_bucket = "akasha";
  memory_runtime = true;
  approved_runtime_required = true;
  approved_runtime = false;
  required_headroom_bytes = 0;
  request_params_version = "v1";
  task_always_eager = false;
}

-- Ids that differ: a text of so many letters.
abbrev letters : ℕ → String
letters zero = String.[]
letters (suc n) = String.◌∷◌ "a" (letters n)

abbrev request : SyncRequest
request = record {
  source_id = "eos-04-sar-mrs-l2b";
  aoi_id = "delhi";
  date_start = 1;
  date_end = 1;
  job_type = eos04_backfill;
  provider_route = none;
  mode = full_pipeline;
}

abbrev digest : Dict String String → String
digest items = "key"

count-letters : (n : ℕ) → count (letters n) ≡ n
count-letters zero = refl
count-letters (suc n) = length-cons "a" (letters n) ∙ ap suc (count-letters n)

distinct : (m n : ℕ) → letters m ≡ letters n → m ≡ n
distinct m n same = sym (count-letters m) ∙ ap count same ∙ count-letters n

abbrev no_send : String → Mode → String → Step ℕ Unit
no_send id mode route e = (ok tt, e)

abbrev job : Job
job = new_job "j1" 1 (record {
  job_type = "eos04_backfill";
  idempotency_key = "key";
  source_id = "eos-04-sar-mrs-l2b";
  aoi_id = "delhi";
  date_start = "2024-01-01";
  date_end = "2024-01-01";
})

abbrev world : World ℕ
world = record {
  jobs = record { jobs = ("j1", job) ∷ []; by_idempotency = ("key", "j1") ∷ [] };
  stages = [];
  outside = 0;
  taken = 1;
}

abbrev empty_world : World ℕ
empty_world = record {
  jobs = record { jobs = []; by_idempotency = [] };
  stages = [];
  outside = 0;
  taken = 1;
}

abbrev fine : Operations ℕ
fine = outside (λ p. ok p)

abbrev failing : Operations ℕ
failing = outside (λ p. raised (other_error []))

world-Ready : Ready letters "j1" world
world-Ready = record { idle = refl; unused = λ n le. refl }

execute_backfill-Concluded_example :
    Concluded
      (λ t. "failed")
      "j1"
      full_pipeline
      world
      (execute_backfill failing settings letters (λ t. "failed") 9 "j1" full_pipeline "route" world)
unfolding get
execute_backfill-Concluded_example =
    execute_backfill-Concluded failing settings letters (λ t. "failed") 9 distinct job full_pipeline
      "cleanup" "route" world refl refl refl world-Ready

abbrev broken : String → Mode → String → Step ℕ Unit
broken id mode route e = (raised (other_error []), e)

abbrev LostResult : World ℕ → Type 0
LostResult v =
    (start_backfill fine settings letters (λ t. "failed") 9 digest (some broken) no_send (λ f. "f")
        "j2" request empty_world
      ≡ (raised (other_error []), v))

start_backfill_lost_example :
    (v : World ℕ) × LostResult v
    × ((made fine settings letters
          (λ t. "failed")
          9
          digest
          no_send
          (λ f. "f")
          "j2"
          request
          empty_world
          (some broken)).status
        ≡ queued)
    × (start_backfill fine settings letters
          (λ t. "failed")
          9
          digest
          (some broken)
          no_send
          (λ f. "f")
          "j3"
          request
          v
        ≡ (
          ok (
              made fine settings letters
                (λ t. "failed")
                9
                digest
                no_send
                (λ f. "f")
                "j2"
                request
                empty_world
                (some broken)),
          v,
        ))
start_backfill_lost_example =
    start_backfill_lost fine settings letters (λ t. "failed") 9 digest no_send (λ f. "f") "j2"
      request empty_world broken (other_error []) 0 "j3" refl refl refl refl
