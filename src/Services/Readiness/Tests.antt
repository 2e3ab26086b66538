-- ===== src/Services/Readiness/Tests.antt =====
-- A source with one composite and its output, and the theorems about its readiness.
use akasha_ingestion.Base.{true, false, not, ◌&&◌, Option, none, some, List, [], ◌∷◌, String, ◌≡◌}
use akasha_ingestion.Services.Readiness.Policy.{Preload, ReadinessSettings, sentinel_policy}
use akasha_ingestion.Services.Readiness.Scenes.{ReadyScene, RasterOutput, is_in}
use akasha_ingestion.Services.Readiness.Decision.{Reading, Catalogue, is_empty, available_dates}
use akasha_ingestion.Services.Readiness.Verdict.{complete_day, available_dates-complete_day}

abbrev preload : String → Preload
preload id = record {
  source_id = id;
  aoi_id = "delhi";
  provider_route = "route";
  freshness_max_age_hours = 24;
  enabled = true;
  required_indices = "ndvi" ∷ [];
  min_coverage_percent = 0;
  supported_indices = "ndvi" ∷ [];
}

abbrev settings : ReadinessSettings
settings = record {
  sentinel = preload "s2";
  landsat = preload "l8";
  liss3 = preload "liss3";
  liss4 = preload "liss4";
  awifs = preload "awifs";
}

abbrev scene : ReadyScene
scene = record {
  id = some "a";
  acquisition_at = some 86400000001;
  status = "accepted";
  composite = false;
  composite_output = false;
  contributor_days = [];
}

abbrev scenes : String → String → List ReadyScene
scenes source_id aoi_id = scene ∷ []

abbrev outputs : List String → Option String → List RasterOutput
outputs ids index = record { scene_id = "a"; created_at = some 86400000002 } ∷ []

abbrev catalogue : Catalogue
catalogue = record {
  scenes = some scenes;
  outputs = some outputs;
  ledger = none;
  jobs = record { jobs = []; by_idempotency = [] };
  produces = λ job. true;
}

abbrev same : String → String
same text = text

abbrev reading : Reading
reading = record {
  scenes = scene ∷ [];
  by_index = ("ndvi", outputs [] none) ∷ [];
  registered = outputs [] none;
  last_job = none;
}

abbrev area : String
area = "delhi"

available_dates-complete_day_example :
    is_in 1 (available_dates (sentinel_policy (preload "s2")) reading)
    ≡ (not (is_empty reading.by_index) && complete_day reading 1)
available_dates-complete_day_example =
    available_dates-complete_day (sentinel_policy (preload "s2")) reading 1
