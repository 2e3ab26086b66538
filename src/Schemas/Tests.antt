-- ===== src/Schemas/Tests.antt =====
-- Requests that are accepted and refused, and the theorem at one of them.
use akasha_ingestion.Base.{◌≤◌, some, ◌≡◌, ◌≢◌, refl}
use akasha_ingestion.Schemas.Defs.{
  SyncRequest, resourcesat_backfill, full_pipeline, mirror_only, accepted, rejected, wrong_mode,
  validate,
}
use akasha_ingestion.Schemas.Accepted.{Fits, validate-Fits}

abbrev request : SyncRequest
request = record {
  source_id = "resourcesat-2a-awifs-boa";
  aoi_id = "bangalore_60km_geodesic_aoi";
  date_start = 739000;
  date_end = 739365;
  job_type = resourcesat_backfill;
  provider_route = some "bhoonidhi:ResourceSat-2A_AWIFS_BOA";
  mode = full_pipeline;
}

request-accepted : validate request ≡ accepted
unfolding validate
request-accepted = refl

mirror_refused : validate (record request { mode = mirror_only }) ≡ rejected wrong_mode
unfolding validate
mirror_refused = refl

validate-Fits_example :
    Fits resourcesat_backfill request
    × (request.date_start ≤ request.date_end)
    × (request.source_id ≢ "")
    × (request.aoi_id ≢ "")
validate-Fits_example = validate-Fits request request-accepted
