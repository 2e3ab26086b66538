-- ===== src/Schemas/Accepted.antt =====
-- What an accepted request guarantees to the services.
use akasha_ingestion.Base.{
  ℕ, ◌-◌, ◌+◌, ◌≤◌, Bool, true, false, Option, none, some, String, ◌≡◌, ◌≢◌, refl, not, ltb, ◌||◌,
  arith, eq_iff, ◌==◌, string_eq,
}
use akasha_ingestion.Base.Dict.{lookup}
use akasha_ingestion.Schemas.Defs.{
  JobType, mock_sync, sentinel2_backfill, landsat_backfill, resourcesat_backfill, eos04_backfill,
  nisar_backfill, SyncRequest, Checked, accepted, resourcesat_source_collections, sentinel2_mode,
  landsat_mode, resourcesat_mode, bhoonidhi_sar_mode, validate, RequestError, check, check_source,
  check_collection, check_job_type, route_is, is_blank, wrong_source, wrong_route, wrong_mode,
  empty_text, date_order, range_too_long,
}
use Prim.Native.String.{◌++◌}

-- What each job type asks of the source, the route and the mode.
abbrev pub Fits : JobType → SyncRequest → Type 0
Fits mock_sync r = r.provider_route ≡ none
Fits sentinel2_backfill r =
    (r.source_id ≡ "sentinel-2-l2a")
    × (r.provider_route ≡ some "earthsearch:sentinel-2-l2a")
    × (sentinel2_mode r.mode ≡ true)
Fits landsat_backfill r =
    (r.source_id ≡ "landsat-c2-l2")
    × (r.provider_route ≡ some "planetary-computer:landsat-c2-l2")
    × (landsat_mode r.mode ≡ true)
Fits resourcesat_backfill r =
    (collection : String) × (lookup r.source_id resourcesat_source_collections ≡ some collection)
    × (r.provider_route ≡ some ("bhoonidhi:" ++ collection))
    × (resourcesat_mode r.mode ≡ true)
Fits eos04_backfill r =
    (r.source_id ≡ "eos-04-sar-mrs-l2b")
    × (r.provider_route ≡ some "bhoonidhi:EOS-04_SAR-MRS_L2B")
    × (bhoonidhi_sar_mode r.mode ≡ true)
Fits nisar_backfill r =
    (r.source_id ≡ "nisar-ssar-beta-gcov")
    × (r.provider_route ≡ some "bhoonidhi:NISAR_SSAR-Beta_GCOV")
    × (bhoonidhi_sar_mode r.mode ≡ true)
    × (r.date_end ≤ r.date_start + 366)

route_is-eq : (route : String) (o : Option String) → route_is route o ≡ true → o ≡ some route
route_is-eq route none h = cc
route_is-eq route (some given) h = ground (arith, eq_iff given route)

-- A chain of checks that accepts has passed each of them.
check-accepted :
    (bad : Bool) (e : RequestError) (rest : Checked)
    → check bad e rest ≡ accepted
    → (bad ≡ false) × (rest ≡ accepted)
check-accepted true e rest h = cc
check-accepted false e rest h = (refl, h)

not-false : (b : Bool) → not b ≡ false → b ≡ true
not-false true h = refl
not-false false h = cc

module _ (source route : String) (mode_ok : Bool) (r : SyncRequest) (rest : Checked) where
  check_source-accepted :
      check_source source route mode_ok r rest ≡ accepted
      → (r.source_id ≡ source)
        × (r.provider_route ≡ some route)
        × (mode_ok ≡ true)
        × (rest ≡ accepted)
  check_source-accepted h =
      let a = check-accepted (not (r.source_id == source)) wrong_source _ h in
      let b = check-accepted (not (route_is route r.provider_route)) wrong_route _ a.1 in
      let c = check-accepted (not mode_ok) wrong_mode rest b.1 in
      (
        (eq_iff r.source_id source).0 (not-false _ a.0),
        route_is-eq route r.provider_route (not-false _ b.0),
        not-false _ c.0,
        c.1,
      )

check_collection-accepted :
    (r : SyncRequest) (o : Option String)
    → lookup r.source_id resourcesat_source_collections ≡ o
    → check_collection o r ≡ accepted
    → Fits resourcesat_backfill r
check_collection-accepted r none e h = cc
check_collection-accepted r (some collection) e h =
    let a =
      check-accepted (not (route_is ("bhoonidhi:" ++ collection) r.provider_route)) wrong_route _
        h in
    let b = check-accepted (not (resourcesat_mode r.mode)) wrong_mode _ a.1 in
    (collection, e, route_is-eq _ r.provider_route (not-false _ a.0), not-false _ b.0)

mock_sync-accepted : (r : SyncRequest) → check_job_type mock_sync r ≡ accepted → Fits mock_sync r
mock_sync-accepted r h = ground arith

check_job_type-Fits : (t : JobType) (r : SyncRequest) → check_job_type t r ≡ accepted → Fits t r
check_job_type-Fits mock_sync r h = mock_sync-accepted r h
check_job_type-Fits sentinel2_backfill r h =
    let p = check_source-accepted _ _ (sentinel2_mode r.mode) r accepted h in (p.0, p.1, p.2)
check_job_type-Fits landsat_backfill r h =
    let p = check_source-accepted _ _ (landsat_mode r.mode) r accepted h in (p.0, p.1, p.2)
check_job_type-Fits resourcesat_backfill r h = check_collection-accepted r _ refl h
check_job_type-Fits eos04_backfill r h =
    let p = check_source-accepted _ _ (bhoonidhi_sar_mode r.mode) r accepted h in (p.0, p.1, p.2)
check_job_type-Fits nisar_backfill r h =
    let p = check_source-accepted _ _ (bhoonidhi_sar_mode r.mode) r _ h in
    (p.0, p.1, p.2, nisar_range r.date_start r.date_end p.3)
  where
    nisar_range :
        (start stop : ℕ)
        → check (ltb 366 (stop - start)) range_too_long accepted ≡ accepted
        → stop ≤ start + 366
    nisar_range start stop q = ground arith

-- An accepted request has an ordered date range, named texts, and the source, route and mode that
-- its job type asks for.
pub validate-Fits :
    (r : SyncRequest)
    → validate r ≡ accepted
    → Fits r.job_type r × (r.date_start ≤ r.date_end) × (r.source_id ≢ "") × (r.aoi_id ≢ "")
unfolding validate
validate-Fits r h =
    let a =
      check-accepted (r.source_id == "" || (r.aoi_id == "" || is_blank r.provider_route)) empty_text
        _ h in
    let b = check-accepted (ltb r.date_end r.date_start) date_order _ a.1 in
    (
      check_job_type-Fits r.job_type r b.1,
      ground arith,
      ground (arith, eq_iff r.source_id ""),
      ground (arith, eq_iff r.source_id "", eq_iff r.aoi_id ""),
    )
