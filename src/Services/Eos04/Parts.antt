-- ===== src/Services/Eos04/Parts.antt =====
-- The parts of a run of the EOS-04 service: what it does within its stages.
use akasha_ingestion.Base.{
  ℕ, Bool, false, ◌&&◌, ◌||◌, Option, none, some, List, [], ◌∷◌, String, map, if◌then◌else◌, ◌==◌,
  string_eq, leb, ltb, nat_beq, length, filter, take,
}
use akasha_ingestion.Base.Dict.{Dict, insert}
use akasha_ingestion.Base.Json.{
  Value, Items, number, text, array, object, nil, cons, end, field, texts,
}
use akasha_ingestion.Base.Sort.{sort_by}
use akasha_ingestion.Base.Text.{codes}
use akasha_ingestion.Providers.Contracts.{other_error, Result, ok, raised}
use akasha_ingestion.Jobs.Store.{Job}
use akasha_ingestion.Schemas.{Mode}
use akasha_ingestion.Services.Staged.{Step, bind, done, each}
use akasha_ingestion.Services.Eos04.Records.{
  BoundingBox, Candidate, Aoi, DownloadedProduct, SelectedProduct, PreparedScene, Settings,
  Operations, Summary, collection_id, stage_names, mode_limit, index_of,
}

abbrev pub source_id : String
source_id = "eos-04-sar-mrs-l2b"

abbrev pub provider_route : String
provider_route = "bhoonidhi:EOS-04_SAR-MRS_L2B"

abbrev pub processing_profile_version : String
processing_profile_version = "eos04-sar-mrs-l2b-gamma0-v3"

abbrev pub error : {A : Type 0} → String → Result A
error message = raised (other_error (codes message))

-- `_reaches`
abbrev pub reaches_limit : Option String → String → Bool
reaches_limit none stage = false
reaches_limit (some limit) stage = leb (index_of stage stage_names) (index_of limit stage_names)

unfoldable pub reaches : Mode → String → Bool
reaches mode stage = reaches_limit (mode_limit mode) stage

-- `item.acquisition_at or datetime.min`
abbrev pub moment_of : Option ℕ → ℕ
moment_of none = 0
moment_of (some t) = t

-- The order of `sorted(..., key=(overlap_area, acquisition_at), reverse=True)`: `a` may stand before
-- `b`.
abbrev pub before : Candidate → Candidate → Bool
before a b =
    ltb b.overlap_area a.overlap_area
    || nat_beq a.overlap_area b.overlap_area
      && leb (moment_of b.acquisition_at) (moment_of a.acquisition_at)

abbrev pub eligible : Candidate → Bool
eligible c = c.online && c.intersects_aoi

unfoldable pub select : ℕ → List Candidate → List Candidate
select limit candidates = take limit (sort_by before (filter eligible candidates))

-- `_candidate_geometry`
abbrev pub point : Value → Value → Items → Items
point x y rest = cons (array (cons x (cons y nil))) rest

abbrev pub polygon : BoundingBox → Value
polygon b =
    let ring = point b.west b.south (
      point b.east b.south
        (point b.east b.north (point b.west b.north (point b.west b.south nil)))) in
    object (field "type" (text "Polygon") (field "coordinates" (array (cons (array ring) nil)) end))

abbrev pub candidate_geometry : Candidate → Value
candidate_geometry c = elim c.raw_geometry [ some geometry ↦ geometry | none ↦ polygon c.bbox ]

-- `str(result.get("sha256") or file_sha256(path))`
abbrev pub given : Option String → Option String
given none = none
given (some s) = if s == "" then none else some s

abbrev pub or_empty : Option String → String
or_empty none = ""
or_empty (some s) = s

abbrev pub media_type : String
media_type = "image/tiff; application=geotiff; profile=cloud-optimized"

module _ {E : Type 0} (ops : Operations E) (settings : Settings) where
  -- The body of the stage `provider_search`: the selected candidates, the new summary, and what is
  -- written to the metadata of the stage.
  abbrev pub found : Summary → List Candidate → (List Candidate × Summary) × Dict String Value
  found summary candidates =
      let selected = select settings.eos04_max_downloads_per_run candidates in
      let ids = map Candidate.provider_product_id selected in
      (
        (
          selected,
          record summary {
            searched_count = length candidates;
            selected_count = length selected;
            product_ids = ids;
          },
        ),
        ("searched_count", number (length candidates)) ∷ ("selected_product_ids", texts ids) ∷ [],
      )

  unfoldable pub search_body :
      Aoi → Summary → Step E ((List Candidate × Summary) × Dict String Value)
  search_body aoi summary e =
      bind
        (ops.search source_id collection_id aoi summary.date_start summary.date_end
          settings.backfill_search_item_cap e)
        (λ candidates. done (found summary candidates))

  abbrev pub checksum_of : Option String → String → Step E String
  checksum_of none path e = ops.file_sha256 path e
  checksum_of (some s) path e = (ok s, e)

  -- The body of the loop of `_download`; the file is put under the scratch directory, by job and
  -- product.
  abbrev pub download_one : Job → Candidate → Step E DownloadedProduct
  download_one job c e =
      bind (ops.download_product job.job_id c.provider_product_id collection_id e) (λ r e1.
        bind (checksum_of (given r.1) r.0 e1) (λ checksum e2.
          bind (ops.put_raw_file source_id c.provider_product_id r.0 checksum e2) (λ stored.
            done (record {
              candidate = c;
              path = r.0;
              object_path = stored.0;
              checksum_sha256 = stored.1;
            }))))

  unfoldable pub download_body :
      Job
      → List Candidate
      → Summary
      → Step E ((List DownloadedProduct × Summary) × Dict String Value)
  download_body job candidates summary e = bind (each (download_one job) candidates e) (λ downloads.
      done (
        (downloads, record summary { downloaded_count = length downloads }),
        ("downloaded_count", number (length downloads)) ∷ [],
      ))

  abbrev pub selected_product : Job → DownloadedProduct → SelectedProduct
  selected_product job d = record {
    product_id = d.candidate.provider_product_id;
    package_path = d.path;
    acquisition_at = d.candidate.acquisition_at;
    aoi_id = job.aoi_id;
    bbox = d.candidate.bbox;
    geometry = candidate_geometry d.candidate;
    provider_metadata =
        insert "provider_properties" d.candidate.provider_properties d.candidate.provider_metadata;
  }

  unfoldable pub prepare_body :
      Job
      → List DownloadedProduct
      → Summary
      → Step E ((List PreparedScene × Summary) × Dict String Value)
  prepare_body job downloads summary e =
      bind (each (λ d. ops.prepare_product (selected_product job d)) downloads e) (λ prepared.
        done (
          (prepared, record summary { prepared_count = length prepared }),
          ("prepared_count", number (length prepared)) ∷ [],
        ))
