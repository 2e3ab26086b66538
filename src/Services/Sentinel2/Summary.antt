-- ===== src/Services/Sentinel2/Summary.antt =====
-- `BackfillSummary` and the loop over the items of a search (`_process_items`). The provider, the
-- repositories of scenes and assets and the raster pipeline act on a world of any type: they are
-- the fields of `Pipeline`.
use akasha_ingestion.Base.{
  ℕ, ◌+◌, Bool, List, [], ◌∷◌, ◌++◌, String, string_eq, nat_eq, pair_eq, length,
}
use akasha_ingestion.Base.Dict.{Dict, insert, update}
use akasha_ingestion.Base.Text.{Text}
use akasha_ingestion.Schemas.{Mode}
use akasha_ingestion.Providers.Contracts.{Failure, text_of, Result}

-- What the service reads of a `NormalizedStacItem`.
pub record StacItem : Type 0 where
  pub provider_adapter : String
  pub stac_item_id : String
  pub logical_scene_key : String

pub record SearchResult : Type 0 where
  pub items : List StacItem
  pub exhausted : Bool

pub record BackfillSummary : Type 0 where
  pub searched_count : ℕ
  pub accepted_count : ℕ
  pub mirrored_asset_count : ℕ
  pub processed_count : ℕ
  pub skipped_count : ℕ
  pub failed_count : ℕ
  pub actual_source_mirror_bytes : ℕ
  pub stac_item_ids : List String
  pub logical_scene_keys : List String
  pub mirror_checksums : Dict String String
  pub failed_items : Dict String Text

unfoldable pub empty_summary : BackfillSummary
empty_summary = record {
  searched_count = 0;
  accepted_count = 0;
  mirrored_asset_count = 0;
  processed_count = 0;
  skipped_count = 0;
  failed_count = 0;
  actual_source_mirror_bytes = 0;
  stac_item_ids = [];
  logical_scene_keys = [];
  mirror_checksums = [];
  failed_items = [];
}

unfoldable pub merge_summaries : BackfillSummary → BackfillSummary → BackfillSummary
merge_summaries first second = record {
  searched_count = first.searched_count + second.searched_count;
  accepted_count = first.accepted_count + second.accepted_count;
  mirrored_asset_count = first.mirrored_asset_count + second.mirrored_asset_count;
  processed_count = first.processed_count + second.processed_count;
  skipped_count = first.skipped_count + second.skipped_count;
  failed_count = first.failed_count + second.failed_count;
  actual_source_mirror_bytes = first.actual_source_mirror_bytes + second.actual_source_mirror_bytes;
  stac_item_ids = first.stac_item_ids ++ second.stac_item_ids;
  logical_scene_keys = first.logical_scene_keys ++ second.logical_scene_keys;
  mirror_checksums = update first.mirror_checksums second.mirror_checksums;
  failed_items = update first.failed_items second.failed_items;
}

-- How the `try` block of one item ended: by a `continue`, at its end with so many outputs, by an
-- exception, or by one of the last write, when so many outputs were counted already.
pub data ItemEnd : Type 0 where
  skipped : ItemEnd
  processed : ℕ → ItemEnd
  failure : Failure → ItemEnd
  late_failure : ℕ → Failure → ItemEnd

-- With what was mirrored before that.
pub record ItemOutcome : Type 0 where
  pub mirrored : ℕ
  pub mirrored_bytes : ℕ
  pub checksums : Dict String String
  pub ending : ItemEnd

abbrev pub skipped_of : ItemEnd → ℕ
skipped_of skipped = 1
skipped_of _ = 0

abbrev pub processed_of : ItemEnd → ℕ
processed_of (processed n) = n
processed_of (late_failure n f) = n
processed_of _ = 0

abbrev pub failed_of : ItemEnd → ℕ
failed_of (failure f) = 1
failed_of (late_failure n f) = 1
failed_of _ = 0

abbrev pub record_failure : String → ItemEnd → Dict String Text → Dict String Text
record_failure id (failure f) items = insert id (text_of f) items
record_failure id (late_failure n f) items = insert id (text_of f) items
record_failure id _ items = items

-- The counters after one item, whose id and key are recorded whatever happens to it.
abbrev pub add_outcome : StacItem → ItemOutcome → BackfillSummary → BackfillSummary
add_outcome item o s = record s {
  accepted_count = s.accepted_count + 1;
  mirrored_asset_count = s.mirrored_asset_count + o.mirrored;
  processed_count = s.processed_count + processed_of o.ending;
  skipped_count = s.skipped_count + skipped_of o.ending;
  failed_count = s.failed_count + failed_of o.ending;
  actual_source_mirror_bytes = s.actual_source_mirror_bytes + o.mirrored_bytes;
  stac_item_ids = s.stac_item_ids ++ (item.stac_item_id ∷ []);
  logical_scene_keys = s.logical_scene_keys ++ (item.logical_scene_key ∷ []);
  mirror_checksums = update s.mirror_checksums o.checksums;
  failed_items = record_failure item.stac_item_id o.ending s.failed_items;
}

-- The parts of the service that stand for other modules.
pub record Pipeline (W : Type 0) : Type 0 where
  -- `_provider_search` for one day
  pub search : ℕ → W → Result SearchResult × W
  -- the body of the loop in `_process_items`, its exception handler included, where the write in the
  -- handler does not raise
  pub process_item : Mode → StacItem → W → ItemOutcome × W
  -- whether the scene of an item is registered and complete
  pub scene_complete : StacItem → W → Bool

module _ {W : Type 0} (pipe : Pipeline W) where
  unfoldable pub process_loop : Mode → List StacItem → BackfillSummary → W → BackfillSummary × W
  process_loop mode [] s w = (s, w)
  process_loop mode (item ∷ items) s w =
      let (outcome, w') = pipe.process_item mode item w in
      process_loop mode items (add_outcome item outcome s) w'

  unfoldable pub process_items : Mode → List StacItem → W → BackfillSummary × W
  unfolding process_loop empty_summary
  process_items mode items w =
      process_loop mode items (record empty_summary { searched_count = length items }) w
