-- ===== src/Services/Sentinel2/Item.antt =====
-- The body of the loop in `_process_items`, with `_scene_is_complete`, `_complete_scene_outputs` and
-- `_register_scene`. The repositories and the raster pipeline are the fields of `Operations`; each call
-- of them may raise.
use akasha_ingestion.Base.{
  ℕ, ◌+◌, Bool, true, false, not, ◌&&◌, ◌||◌, Option, none, some, List, [], ◌∷◌, String,
  if◌then◌else◌, length, sum_of, all, any, ◌==◌, string_eq,
}
use akasha_ingestion.Base.Dict.{Dict, insert}
use akasha_ingestion.Base.Text.{Text}
use akasha_ingestion.Schemas.{Mode, metadata_only, mirror_only}
use akasha_ingestion.Providers.Contracts.{
  Failure, provider_error, other_error, text_of, Result, ok, raised,
}
use akasha_ingestion.Services.Sentinel2.Summary.{
  StacItem, ItemEnd, ItemOutcome, skipped, processed, failure, late_failure,
}
use Prim.Native.String.{◌++◌}

pub data ProcessingState : Type 0 where
  pending processing complete retrying failed : ProcessingState

-- What the service reads and writes of a `ProviderSceneRecord`; the rest stands in `item`.
pub record Scene : Type 0 where
  pub id : Option String
  pub item : StacItem
  pub processing_state : ProcessingState
  pub retry_count : ℕ
  pub last_error : Option Text
  pub last_attempt_at : Option ℕ
  pub pgstac_item_id : Option String

-- What it reads of a `SceneAssetRecord`.
pub record Asset : Type 0 where
  pub asset_key : String
  pub size_bytes : Option ℕ
  pub mirror_checksum_sha256 : Option String

-- An operation that works on a scene returns the scene object as it leaves it.
pub record Operations (W : Type 0) : Type 0 where
  pub get_scene : StacItem → W → Result (Option Scene)
  pub put_scene : Scene → W → Result Scene × W
  pub output_names : String → W → Result (List String)
  -- whether there is a pgSTAC repository
  pub publishes : Bool
  pub publish_scene : Scene → W → (Result {0} Unit × Scene) × W
  pub store_manifests : StacItem → W → Result {0} Unit × W
  pub validate_required_assets : StacItem → Result {0} Unit
  pub register_assets : Scene → W → Result (List Asset) × W
  pub mirror_assets : StacItem → List Asset → W → Result (List Asset) × W
  pub process_scene : Scene → List Asset → W → (Result ℕ × Scene) × W

-- The names of `SENTINEL2_INDEX_ASSETS`.
abbrev pub index_names : List String
index_names = "ndvi" ∷ "msavi" ∷ "ndmi" ∷ "ndbi" ∷ "ndre" ∷ "reci" ∷ []

abbrev pub is_member : String → List String → Bool
is_member name names = any (λ n. n == name) names

abbrev pub is_complete_state : ProcessingState → Bool
is_complete_state complete = true
is_complete_state _ = false

abbrev pub is_some_text : Option String → Bool
is_some_text none = false
is_some_text (some s) = true

-- `record.size_bytes or 0`, `record.mirror_checksum_sha256 or ""`
abbrev pub bytes_of : Asset → ℕ
bytes_of a = elim a.size_bytes [ none ↦ 0 | some n ↦ n ]

abbrev pub checksum_of : Asset → String
checksum_of a = elim a.mirror_checksum_sha256 [ none ↦ "" | some s ↦ s ]

abbrev pub checksums_from : String → List Asset → Dict String String → Dict String String
checksums_from id [] sums = sums
checksums_from id (a ∷ assets) sums =
    checksums_from id assets (insert (id ++ ":" ++ a.asset_key) (checksum_of a) sums)

abbrev pub outcome_of : String → List Asset → ItemEnd → ItemOutcome
outcome_of id assets e = record {
  mirrored = length assets;
  mirrored_bytes = sum_of bytes_of assets;
  checksums = checksums_from id assets [];
  ending = e;
}

abbrev pub nothing_mirrored : ItemEnd → ItemOutcome
nothing_mirrored e = record { mirrored = 0; mirrored_bytes = 0; checksums = []; ending = e }

abbrev pub state_after : Failure → ProcessingState
state_after (provider_error category message) = retrying
state_after (other_error message) = failed

abbrev pub mark_failed : Failure → ℕ → Scene → Scene
mark_failed f now s = record s {
  processing_state = state_after f;
  retry_count = s.retry_count + 1;
  last_error = some (text_of f);
  last_attempt_at = some now;
}

abbrev pub mark_complete : Scene → Scene
mark_complete s = record s { processing_state = complete; last_error = none }

abbrev pub mark_processing : ℕ → Scene → Scene
mark_processing now s = record s { processing_state = processing; last_attempt_at = some now }

abbrev pub retries_before : Option Scene → ℕ
retries_before none = 0
retries_before (some s) = s.retry_count

abbrev pub error_before : Option Scene → Option Text
error_before none = none
error_before (some s) = s.last_error

abbrev pub new_scene : StacItem → Option Scene → Scene
new_scene item existing = record {
  id = none;
  item = item;
  processing_state = pending;
  retry_count = retries_before existing;
  last_error = error_before existing;
  last_attempt_at = none;
  pgstac_item_id = none;
}

-- The body of `except` has no scene to mark.
abbrev pub fail_unmarked : {W : Type 0} → Failure → W → Result ItemOutcome × W
fail_unmarked f w = (ok (nothing_mirrored (failure f)), w)

-- The outcome after the write of the scene in `except`, which leaves the loop if it raises.
abbrev pub after_mark : {W : Type 0} → ItemOutcome → Result Scene × W → Result ItemOutcome × W
after_mark o (ok s, w) = (ok o, w)
after_mark o (raised f, w) = (raised f, w)

-- The outcome after the write of an existing scene that is complete.
abbrev pub after_completion : {W : Type 0} → Result Scene × W → Result ItemOutcome × W
after_completion (ok s, w) = (ok (nothing_mirrored skipped), w)
after_completion (raised f, w) = fail_unmarked f w

abbrev pub has_all : Result (List String) → Result Bool
has_all (raised f) = raised f
has_all (ok names) = ok (all (λ name. is_member name names) index_names)

abbrev pub and_published : Bool → Result Bool → Result Bool
and_published published (raised f) = raised f
and_published published (ok outputs) = ok (outputs && published)

module _ {W : Type 0} (ops : Operations W) where
  -- `_complete_scene_outputs(scene) is not None`
  abbrev pub has_outputs : Option String → W → Result Bool
  has_outputs none w = ok false
  has_outputs (some id) w = has_all (ops.output_names id w)

  unfoldable pub scene_is_complete : Scene → W → Result Bool
  scene_is_complete s w =
      and_published (not ops.publishes || is_some_text s.pgstac_item_id) (has_outputs s.id w)

  abbrev pub register_found : StacItem → Result (Option Scene) → W → Result Scene × W
  register_found item (raised f) w = (raised f, w)
  register_found item (ok existing) w = ops.put_scene (new_scene item existing) w

  -- `_register_scene`
  unfoldable pub register_scene : StacItem → W → Result Scene × W
  register_scene item w = register_found item (ops.get_scene item w) w

  -- The `except` clause once the scene is registered.
  abbrev pub fail_scene : ℕ → ItemOutcome → Failure → Scene → W → Result ItemOutcome × W
  fail_scene now o f s w = after_mark o (ops.put_scene (mark_failed f now s) w)

  -- The last write of the `try` block.
  abbrev pub after_last :
      ℕ → StacItem → List Asset → ℕ → Scene → Result Scene × W → Result ItemOutcome × W
  after_last now item assets n s (ok kept, w) =
      (ok (outcome_of item.stac_item_id assets (processed n)), w)
  after_last now item assets n s (raised f, w) =
      fail_scene now (outcome_of item.stac_item_id assets (late_failure n f)) f s w

  abbrev pub after_process :
      ℕ → StacItem → List Asset → (Result ℕ × Scene) × W → Result ItemOutcome × W
  after_process now item assets ((ok n, s), w) =
      after_last now item assets n (mark_complete s) (ops.put_scene (mark_complete s) w)
  after_process now item assets ((raised f, s), w) =
      fail_scene now (outcome_of item.stac_item_id assets (failure f)) f s w

  abbrev pub after_start :
      ℕ → StacItem → List Asset → Scene → Result Scene × W → Result ItemOutcome × W
  after_start now item assets s (ok kept, w) =
      after_process now item assets (ops.process_scene s assets w)
  after_start now item assets s (raised f, w) =
      fail_scene now (outcome_of item.stac_item_id assets (failure f)) f s w

  abbrev pub work_on : ℕ → StacItem → List Asset → Scene → W → Result ItemOutcome × W
  work_on now item assets s w =
      after_start now item assets (mark_processing now s) (ops.put_scene (mark_processing now s) w)

  abbrev pub mirror_stops : Mode → Bool
  mirror_stops mirror_only = true
  mirror_stops _ = false

  abbrev pub after_mirror :
      ℕ → Mode → StacItem → Scene → Result (List Asset) × W → Result ItemOutcome × W
  after_mirror now mode item s (raised f, w) = fail_scene now (nothing_mirrored (failure f)) f s w
  after_mirror now mode item s (ok assets, w) =
      if mirror_stops mode
      then (ok (outcome_of item.stac_item_id assets skipped), w)
      else work_on now item assets s w

  abbrev pub metadata_stops : Mode → Bool
  metadata_stops metadata_only = true
  metadata_stops _ = false

  abbrev pub after_assets :
      ℕ → Mode → StacItem → Scene → Result (List Asset) × W → Result ItemOutcome × W
  after_assets now mode item s (raised f, w) = fail_scene now (nothing_mirrored (failure f)) f s w
  after_assets now mode item s (ok assets, w) =
      if metadata_stops mode
      then (ok (nothing_mirrored skipped), w)
      else after_mirror now mode item s (ops.mirror_assets item assets w)

  abbrev pub after_validate :
      ℕ → Mode → StacItem → Scene → Result {0} Unit → W → Result ItemOutcome × W
  after_validate now mode item s (raised f) w = fail_scene now (nothing_mirrored (failure f)) f s w
  after_validate now mode item s (ok done) w =
      after_assets now mode item s (ops.register_assets s w)

  abbrev pub after_manifests :
      ℕ → Mode → StacItem → Scene → Result {0} Unit × W → Result ItemOutcome × W
  after_manifests now mode item s (raised f, w) =
      fail_scene now (nothing_mirrored (failure f)) f s w
  after_manifests now mode item s (ok done, w) =
      after_validate now mode item s (ops.validate_required_assets item) w

  abbrev pub after_register : ℕ → Mode → StacItem → Result Scene × W → Result ItemOutcome × W
  after_register now mode item (raised f, w) = fail_unmarked f w
  after_register now mode item (ok s, w) =
      after_manifests now mode item s (ops.store_manifests item w)

  unfoldable pub ingest : ℕ → Mode → StacItem → W → Result ItemOutcome × W
  unfolding register_scene
  ingest now mode item w = after_register now mode item (register_scene item w)

  -- A scene with all its outputs that was not published.
  abbrev pub after_publish : (Result {0} Unit × Scene) × W → Result ItemOutcome × W
  after_publish ((ok done, s), w) = after_completion (ops.put_scene (mark_complete s) w)
  after_publish ((raised f, s), w) = fail_unmarked f w

  abbrev pub skip_complete : Scene → W → Result ItemOutcome × W
  skip_complete s w =
      if is_complete_state s.processing_state
      then (ok (nothing_mirrored skipped), w)
      else after_completion (ops.put_scene (mark_complete s) w)

  -- What `_complete_scene_outputs` tells of a scene that is not complete.
  abbrev pub by_outputs : ℕ → Mode → StacItem → Scene → Result Bool → W → Result ItemOutcome × W
  by_outputs now mode item s (raised f) w = fail_unmarked f w
  by_outputs now mode item s (ok true) w = after_publish (ops.publish_scene s w)
  by_outputs now mode item s (ok false) w = ingest now mode item w

  abbrev pub by_completeness :
      ℕ → Mode → StacItem → Scene → Result Bool → W → Result ItemOutcome × W
  by_completeness now mode item s (raised f) w = fail_unmarked f w
  by_completeness now mode item s (ok true) w = skip_complete s w
  by_completeness now mode item s (ok false) w = by_outputs now mode item s (has_outputs s.id w) w

  abbrev pub process_known :
      ℕ → Mode → StacItem → Result (Option Scene) → W → Result ItemOutcome × W
  process_known now mode item (raised f) w = fail_unmarked f w
  process_known now mode item (ok none) w = ingest now mode item w
  process_known now mode item (ok (some s)) w =
      by_completeness now mode item s (scene_is_complete s w) w

  -- The outcome, or the exception that ends the loop.
  unfoldable pub process_item : ℕ → Mode → StacItem → W → Result ItemOutcome × W
  unfolding ingest scene_is_complete
  process_item now mode item w = process_known now mode item (ops.get_scene item w) w
