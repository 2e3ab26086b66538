-- ===== src/Services/Sentinel2/Day.antt =====
-- `_execute_provider_day`: one provider day through the search, the items and the ledger. The clock
-- is read once for the day.
use akasha_ingestion.Base.{
  ℕ, ◌+◌, Bool, true, false, not, ◌&&◌, ◌||◌, Option, none, some, List, [], ◌∷◌, String,
  if◌then◌else◌, leb, nat_beq, string_eq, nat_eq, pair_eq, length, count, max,
}
use akasha_ingestion.Base.Dict.{Dict}
use akasha_ingestion.Base.Json.{Value, text}
use akasha_ingestion.Base.Text.{Text}
use akasha_ingestion.Schemas.{Mode, full_pipeline, metadata_only, mirror_only}
use akasha_ingestion.Providers.Contracts.{
  ProviderErrorCategory, provider_sla_unavailable, source_rate_limited, external_asset_read_failed,
  download_failed, provider_error, other_error, Result, ok, raised,
}
use akasha_ingestion.Catalog.SyncLedger.{
  running, complete, partial, failed, retry, SyncLedgerRecord, Ledger, upsert, get, has_error,
}
use akasha_ingestion.Services.Sentinel2.Summary.{
  StacItem, SearchResult, BackfillSummary, Pipeline, process_items,
}

abbrev pub retryable_category : ProviderErrorCategory → Bool
retryable_category provider_sla_unavailable = true
retryable_category source_rate_limited = true
retryable_category external_asset_read_failed = true
retryable_category download_failed = true
retryable_category _ = false

-- The fields of the ledger record of the day before, or what stands for them.
abbrev pub retries_of : Option SyncLedgerRecord → ℕ
retries_of none = 0
retries_of (some r) = r.retry_count

abbrev pub scenes_of : Option SyncLedgerRecord → ℕ
scenes_of none = 0
scenes_of (some r) = r.scene_count

abbrev pub processed_before : Option SyncLedgerRecord → ℕ
processed_before none = 0
processed_before (some r) = r.processed_count

abbrev pub started_of : Option SyncLedgerRecord → ℕ → Option ℕ
started_of none now = some now
started_of (some r) now = r.started_at

-- The one field of the record's metadata that the service writes.
abbrev pub mode_text : Mode → Value
mode_text metadata_only = text "metadata_only"
mode_text mirror_only = text "mirror_only"
mode_text _ = text "full_pipeline"

-- The record as it is first written for the day.
abbrev pub opened : String → String → ℕ → Mode → ℕ → Option SyncLedgerRecord → SyncLedgerRecord
opened source_id aoi_id date mode now existing = record {
  source_id = source_id;
  aoi_id = aoi_id;
  provider_date = date;
  status = running;
  scene_count = 0;
  searched_count = 0;
  processed_count = 0;
  failed_count = 0;
  retry_count = retries_of existing;
  search_complete = false;
  last_error = none;
  heartbeat_at = none;
  started_at = started_of existing now;
  completed_at = none;
  id = none;
  created_at = none;
  updated_at = none;
  metadata = ("mode", mode_text mode) ∷ [];
}

-- After a `ProviderDataError` of the search.
abbrev pub search_failed : ProviderErrorCategory → Text → ℕ → SyncLedgerRecord → SyncLedgerRecord
search_failed category message now r = record r {
  status = if retryable_category category then retry else failed;
  retry_count = r.retry_count + 1;
  last_error = some message;
  heartbeat_at = some now;
  completed_at = some now;
}

-- After the search.
abbrev pub discovered :
    SearchResult → Option SyncLedgerRecord → ℕ → SyncLedgerRecord → SyncLedgerRecord
discovered result existing now r = record r {
  searched_count = length result.items;
  scene_count = max (scenes_of existing) (length result.items);
  search_complete = result.exhausted;
  heartbeat_at = some now;
}

abbrev pub is_empty : List StacItem → Bool
is_empty [] = true
is_empty (x ∷ xs) = false

abbrev pub is_full : Mode → Bool
is_full full_pipeline = true
is_full _ = false

-- `next(iter(summary.failed_items.values()), None)`
abbrev pub first_value : Dict String Text → Option Text
first_value [] = none
first_value ((k, v) ∷ d) = some v

-- After the items were processed; `done` counts the items whose scene is complete now.
abbrev pub closed :
    SearchResult
    → Option SyncLedgerRecord
    → Mode
    → BackfillSummary
    → ℕ
    → ℕ
    → SyncLedgerRecord
    → SyncLedgerRecord
closed result existing mode summary done now r =
    let processed = max (processed_before existing) done in
    let error = first_value summary.failed_items in
    record r {
      processed_count = processed;
      failed_count = summary.failed_count;
      last_error = error;
      completed_at = some now;
      status =
          if result.exhausted
            && (nat_beq summary.failed_count 0
                && (leb r.scene_count processed && (is_full mode || is_empty result.items)))
          then complete
          else partial;
      retry_count =
          if not (nat_beq summary.failed_count 0) && has_error error
          then r.retry_count + 1
          else r.retry_count;
    }

-- The world and the ledger.
pub record DayState (W : Type 0) : Type 0 where
  pub world : W
  pub ledger : Ledger

module _ {W : Type 0} (pipe : Pipeline W) (uuid : String) (now : ℕ) where
  abbrev pub store : SyncLedgerRecord → Ledger → SyncLedgerRecord × Ledger
  store r ledger = upsert uuid now r ledger

  abbrev pub run_items :
      Mode
      → SearchResult
      → Option SyncLedgerRecord
      → SyncLedgerRecord
      → Ledger
      → W
      → Result (BackfillSummary × Bool) × DayState W
  run_items mode result existing r ledger w =
      let found = store (discovered result existing now r) ledger in
      let worked = process_items pipe mode result.items w in
      let done = count (λ item. pipe.scene_complete item worked.1) result.items in
      let last = store (closed result existing mode worked.0 done now found.0) found.1 in
      (ok (worked.0, result.exhausted), record { world = worked.1; ledger = last.1 })

  abbrev pub after_search :
      Mode
      → Result SearchResult
      → Option SyncLedgerRecord
      → SyncLedgerRecord
      → Ledger
      → W
      → Result (BackfillSummary × Bool) × DayState W
  after_search mode (ok result) existing r ledger w = run_items mode result existing r ledger w
  after_search mode (raised (provider_error category message)) existing r ledger w = (
    raised (provider_error category message),
    record { world = w; ledger = (store (search_failed category message now r) ledger).1 },
  )
  after_search mode (raised (other_error message)) existing r ledger w =
      (raised (other_error message), record { world = w; ledger = ledger })

  unfoldable pub execute_provider_day :
      String → String → ℕ → Mode → DayState W → Result (BackfillSummary × Bool) × DayState W
  execute_provider_day source_id aoi_id date mode s =
      let existing = get source_id aoi_id date s.ledger in
      let first = store (opened source_id aoi_id date mode now existing) s.ledger in
      let searched = pipe.search date s.world in
      after_search mode searched.0 existing first.0 first.1 searched.1
