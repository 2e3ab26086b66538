-- ===== src/Services/Sentinel2/Tests.antt =====
-- A provider day over a small pipeline, and the theorems about it there.
use akasha_ingestion.Base.{
  ℕ, suc, ◌+◌, true, some, [], ◌∷◌, ◌≡◌, ◌↔◌, ◌≤◌, none, inr, refl, arith, nat_eq, string_eq,
  pair_eq,
}
use akasha_ingestion.Schemas.{full_pipeline}
use akasha_ingestion.Providers.Contracts.{
  provider_sla_unavailable, provider_error, other_error, ok, raised,
}
use akasha_ingestion.Catalog.SyncLedger.{complete, retry, SyncLedgerRecord, upsert, get}
use akasha_ingestion.Services.Sentinel2.Summary.{
  StacItem, SearchResult, processed, failure, Pipeline, process_items, empty_summary,
}
use akasha_ingestion.Services.Sentinel2.Day.{
  opened, retryable_category, retries_of, DayState, execute_provider_day,
}
use akasha_ingestion.Services.Sentinel2.Window.{WindowSettings, scheduled_date_window}
use akasha_ingestion.Services.Sentinel2.Coverage.{scheduled_date_window-covers}
use akasha_ingestion.Services.Sentinel2.Accounting.{Counts, outcomes, process_items-Counts}
use akasha_ingestion.Services.Sentinel2.Progress.{
  IsAdvanced, execute_provider_day-IsAdvanced, execute_provider_day-search_failed,
}

abbrev first_item : StacItem
first_item = record {
  provider_adapter = "earth";
  stac_item_id = "a";
  logical_scene_key = "scene-a";
}

abbrev second_item : StacItem
second_item = record {
  provider_adapter = "earth";
  stac_item_id = "b";
  logical_scene_key = "scene-b";
}

abbrev found : SearchResult
found = record { items = first_item ∷ second_item ∷ []; exhausted = true }

-- The world counts the items that were worked on; every search finds the two items.
abbrev pipe : Pipeline ℕ
pipe = record {
  search = λ date w. (ok found, w);
  process_item = λ mode item w.
      (record { mirrored = 2; mirrored_bytes = 10; checksums = []; ending = processed 3 }, suc w);
  scene_complete = λ item w. true;
}

-- The provider is away.
abbrev down : Pipeline ℕ
down = record pipe { search = λ date w. (raised (provider_error provider_sla_unavailable []), w) }

-- No item can be read.
abbrev broken : Pipeline ℕ
broken = record pipe {
  process_item = λ mode item w. (
    record { mirrored = 0; mirrored_bytes = 0; checksums = []; ending = failure (other_error []) },
    suc w,
  );
}

abbrev start : DayState ℕ
start = record { world = 0; ledger = [] }

-- After the day was worked on once.
abbrev worked : DayState ℕ
worked =
    unfold execute_provider_day in
    (execute_provider_day pipe "l1" 50 "s2" "area" 7 full_pipeline start).1

worked_day :
    (r : SyncLedgerRecord) × (get "s2" "area" 7 worked.ledger ≡ some r)
    × (r.status ≡ complete)
    × (r.scene_count ≡ 2)
unfolding execute_provider_day upsert get process_items empty_summary
worked_day = (_, refl, refl, refl)

process_items-Counts_example :
    Counts
      (record empty_summary { searched_count = 2 })
      (process_items broken full_pipeline (first_item ∷ second_item ∷ []) 0).0
      (first_item ∷ second_item ∷ [])
      (outcomes broken full_pipeline (first_item ∷ second_item ∷ []) 0)
process_items-Counts_example =
    process_items-Counts broken full_pipeline (first_item ∷ second_item ∷ []) 0

execute_provider_day-IsAdvanced_example :
    (r : SyncLedgerRecord) × (get "s2" "area" 7
        (execute_provider_day broken "l2" 60 "s2" "area" 7 full_pipeline worked).1.ledger
      ≡ some r)
    × IsAdvanced
        (get "s2" "area" 7 worked.ledger)
        full_pipeline
        found
        (process_items broken full_pipeline found.items worked.world).0
        r
execute_provider_day-IsAdvanced_example =
    execute_provider_day-IsAdvanced broken "l2" 60 "s2" "area" 7 full_pipeline worked found
      worked.world refl

execute_provider_day-search_failed_example :
    (r : SyncLedgerRecord) × (get "s2" "area" 7
        (execute_provider_day down "l2" 60 "s2" "area" 7 full_pipeline worked).1.ledger
      ≡ some r)
    × ((execute_provider_day down "l2" 60 "s2" "area" 7 full_pipeline worked).0
        ≡ raised (provider_error provider_sla_unavailable []))
    × ((r.status ≡ retry) ↔ (retryable_category provider_sla_unavailable ≡ true))
    × (r.last_error ≡ some [])
    × (r.retry_count ≡ retries_of (get "s2" "area" 7 worked.ledger) + 1)
    × (r.scene_count ≡ 0)
    × (r.processed_count ≡ 0)
execute_provider_day-search_failed_example =
    execute_provider_day-search_failed down "l2" 60 "s2" "area" 7 full_pipeline worked
      provider_sla_unavailable [] worked.world refl

abbrev window : WindowSettings
window = record { date_window_days = 30; refresh_days = 3 }

abbrev old_day : SyncLedgerRecord
old_day = opened "s2" "area" 40 full_pipeline 50 none

window_run : scheduled_date_window window 100 (old_day ∷ []) ≡ (40, 100)
unfolding scheduled_date_window
window_run = refl

scheduled_date_window-covers_example :
    let w = scheduled_date_window window 100 (old_day ∷ []) in (w.0 ≤ 40) × (40 ≤ w.1)
scheduled_date_window-covers_example =
    scheduled_date_window-covers window 100 40 (old_day ∷ []) (omega arith) (inr refl)
