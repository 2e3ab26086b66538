-- ===== src/Catalog/SyncLedger/Tests.antt =====
-- Runs of the ledger, and the theorems about its queries at a concrete one.
use akasha_ingestion.Base.{
  ◌↔◌, All, true, none, some, [], ◌∷◌, ◌≡◌, refl, nat_eq, string_eq, pair_eq,
}
use akasha_ingestion.Base.Dict.{values}
use akasha_ingestion.Catalog.SyncLedger.Defs.{
  complete, partial, SyncLedgerRecord, Ledger, incomplete_count, processing_backlog,
  list_for_source_aoi, latest_fully_searched_day,
}
use akasha_ingestion.Catalog.SyncLedger.Queries.{IsWorkedOff, processing_backlog-IsWorkedOff}

abbrev day_record : SyncLedgerRecord
day_record = record {
  source_id = "s2";
  aoi_id = "area";
  provider_date = 7;
  status = complete;
  scene_count = 3;
  searched_count = 3;
  processed_count = 3;
  failed_count = 0;
  retry_count = 0;
  search_complete = true;
  last_error = none;
  heartbeat_at = some 5;
  started_at = some 5;
  completed_at = some 5;
  id = some "l1";
  created_at = some 5;
  updated_at = some 5;
  metadata = [];
}

abbrev open_record : SyncLedgerRecord
open_record = record day_record { provider_date = 6; status = partial; processed_count = 1 }

abbrev done_ledger : Ledger
done_ledger = (("s2", ("area", 7)), day_record) ∷ []

abbrev open_ledger : Ledger
open_ledger = (("s2", ("area", 7)), day_record) ∷ (("s2", ("area", 6)), open_record) ∷ []

-- The records come in the order of their days.
listed : list_for_source_aoi "s2" "area" open_ledger ≡ open_record ∷ day_record ∷ []
unfolding list_for_source_aoi
listed = refl

latest : latest_fully_searched_day "s2" "area" open_ledger ≡ some 7
unfolding latest_fully_searched_day list_for_source_aoi
latest = refl

none_incomplete : incomplete_count "s2" "area" done_ledger ≡ 0
unfolding incomplete_count list_for_source_aoi
none_incomplete = refl

processing_backlog-IsWorkedOff_example :
    (processing_backlog "s2" "area" open_ledger ≡ 0)
    ↔ All (IsWorkedOff "s2" "area") (values open_ledger)
processing_backlog-IsWorkedOff_example = processing_backlog-IsWorkedOff "s2" "area" open_ledger
