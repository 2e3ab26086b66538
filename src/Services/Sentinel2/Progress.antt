-- ===== src/Services/Sentinel2/Progress.antt =====
-- What a provider day does to its ledger record, on each of its ends.
use akasha_ingestion.Base.{
  ℕ, ◌+◌, ◌≤◌, true, false, Option, some, String, ◌≡◌, ◌≢◌, ◌↔◌, ◌⊎◌, refl, sym, ◌∙◌, arith, length,
  count, max, beq_refl, beq_ne, string_eq, nat_eq, pair_eq, ◌==◌,
}
use akasha_ingestion.Base.Text.{Text}
use akasha_ingestion.Base.Dict.{lookup, lookup-insert}
use akasha_ingestion.Schemas.{Mode}
use akasha_ingestion.Providers.Contracts.{
  ProviderErrorCategory, provider_error, other_error, Result, ok, raised,
}
use akasha_ingestion.Catalog.SyncLedger.{
  complete, retry, partial, SyncLedgerRecord, Ledger, LedgerKey, key_of, stamp, upsert, get,
  record_backlog,
}
use akasha_ingestion.Services.Sentinel2.Summary.{
  SearchResult, BackfillSummary, Pipeline, process_items,
}
use akasha_ingestion.Services.Sentinel2.Day.{
  retryable_category, scenes_of, processed_before, retries_of, is_full, is_empty, opened,
  search_failed, discovered, closed, DayState, after_search, execute_provider_day,
}

module _ (uuid : String) (now : ℕ) where
  -- What was upserted last under a key is what is found there.
  lookup-upsert :
      (r : SyncLedgerRecord) (ledger : Ledger)
      → lookup (key_of r) (upsert uuid now r ledger).1 ≡ some (upsert uuid now r ledger).0
  unfolding upsert
  lookup-upsert r ledger =
      let k = key_of r in
      let v = stamp (lookup k ledger) uuid now r in
      lookup-insert k k v ledger ∙ rw (beq_refl k) refl

  lookup-upsert_other :
      (k : LedgerKey) (r : SyncLedgerRecord) (ledger : Ledger)
      → (key_of r == k) ≡ false
      → lookup k (upsert uuid now r ledger).1 ≡ lookup k ledger
  unfolding upsert
  lookup-upsert_other k r ledger ne =
      lookup-insert (key_of r) k (stamp (lookup (key_of r) ledger) uuid now r) ledger ∙ rw ne refl

-- How the record of a day with a search result stands to the record before it and to the run.
pub record IsAdvanced (before : Option SyncLedgerRecord) (mode : Mode) (result : SearchResult)
    (summary : BackfillSummary) (r : SyncLedgerRecord) : Type 0 where
  -- No acquisition and no processed scene of an earlier day record is lost.
  pub scenes_kept : scenes_of before ≤ r.scene_count
  pub scenes_found : length result.items ≤ r.scene_count
  pub processed_kept : processed_before before ≤ r.processed_count
  pub searched : r.search_complete ≡ result.exhausted
  pub settled : (r.status ≡ complete) ⊎ (r.status ≡ partial)
  pub complete_iff : (r.status ≡ complete) ↔ (
      (result.exhausted ≡ true)
      × (summary.failed_count ≡ 0)
      × (r.scene_count ≤ r.processed_count)
      × ((is_full mode ≡ true) ⊎ (is_empty result.items ≡ true)))
  pub no_backlog : r.status ≡ complete → record_backlog r ≡ 0
  pub retried :
      (r.retry_count ≡ retries_of before)
      ⊎ ((r.retry_count ≡ retries_of before + 1) × (summary.failed_count ≢ 0))

closed-IsAdvanced :
    (before : Option SyncLedgerRecord) (mode : Mode) (result : SearchResult)
    (summary : BackfillSummary) (done now : ℕ) (r : SyncLedgerRecord)
    → r.scene_count ≡ max (scenes_of before) (length result.items)
    → r.search_complete ≡ result.exhausted
    → r.retry_count ≡ retries_of before
    → IsAdvanced before mode result summary (closed result before mode summary done now r)
closed-IsAdvanced before mode result summary done now r scenes search retries = record {
  scenes_kept = omega arith;
  scenes_found = omega arith;
  processed_kept = omega arith;
  searched = search;
  settled = ground arith;
  complete_iff = ground arith;
  no_backlog = λ c. ground arith;
  retried = ground arith;
}

stamp-IsAdvanced :
    (before other : Option SyncLedgerRecord) (mode : Mode) (result : SearchResult)
    (summary : BackfillSummary) (uuid : String) (now : ℕ) (r : SyncLedgerRecord)
    → IsAdvanced before mode result summary r
    → IsAdvanced before mode result summary (stamp other uuid now r)
stamp-IsAdvanced before other mode result summary uuid now r a = record {
  scenes_kept = a.scenes_kept;
  scenes_found = a.scenes_found;
  processed_kept = a.processed_kept;
  searched = a.searched;
  settled = a.settled;
  complete_iff = a.complete_iff;
  no_backlog = a.no_backlog;
  retried = a.retried;
}

module _ {W : Type 0} (pipe : Pipeline W) (uuid : String) (now : ℕ) (source_id aoi_id : String)
    (date : ℕ) (mode : Mode) (s : DayState W) where
  abbrev key : LedgerKey
  key = (source_id, (aoi_id, date))

  -- After a search that returned, the day's record is there, keeps what earlier runs of the day had
  -- found and processed, is `complete` exactly when the search was exhausted, no item failed, every
  -- known scene is processed and the run was a full one (or the day is empty), and a complete record
  -- leaves no backlog.
  pub execute_provider_day-IsAdvanced :
      (result : SearchResult) (w : W)
      → pipe.search date s.world ≡ (ok result, w)
      → (r : SyncLedgerRecord) × (get source_id aoi_id date
            (execute_provider_day pipe uuid now source_id aoi_id date mode s).1.ledger
          ≡ some r)
        × IsAdvanced
            (get source_id aoi_id date s.ledger)
            mode
            result
            (process_items pipe mode result.items w).0
            r
  unfolding execute_provider_day get upsert
  execute_provider_day-IsAdvanced result w found =
      let before = get source_id aoi_id date s.ledger in
      let first = upsert uuid now (opened source_id aoi_id date mode now before) s.ledger in
      let searched = upsert uuid now (discovered result before now first.0) first.1 in
      let worked = process_items pipe mode result.items w in
      let done = count (λ item. pipe.scene_complete item worked.1) result.items in
      let last = closed result before mode worked.0 done now searched.0 in
      rw found (
        (upsert uuid now last searched.1).0,
        lookup-upsert uuid now last searched.1,
        stamp-IsAdvanced before (lookup key searched.1) mode result worked.0 uuid now last
            (closed-IsAdvanced before mode result worked.0 done now searched.0 refl refl refl),
      )

  -- A provider error of the search is raised again, and the day's record waits for a retry exactly
  -- when the error is one that passes; the error counts as one more retry. It also forgets the
  -- scenes and the processed scenes that earlier runs of the day had found.
  pub execute_provider_day-search_failed :
      (category : ProviderErrorCategory) (message : Text) (w : W)
      → pipe.search date s.world ≡ (raised (provider_error category message), w)
      → (r : SyncLedgerRecord) × (get source_id aoi_id date
            (execute_provider_day pipe uuid now source_id aoi_id date mode s).1.ledger
          ≡ some r)
        × ((execute_provider_day pipe uuid now source_id aoi_id date mode s).0
            ≡ raised (provider_error category message))
        × ((r.status ≡ retry) ↔ (retryable_category category ≡ true))
        × (r.last_error ≡ some message)
        × (r.retry_count ≡ retries_of (get source_id aoi_id date s.ledger) + 1)
        × (r.scene_count ≡ 0)
        × (r.processed_count ≡ 0)
  unfolding execute_provider_day get upsert
  execute_provider_day-search_failed category message w found =
      let before = get source_id aoi_id date s.ledger in
      let first = upsert uuid now (opened source_id aoi_id date mode now before) s.ledger in
      let last = search_failed category message now first.0 in
      rw found (
        (upsert uuid now last first.1).0,
        lookup-upsert uuid now last first.1,
        refl,
        ground arith,
        refl,
        refl,
        refl,
        refl,
      )

  after_search-other :
      (out : Result SearchResult) (before : Option SyncLedgerRecord) (r : SyncLedgerRecord)
      (ledger : Ledger) (w : W) (k : LedgerKey)
      → (key_of r == k) ≡ false
      → lookup k (after_search pipe uuid now mode out before r ledger w).1.ledger ≡ lookup k ledger
  unfolding upsert
  after_search-other (ok result) before r ledger w k ne =
      let searched = upsert uuid now (discovered result before now r) ledger in
      let worked = process_items pipe mode result.items w in
      let done = count (λ item. pipe.scene_complete item worked.1) result.items in
      lookup-upsert_other uuid now k (closed result before mode worked.0 done now searched.0)
        searched.1 ne
      ∙ lookup-upsert_other uuid now k (discovered result before now r) ledger ne
  after_search-other (raised (provider_error category message)) before r ledger w k ne =
      lookup-upsert_other uuid now k (search_failed category message now r) ledger ne
  after_search-other (raised (other_error message)) before r ledger w k ne = refl

  -- A provider day changes no other record of the ledger.
  pub execute_provider_day-other :
      (k : LedgerKey)
      → k ≢ (source_id, (aoi_id, date))
      → lookup k (execute_provider_day pipe uuid now source_id aoi_id date mode s).1.ledger
        ≡ lookup k s.ledger
  unfolding execute_provider_day upsert
  execute_provider_day-other k ne =
      let first = opened source_id aoi_id date mode now (get source_id aoi_id date s.ledger) in
      let apart = beq_ne key k (λ e. ne (sym e)) in
      after_search-other (pipe.search date s.world).0 (get source_id aoi_id date s.ledger)
        (upsert uuid now first s.ledger).0 (upsert uuid now first s.ledger).1
        (pipe.search date s.world).1 k apart
      ∙ lookup-upsert_other uuid now k first s.ledger apart
