-- ===== src/Services/Sentinel2/Window.antt =====
-- `_scheduled_date_window` (src/akasha/jobs/sentinel2_tasks.py): the dates that a scheduled run asks
-- for, from the records of the sync ledger. `range` counts offsets from the first day of the seed.
use akasha_ingestion.Base.{
  ℕ, zero, suc, ◌+◌, ◌-◌, Bool, not, ◌&&◌, List, [], ◌∷◌, ◌++◌, leb, ◌==◌, nat_eq, any, filter, map,
  min,
}
use akasha_ingestion.Catalog.SyncLedger.{SyncLedgerRecord, is_complete}

-- The settings `sentinel2_preload_date_window_days` and `sentinel2_preload_refresh_days`, both
-- above 0.
pub record WindowSettings : Type 0 where
  pub date_window_days : ℕ
  pub refresh_days : ℕ

abbrev pub days_from : ℕ → ℕ → List ℕ
days_from start zero = []
days_from start (suc n) = start ∷ days_from (start + 1) n

abbrev pub is_known : ℕ → List SyncLedgerRecord → Bool
is_known date records = any (λ r. r.provider_date == date) records

abbrev pub missing_dates : List SyncLedgerRecord → List ℕ → List ℕ
missing_dates records days = filter (λ d. not (is_known d records)) days

abbrev pub is_open : ℕ → SyncLedgerRecord → Bool
is_open last r = not (is_complete r.status) && leb r.provider_date last

abbrev pub incomplete_dates : ℕ → List SyncLedgerRecord → List ℕ
incomplete_dates last records = map SyncLedgerRecord.provider_date (filter (is_open last) records)

-- `min([first, *rest])`
abbrev pub min_of : ℕ → List ℕ → ℕ
min_of first [] = first
min_of first (x ∷ rest) = min_of (min first x) rest

abbrev pub seed_start : WindowSettings → ℕ → ℕ
seed_start settings last = last - (settings.date_window_days - 1)

abbrev pub overlap_start : WindowSettings → ℕ → ℕ
overlap_start settings last = last - (settings.refresh_days - 1)

-- The records are those of the ledger, `last` the day before today unless the caller names one.
unfoldable pub scheduled_date_window : WindowSettings → ℕ → List SyncLedgerRecord → ℕ × ℕ
scheduled_date_window settings last [] = (seed_start settings last, last)
scheduled_date_window settings last (r ∷ records) = (
  min_of (overlap_start settings last) (
      missing_dates (r ∷ records) (days_from (seed_start settings last) settings.date_window_days)
      ++ incomplete_dates last (r ∷ records)),
  last,
)
