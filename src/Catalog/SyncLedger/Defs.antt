-- ===== src/Catalog/SyncLedger/Defs.antt =====
-- `SyncLedgerRecord` and the methods of `InMemorySyncLedgerRepository`.
use akasha_ingestion.Base.{
  ℕ, ◌-◌, Bool, true, false, not, ◌&&◌, Option, none, some, List, [], ◌∷◌, String, if◌then◌else◌,
  leb, ltb, ◌==◌, string_eq, nat_eq, pair_eq, filter, count, sum_of, map,
}
use akasha_ingestion.Base.Dict.{Dict, values, lookup, insert}
use akasha_ingestion.Base.Json.{Value}
use akasha_ingestion.Base.Sort.{sort_by}
use akasha_ingestion.Base.Text.{Text}

pub data SyncLedgerStatus : Type 0 where
  running complete partial failed retry : SyncLedgerStatus

pub record SyncLedgerRecord : Type 0 where
  pub source_id : String
  pub aoi_id : String
  pub provider_date : ℕ
  pub status : SyncLedgerStatus
  pub scene_count : ℕ
  pub searched_count : ℕ
  pub processed_count : ℕ
  pub failed_count : ℕ
  pub retry_count : ℕ
  pub search_complete : Bool
  pub last_error : Option Text
  pub heartbeat_at : Option ℕ
  pub started_at : Option ℕ
  pub completed_at : Option ℕ
  pub id : Option String
  pub created_at : Option ℕ
  pub updated_at : Option ℕ
  pub metadata : Dict String Value

abbrev pub LedgerKey : Type 0
LedgerKey = String × (String × ℕ)

abbrev pub Ledger : Type 0
Ledger = Dict LedgerKey SyncLedgerRecord

abbrev pub key_of : SyncLedgerRecord → LedgerKey
key_of r = (r.source_id, (r.aoi_id, r.provider_date))

-- `a or b`
abbrev pub or_default {ℓ} : {A : Type ℓ} → Option A → A → Option A
or_default none b = some b
or_default (some a) b = some a

-- `existing.id if existing else record.id or str(uuid4())`
abbrev pub id_beside : Option SyncLedgerRecord → Option String → String → Option String
id_beside none id uuid = or_default id uuid
id_beside (some existing) id uuid = existing.id

-- `existing.created_at if existing else record.created_at or now`
abbrev pub created_beside : Option SyncLedgerRecord → Option ℕ → ℕ → Option ℕ
created_beside none created_at now = or_default created_at now
created_beside (some existing) created_at now = existing.created_at

-- The record as `upsert` stores it, beside the one that it replaces.
abbrev pub stamp : Option SyncLedgerRecord → String → ℕ → SyncLedgerRecord → SyncLedgerRecord
stamp existing uuid now r = record r {
  id = id_beside existing r.id uuid;
  created_at = created_beside existing r.created_at now;
  updated_at = some now;
  heartbeat_at = or_default r.heartbeat_at now;
}

unfoldable pub upsert : String → ℕ → SyncLedgerRecord → Ledger → SyncLedgerRecord × Ledger
upsert uuid now r ledger =
    let stored = stamp (lookup (key_of r) ledger) uuid now r in
    (stored, insert (key_of r) stored ledger)

unfoldable pub get : String → String → ℕ → Ledger → Option SyncLedgerRecord
get source_id aoi_id provider_date ledger = lookup (source_id, (aoi_id, provider_date)) ledger

abbrev pub belongs : String → String → SyncLedgerRecord → Bool
belongs source_id aoi_id r = r.source_id == source_id && r.aoi_id == aoi_id

unfoldable pub list_for_source_aoi : String → String → Ledger → List SyncLedgerRecord
list_for_source_aoi source_id aoi_id ledger =
    sort_by (λ a b. leb a.provider_date b.provider_date)
      (filter (belongs source_id aoi_id) (values ledger))

abbrev pub is_complete : SyncLedgerStatus → Bool
is_complete complete = true
is_complete _ = false

unfoldable pub incomplete_count : String → String → Ledger → ℕ
unfolding list_for_source_aoi
incomplete_count source_id aoi_id ledger =
    count (λ r. not (is_complete r.status)) (list_for_source_aoi source_id aoi_id ledger)

-- `max(xs)` of what may be empty.
abbrev pub max_of? : List ℕ → Option ℕ
max_of? [] = none
max_of? (x ∷ xs) = elim (max_of? xs) [ none ↦ some x | some m ↦ some (if ltb x m then m else x) ]

unfoldable pub latest_fully_searched_day : String → String → Ledger → Option ℕ
unfolding list_for_source_aoi
latest_fully_searched_day source_id aoi_id ledger = max_of? (
    map SyncLedgerRecord.provider_date
      (filter SyncLedgerRecord.search_complete (list_for_source_aoi source_id aoi_id ledger)))

-- `max(record.scene_count - record.processed_count, 0)`, which is subtraction on ℕ.
abbrev pub record_backlog : SyncLedgerRecord → ℕ
record_backlog r = r.scene_count - r.processed_count

unfoldable pub processing_backlog : String → String → Ledger → ℕ
unfolding list_for_source_aoi
processing_backlog source_id aoi_id ledger =
    sum_of record_backlog (list_for_source_aoi source_id aoi_id ledger)

-- The truth value of `record.last_error`.
abbrev pub has_error : Option Text → Bool
has_error none = false
has_error (some []) = false
has_error (some (c ∷ text)) = true

-- `records[-1].last_error`
abbrev pub last_of : List SyncLedgerRecord → Option Text
last_of [] = none
last_of (r ∷ rs) = elim rs [ [] ↦ r.last_error | x ∷ xs ↦ last_of rs ]

unfoldable pub last_error : String → String → Ledger → Option Text
unfolding list_for_source_aoi
last_error source_id aoi_id ledger =
    last_of (filter (λ r. has_error r.last_error) (list_for_source_aoi source_id aoi_id ledger))

abbrev pub heartbeats : List SyncLedgerRecord → List ℕ
heartbeats [] = []
heartbeats (r ∷ rs) = elim r.heartbeat_at [ none ↦ heartbeats rs | some h ↦ h ∷ heartbeats rs ]

unfoldable pub heartbeat : String → String → Ledger → Option ℕ
unfolding list_for_source_aoi
heartbeat source_id aoi_id ledger =
    max_of? (heartbeats (list_for_source_aoi source_id aoi_id ledger))
