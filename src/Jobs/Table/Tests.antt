-- ===== src/Jobs/Table/Tests.antt =====
-- Runs of the SQL job store, and its theorems at concrete tables.
use akasha_ingestion.Base.{true, false, none, some, [], ◌∷◌, ◌≡◌, refl, string_eq}
use akasha_ingestion.Base.Dict.{insert}
use akasha_ingestion.Base.Json.{null, text}
use akasha_ingestion.Jobs.Store.{JobRequest, completed, failed, new_job}
use akasha_ingestion.Jobs.Table.Defs.{
  JobRow, JobTable, ok, row_to_job, active_job, new_row, create_or_get, mark_completed, insert_row,
}
use akasha_ingestion.Jobs.Table.Invariant.{IsValid}
use akasha_ingestion.Jobs.Table.Reach.{submit, Reach, start, next, TableReach-IsValid}
use akasha_ingestion.Jobs.Table.Sharing.{create_or_get_race, create_or_get_twice}

abbrev request : JobRequest
request = record {
  job_type = "landsat_backfill";
  idempotency_key = "k";
  source_id = "landsat-c2-l2";
  aoi_id = "a";
  date_start = "2026-01-01";
  date_end = "2026-01-02";
}

abbrev one_row : JobTable
one_row = insert "j1" (new_row "j1" 5 request) []

one_row-Reach : Reach one_row
unfolding insert_row
one_row-Reach = next start (submit "j1" 5 request refl)

one_row-IsValid : IsValid one_row
one_row-IsValid = TableReach-IsValid one_row-Reach

-- The row after it failed, with a new row beside it.
abbrev dead : JobRow
dead = record (new_row "j1" 5 request) { status = failed }

abbrev two_rows : JobTable
two_rows = ("j1", dead) ∷ ("j2", new_row "j2" 9 request) ∷ []

completed_run :
    mark_completed "j1" 8 (some "p") none (some (("mode", text "full_pipeline") ∷ [])) one_row ≡ (
      let row = record (new_row "j1" 5 request) {
        status = completed;
        result_metadata =
            ("object_path", text "p")
            ∷ ("checksum_sha256", null)
            ∷ ("mode", text "full_pipeline")
            ∷ [];
        completed_at = some 8;
        updated_at = 8;
      } in
      ok (row_to_job row, insert "j1" row []))
unfolding mark_completed
completed_run = refl

TableReach-IsValid_example : IsValid one_row
TableReach-IsValid_example = TableReach-IsValid one_row-Reach

create_or_get_race_example :
    create_or_get "j2" 6 request [] one_row one_row
    ≡ ok ((row_to_job (new_row "j1" 5 request), false), one_row)
unfolding active_job
create_or_get_race_example =
    create_or_get_race "j1" "j1" "j2" 6 request [] one_row one_row (new_row "j1" 5 request)
      (new_row "j1" 5 request) one_row-IsValid refl refl refl refl refl

create_or_get_twice_example :
    (create_or_get "j1" 5 request [] [] [] ≡ ok ((new_job "j1" 5 request, true), one_row))
    × (create_or_get "j2" 6 request one_row [] [] ≡ ok ((new_job "j1" 5 request, false), one_row))
create_or_get_twice_example =
    create_or_get_twice "j1" "j2" 5 6 request [] [] [] refl one_row-IsValid
