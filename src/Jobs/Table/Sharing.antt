-- ===== src/Jobs/Table/Sharing.antt =====
-- What a submission to the table returns, and what the unique index rejects.
use akasha_ingestion.Base.{
  ℕ, Bool, true, false, none, some, [], ◌∷◌, String, ◌≡◌, refl, arith, eq_iff, string_eq, any,
}
use akasha_ingestion.Base.Dict.{values, lookup, insert, lookup-insert}
use akasha_ingestion.Base.Dict.Values.{count-insert_flip, count-lookup, filter-lookup, filter-none}
use akasha_ingestion.Jobs.Store.{JobRequest, is_failed, new_job}
use akasha_ingestion.Jobs.Table.Defs.{
  JobRow, JobTable, unique_active, ok, err, active_for, row_to_job, public_result_metadata,
  active_job, new_row, insert_row, create_or_get, update_found, mark_queued, mark_running,
}
use akasha_ingestion.Jobs.Table.Invariant.{IsValid, none-any}

-- The query for a key finds the one active row.
active_job-lookup :
    (id key : String) (row : JobRow) (t : JobTable)
    → IsValid t
    → lookup id t ≡ some row
    → active_for key row ≡ true
    → active_job key t ≡ some row
unfolding active_job
active_job-lookup id key row t v found active =
    rw (filter-lookup (active_for key) id row t found active (v.unique key)) refl

any-lookup :
    (p : JobRow → Bool) (id : String) (row : JobRow) (t : JobTable)
    → lookup id t ≡ some row
    → p row ≡ true
    → any p (values t) ≡ true
any-lookup p id row [] found hit = cc
any-lookup p id row ((j, other) ∷ t) found hit = ground (arith, any-lookup p id row t)

active_job-none :
    (key : String) (t : JobTable)
    → any (active_for key) (values t) ≡ false
    → active_job key t ≡ none
unfolding active_job
active_job-none key t free =
    rw (filter-none (active_for key) (values t) (none-any (active_for key) (values t) free)) refl

-- A submission whose key another worker's row takes before the `INSERT`, and keeps, returns that
-- row's job as it stands then, makes none and changes nothing.
pub create_or_get_race :
    (id other uuid : String) (now : ℕ) (r : JobRequest) (t at_insert later : JobTable)
    (row row' : JobRow)
    → IsValid later
    → active_job r.idempotency_key t ≡ none
    → lookup other at_insert ≡ some row
    → active_for r.idempotency_key row ≡ true
    → lookup id later ≡ some row'
    → active_for r.idempotency_key row' ≡ true
    → create_or_get uuid now r t at_insert later ≡ ok ((row_to_job row', false), later)
unfolding create_or_get insert_row
create_or_get_race id other uuid now r t at_insert later row row' v missed taken active kept
      active' =
    rw
      (
        missed,
        any-lookup (active_for r.idempotency_key) other row at_insert taken active,
        active_job-lookup id r.idempotency_key row' later v kept active',
      )
      refl

-- The job that the SQL store hands out for a new row is the job that the memory store registers.
row_to_job-new_row :
    (uuid : String) (now : ℕ) (r : JobRequest)
    → row_to_job (new_row uuid now r) ≡ new_job uuid now r
unfolding row_to_job public_result_metadata
row_to_job-new_row uuid now r = ground (arith, eq_iff r.source_id "", eq_iff r.aoi_id "")

-- With no active row for its key, a submission makes a row and returns the job that the store in
-- memory would register; the same submission then returns that job again and makes none, whatever
-- the other statements would meet.
pub create_or_get_twice :
    (uuid uuid' : String) (now now' : ℕ) (r : JobRequest) (t at_insert later : JobTable)
    → any (active_for r.idempotency_key) (values t) ≡ false
    → IsValid (insert uuid (new_row uuid now r) t)
    → let u = insert uuid (new_row uuid now r) t in
      (create_or_get uuid now r t t t ≡ ok ((new_job uuid now r, true), u))
      × (create_or_get uuid' now' r u at_insert later ≡ ok ((new_job uuid now r, false), u))
unfolding create_or_get insert_row
create_or_get_twice uuid uuid' now now' r t at_insert later free v =
    let u = insert uuid (new_row uuid now r) t in
    let own = (eq_iff r.idempotency_key r.idempotency_key).1 refl in
    let at_id = (eq_iff uuid uuid).1 refl in
    (
      rw (active_job-none r.idempotency_key t free, free, row_to_job-new_row uuid now r) refl,
      rw
          (
            active_job-lookup uuid r.idempotency_key (new_row uuid now r) u v
                (ground (arith, lookup-insert uuid uuid (new_row uuid now r) t, at_id))
                (ground (arith, own)),
            row_to_job-new_row uuid now r,
          )
          refl,
    )

-- A write that would make a second row of a key active.
indexed-rejected :
    (id other : String) (f : JobRow → JobRow) (row busy : JobRow) (t : JobTable)
    → lookup id t ≡ some row
    → lookup other t ≡ some busy
    → active_for (f row).idempotency_key row ≡ false
    → active_for (f row).idempotency_key (f row) ≡ true
    → active_for (f row).idempotency_key busy ≡ true
    → update_found (lookup id t) id f t ≡ err unique_active
indexed-rejected id other f row busy t found taken idle now_active active = rw found (
    ground (
      arith,
      count-insert_flip (active_for (f row).idempotency_key) id (f row) row t found idle now_active,
      count-lookup (active_for (f row).idempotency_key) other busy t taken active,
    ))

-- A failed job cannot be queued or run again while another row of its key is active: the database
-- rejects the statement.
pub mark_queued-rejected :
    (id other : String) (now : ℕ) (row busy : JobRow) (t : JobTable)
    → lookup id t ≡ some row
    → is_failed row.status ≡ true
    → lookup other t ≡ some busy
    → active_for row.idempotency_key busy ≡ true
    → (mark_queued id now t ≡ err unique_active) × (mark_running id now t ≡ err unique_active)
unfolding mark_queued mark_running
mark_queued-rejected id other now row busy t found has_failed taken active =
    let own = (eq_iff row.idempotency_key row.idempotency_key).1 refl in
    let idle : active_for row.idempotency_key row ≡ false = ground (arith, own) in
    (
      indexed-rejected id other _ row busy t found taken idle (ground (arith, own)) active,
      indexed-rejected id other _ row busy t found taken idle (ground (arith, own)) active,
    )
