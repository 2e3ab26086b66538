-- ===== src/Jobs/Table/Reach.antt =====
-- The tables that committed statements can reach, whatever their order.
use akasha_ingestion.Base.{
  ℕ, Option, none, [], String, arith, ◌≡◌, refl, subst, inl, inr, Bool-cases, any, string_eq,
}
use akasha_ingestion.Base.Dict.{Dict, values, lookup}
use akasha_ingestion.Base.Json.{Value}
use akasha_ingestion.Jobs.Store.{Job, JobRequest}
use akasha_ingestion.Jobs.Table.Defs.{
  JobTable, Result, ok, err, active_for, new_row, insert_row, mark_queued, mark_running,
  mark_completed, mark_failed,
}
use akasha_ingestion.Jobs.Table.Invariant.{IsValid, Keeps, inserted-IsValid, update_found-IsValid}

-- One statement that committed. The table makes an id that it has not.
pub data Step (t : JobTable) : JobTable → Type 0 where
  submit :
      (uuid : String) (now : ℕ) (r : JobRequest)
      → lookup uuid t ≡ none
      → Step t (insert_row (new_row uuid now r) t).1
  queue :
      (id : String) (now : ℕ) {job : Job} {u : JobTable}
      → mark_queued id now t ≡ ok (job, u)
      → Step t u
  run :
      (id : String) (now : ℕ) {job : Job} {u : JobTable}
      → mark_running id now t ≡ ok (job, u)
      → Step t u
  complete :
      (id : String) (now : ℕ) (path checksum : Option String)
      (metadata : Option (Dict String Value)) {job : Job} {u : JobTable}
      → mark_completed id now path checksum metadata t ≡ ok (job, u)
      → Step t u
  fail :
      (id : String) (now : ℕ) (error : String) {job : Job} {u : JobTable}
      → mark_failed id now error t ≡ ok (job, u)
      → Step t u

pub data Reach : JobTable → Type 0 where
  start : Reach []
  next : {t u : JobTable} → Reach t → Step t u → Reach u

at_ok :
    {A : Type 0} (P : JobTable → Type 0) (m : Result (A × JobTable)) {a : A} {u : JobTable}
    → Keeps P m
    → m ≡ ok (a, u)
    → P u
at_ok P (ok (b, w)) k e = subst P (cc) k
at_ok P (err x) k e = cc

insert_row-IsValid :
    (uuid : String) (now : ℕ) (r : JobRequest) (t : JobTable)
    → lookup uuid t ≡ none
    → IsValid t
    → IsValid (insert_row (new_row uuid now r) t).1
unfolding insert_row
insert_row-IsValid uuid now r t fresh v =
    elim (Bool-cases (any (active_for r.idempotency_key) (values t))) [
      | inl busy ↦ rw busy v
      | inr free ↦ rw free (inserted-IsValid t v (new_row uuid now r) fresh free)
    ]

Step-IsValid : {t u : JobTable} → Step t u → IsValid t → IsValid u
unfolding mark_queued mark_running mark_completed mark_failed
Step-IsValid {t} (submit uuid now r fresh) v = insert_row-IsValid uuid now r t fresh v
Step-IsValid {t} (queue id now e) v =
    at_ok IsValid _ (update_found-IsValid t v _ (λ row. (refl, refl)) id (lookup id t) refl) e
Step-IsValid {t} (run id now e) v =
    at_ok IsValid _ (update_found-IsValid t v _ (λ row. (refl, refl)) id (lookup id t) refl) e
Step-IsValid {t} (complete id now path checksum metadata e) v =
    at_ok IsValid _ (update_found-IsValid t v _ (λ row. (refl, refl)) id (lookup id t) refl) e
Step-IsValid {t} (fail id now error e) v =
    at_ok IsValid _ (update_found-IsValid t v _ (λ row. (refl, refl)) id (lookup id t) refl) e

-- In every table that statements can reach, however those of several workers mix, each key has at
-- most one row that has not failed, and each row stands under its id.
pub TableReach-IsValid : {t : JobTable} → Reach t → IsValid t
TableReach-IsValid start = record { stored = λ id row e. cc; unique = λ key. omega arith }
TableReach-IsValid (next r st) = Step-IsValid st (TableReach-IsValid r)
