-- ===== src/Jobs/Store/Reach.antt =====
-- The stores that calls of the job store can reach.
use akasha_ingestion.Base.{ℕ, Bool, Option, none, some, String, ◌≡◌, subst, string_eq}
use akasha_ingestion.Base.Dict.{Dict, lookup}
use akasha_ingestion.Base.Json.{Value}
use akasha_ingestion.Jobs.Store.Defs.{
  Job, JobRequest, JobStore, empty_store, create_or_get, mark_running, mark_queued, mark_completed,
  mark_failed,
}
use akasha_ingestion.Jobs.Store.Invariant.{
  Keeps, Returns, IsValid, empty_store-IsValid, create_or_get-IsValid, mark_running-IsValid,
  mark_queued-IsValid, mark_completed-IsValid, mark_failed-IsValid,
}

-- One call that returned; the label is the job that the call failed, if it failed one.
pub data Step (s : JobStore) : Option String → JobStore → Type 0 where
  submit :
      (uuid : String) (now : ℕ) (r : JobRequest) {out : Job × Bool} {t : JobStore}
      → lookup uuid s.jobs ≡ none
      → create_or_get uuid now r s ≡ some (out, t)
      → Step s none t
  run :
      (id : String) (now : ℕ) {job : Job} {t : JobStore}
      → mark_running id now s ≡ some (job, t)
      → Step s none t
  queue :
      (id : String) (now : ℕ) {job : Job} {t : JobStore}
      → mark_queued id now s ≡ some (job, t)
      → Step s none t
  complete :
      (id : String) (now : ℕ) (path checksum : Option String)
      (metadata : Option (Dict String Value)) {job : Job} {t : JobStore}
      → mark_completed id now path checksum metadata s ≡ some (job, t)
      → Step s none t
  fail :
      (id : String) (now : ℕ) (error : String) {job : Job} {t : JobStore}
      → mark_failed id now error s ≡ some (job, t)
      → Step s (some id) t

pub data Reach : JobStore → Type 0 where
  start : Reach empty_store
  next : {s t : JobStore} {l : Option String} → Reach s → Step s l t → Reach t

at_some :
    {A : Type 0} (P : JobStore → Type 0) (m : Option (A × JobStore)) {a : A} {t : JobStore}
    → Keeps P m
    → m ≡ some (a, t)
    → P t
at_some P none k e = cc
at_some P (some (b, u)) {t = t} k e = subst P (cc) k

at_returns :
    {A : Type 0} (P : JobStore → Type 0) (m : Option (A × JobStore)) {a : A} {t : JobStore}
    → Returns P m
    → m ≡ some (a, t)
    → P t
at_returns P none k e = absurd k
at_returns P (some (b, u)) {t = t} k e = subst P (cc) k

pub Step-IsValid : {s t : JobStore} {l : Option String} → Step s l t → IsValid s → IsValid t
Step-IsValid {s} (submit uuid now r fresh e) v =
    at_returns IsValid _ (create_or_get-IsValid uuid now r s v fresh) e
Step-IsValid {s} (run id now e) v = at_some IsValid _ (mark_running-IsValid id now s v) e
Step-IsValid {s} (queue id now e) v = at_some IsValid _ (mark_queued-IsValid id now s v) e
Step-IsValid {s} (complete id now path checksum metadata e) v =
    at_some IsValid _ (mark_completed-IsValid id now s path checksum metadata v) e
Step-IsValid {s} (fail id now error e) v =
    at_some IsValid _ (mark_failed-IsValid id now s error v) e

-- In every store that calls can reach, each registered key names a stored job that was made for
-- that key and has not failed, and each job is stored under its id.
pub Reach-IsValid : {s : JobStore} → Reach s → IsValid s
Reach-IsValid start = empty_store-IsValid
Reach-IsValid (next r st) = Step-IsValid st (Reach-IsValid r)
