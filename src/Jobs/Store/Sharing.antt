-- ===== src/Jobs/Store/Sharing.antt =====
-- What `create_or_get` promises to callers: one job for a key until that job fails.
use akasha_ingestion.Base.{
  ℕ, true, false, Option, none, some, String, ◌≡◌, ◌≢◌, refl, inl, inr, arith, eq_iff, Option-cases,
  string_eq,
}
use akasha_ingestion.Base.Dict.{lookup, insert, lookup-insert, lookup-erase}
use akasha_ingestion.Jobs.Store.Defs.{
  Job, JobRequest, JobStore, queued, is_failed, new_job, register, reuse, create_or_get,
  mark_running, mark_queued, mark_completed, mark_failed,
}
use akasha_ingestion.Jobs.Store.Invariant.{Serves, IsValid}
use akasha_ingestion.Jobs.Store.Reach.{Step, submit, run, queue, complete, fail, Step-IsValid}

reuse-eq :
    (uuid : String) (now : ℕ) (r : JobRequest) (s : JobStore) (o : Option Job)
    → Serves r.idempotency_key o
    → (job : Job) × (o ≡ some job) × (reuse o uuid now r s ≡ some ((job, false), s))
reuse-eq uuid now r s none h = absurd h
reuse-eq uuid now r s (some job) h = (job, refl, rw h.1 refl)

-- A submission whose key is registered returns the registered job, says that it made none, and
-- changes nothing.
pub create_or_get_registered :
    (uuid : String) (now : ℕ) (r : JobRequest) (s : JobStore) {id : String}
    → IsValid s
    → lookup r.idempotency_key s.by_idempotency ≡ some id
    → (job : Job) × (lookup id s.jobs ≡ some job)
      × (create_or_get uuid now r s ≡ some ((job, false), s))
unfolding create_or_get
create_or_get_registered uuid now r s {id} v e =
    rw e (reuse-eq uuid now r s (lookup id s.jobs) (v.served r.idempotency_key id e))

-- A submission whose key is free makes a queued job and registers it under the key.
pub create_or_get_free :
    (uuid : String) (now : ℕ) (r : JobRequest) (s : JobStore)
    → lookup r.idempotency_key s.by_idempotency ≡ none
    → create_or_get uuid now r s ≡ some (register uuid now r s)
unfolding create_or_get
create_or_get_free uuid now r s e = rw e refl

-- No call but the failure of the job itself takes a key away from it.
Step-owner :
    {s t : JobStore} {l : Option String} (key id : String)
    → Step s l t
    → l ≢ some id
    → IsValid s
    → lookup key s.by_idempotency ≡ some id
    → lookup key t.by_idempotency ≡ some id
unfolding create_or_get mark_running mark_queued mark_completed mark_failed
Step-owner {s} key id (submit uuid now r fresh e) ne v own =
    elim (Option-cases (lookup r.idempotency_key s.by_idempotency)) [
      | inl free ↦ ground (
        arith,
        create_or_get_free uuid now r s free,
        lookup-insert r.idempotency_key key uuid s.by_idempotency,
        eq_iff r.idempotency_key key,
      )
      | inr (owner, held) ↦ cc ((create_or_get_registered uuid now r s v held).2)
    ]
Step-owner {s} key id (run j now e) ne v own = ground arith
Step-owner {s} key id (queue j now e) ne v own = ground arith
Step-owner {s} key id (complete j now path checksum metadata e) ne v own = ground arith
Step-owner {s} key id (fail j now error {job} e) ne v own = elim (Option-cases (lookup j s.jobs)) [
  | inl missing ↦ ground arith
  | inr (old, found) ↦ ground (
    arith,
    v.stored j old found,
    lookup-erase job.idempotency_key key s.by_idempotency,
    eq_iff job.idempotency_key key,
    eq_iff id job.job_id,
  )
]

-- A run of calls none of which fails the job `id`.
pub data Run (id : String) (s : JobStore) : JobStore → Type 0 where
  here : Run id s s
  after : {t u : JobStore} {l : Option String} → Run id s t → Step t l u → l ≢ some id → Run id s u

Run-owner :
    (key id : String) {s t : JobStore}
    → Run id s t
    → IsValid s
    → lookup key s.by_idempotency ≡ some id
    → IsValid t × (lookup key t.by_idempotency ≡ some id)
Run-owner key id here v own = (v, own)
Run-owner key id (after r st ne) v own =
    let p = Run-owner key id r v own in (Step-IsValid st p.0, Step-owner key id st ne p.0 p.1)

-- As long as the job that a key names has not failed, after any calls, every submission with that
-- key returns that one job, makes none, and changes nothing.
pub create_or_get_once :
    {s t : JobStore} (id uuid : String) (now : ℕ) (r : JobRequest)
    → IsValid s
    → lookup r.idempotency_key s.by_idempotency ≡ some id
    → Run id s t
    → (job : Job) × (lookup id t.jobs ≡ some job)
      × (create_or_get uuid now r t ≡ some ((job, false), t))
create_or_get_once {t = t} id uuid now r v own calls =
    let p = Run-owner r.idempotency_key id calls v own in
    create_or_get_registered uuid now r t p.0 p.1

pub mark_failed-create_or_get :
    (id error uuid : String) (now now' : ℕ) (r : JobRequest) (s : JobStore) {job : Job}
    {t : JobStore}
    → IsValid s
    → lookup r.idempotency_key s.by_idempotency ≡ some id
    → mark_failed id now error s ≡ some (job, t)
    → (is_failed job.status ≡ true)
      × (job.error ≡ some error)
      × (create_or_get uuid now' r t ≡ some (register uuid now' r t))
unfolding mark_failed create_or_get
mark_failed-create_or_get id error uuid now now' r s {job} {t} v own e =
    elim (Option-cases (lookup id s.jobs)) [
      | inl missing ↦ cc
      | inr (old, found) ↦ ground (
        arith,
        v.stored id old found,
        v.served r.idempotency_key id own,
        lookup-erase r.idempotency_key r.idempotency_key s.by_idempotency,
        eq_iff r.idempotency_key r.idempotency_key,
        eq_iff id id,
      )
    ]

mark_failed-stored :
    (id error : String) (now : ℕ) (s : JobStore) {job : Job} {t : JobStore}
    → mark_failed id now error s ≡ some (job, t)
    → lookup id t.jobs ≡ some job
unfolding mark_failed
mark_failed-stored id error now s {job} {t} e = elim (Option-cases (lookup id s.jobs)) [
  | inl missing ↦ cc
  | inr (old, found) ↦ ground (arith, lookup-insert id id job s.jobs, eq_iff id id)
]

mark_failed-key :
    (id error key : String) (now : ℕ) (s : JobStore) {job : Job} {t : JobStore}
    → IsValid s
    → lookup key s.by_idempotency ≡ some id
    → mark_failed id now error s ≡ some (job, t)
    → job.idempotency_key ≡ key
unfolding mark_failed
mark_failed-key id error key now s {job} {t} v own e = elim (Option-cases (lookup id s.jobs)) [
  | inl missing ↦ cc
  | inr (old, found) ↦ ground (arith, v.served key id own)
]

-- A failed job that is queued again after its key went to a new job runs beside it: the store then
-- holds two live jobs for one key.
pub requeue_duplicates :
    (id uuid error : String) (now : ℕ) (r : JobRequest) (s : JobStore) {job : Job} {t : JobStore}
    → IsValid s
    → lookup r.idempotency_key s.by_idempotency ≡ some id
    → mark_failed id now error s ≡ some (job, t)
    → uuid ≢ id
    → let u = (register uuid now r t).1 in
      (job' : Job) × (w : JobStore) × (create_or_get uuid now r t ≡ some (register uuid now r t))
      × (mark_queued id now u ≡ some (job', w))
      × Serves r.idempotency_key (lookup id w.jobs)
      × Serves r.idempotency_key (lookup uuid w.jobs)
unfolding mark_queued
requeue_duplicates id uuid error now r s {job} {t} v own e ne =
    let u = (register uuid now r t).1 in
    let job' : Job = record job { status = queued; updated_at = now } in
    let found = mark_failed-stored id error now s e in
    let keyed = mark_failed-key id error r.idempotency_key now s v own e in
    (
      job',
      record u { jobs = insert id job' u.jobs },
      (mark_failed-create_or_get id error uuid now now r s v own e).2,
      ground (arith, lookup-insert uuid id (new_job uuid now r) t.jobs, eq_iff uuid id),
      ground (arith, lookup-insert id id job' u.jobs, eq_iff id id),
      ground (
        arith,
        lookup-insert id uuid job' u.jobs,
        lookup-insert uuid uuid (new_job uuid now r) t.jobs,
        eq_iff id uuid,
        eq_iff uuid uuid,
      ),
    )
