-- ===== src/Services/Sentinel2/NoneRunning.antt =====
-- A recovery in the stores that calls can reach: it returns, and nothing of the job runs after it.
use akasha_ingestion.Base.{
  ℕ, true, false, Option, none, some, [], ◌∷◌, String, ◌≡◌, inl, inr, refl, ◌∙◌, arith, eq_iff,
  ◌==◌, string_eq, nat_eq, any, filter, All, text_lt, Bool-cases,
}
use akasha_ingestion.Base.Dict.{values, lookup, insert, lookup-insert}
use akasha_ingestion.Jobs.Stages.{
  JobStage, StageRequest, Stages, Result, ok, err, is_running, start_unless, start_stage,
  running_stage, write_found, mark_completed, mark_failed, list_for_job,
}
use akasha_ingestion.Jobs.Stages.Invariant.{IsValid}
use akasha_ingestion.Jobs.Stages.Reach.{
  Call, start, complete, fail, exec, StageReach, empty, next, StageReach-IsValid,
}
use akasha_ingestion.Jobs.Store.{Job, JobStore, queued, get, mark_queued}
use akasha_ingestion.Services.Sentinel2.Recovery.{recover_stages, queue_after, recover_worker_lost}
use akasha_ingestion.Services.Sentinel2.Recovered.{
  Known, runs_as, Known-insert, Left, recover_stages-Left, All-filter, All-sort_by, any-sort_by,
  any-found,
}

-- Every stage of the store stands under its id.
abbrev KnownAll : Stages → Type 0
KnownAll s = All (Known s) (values s)

abbrev KeepsKnown : Result (JobStage × Stages) → Type 0
KeepsKnown (err e) = Unit
KeepsKnown (ok (st, t)) = KnownAll t

All-insert :
    (P : JobStage → Type 0) (id : String) (v : JobStage) (s : Stages)
    → P v
    → All P (values s)
    → All P (values (insert id v s))
All-insert P id v [] h hs = (h, tt)
All-insert P id v ((j, w) ∷ s) h hs = elim (Bool-cases (j == id)) [
  | inl same ↦ rw same (h, hs.1)
  | inr other ↦ rw other (hs.0, All-insert P id v s h hs.1)
]

KnownAll-insert :
    (v : JobStage) (id : String) (s : Stages)
    → v.stage_id ≡ id
    → KnownAll s
    → KnownAll (insert id v s)
KnownAll-insert v id s named known =
    All-insert (Known (insert id v s)) id v s
      (ground (arith, lookup-insert id v.stage_id v s, eq_iff id v.stage_id))
      (Known-insert id v s (values s) known)

write_found-Known :
    (f : JobStage → JobStage) (id : String) (s : Stages) (o : Option JobStage)
    → ((st : JobStage) → (f st).stage_id ≡ st.stage_id)
    → lookup id s ≡ o
    → IsValid s
    → KnownAll s
    → KeepsKnown (write_found o id f s)
write_found-Known f id s none same found v known = tt
write_found-Known f id s (some old) same found v known =
    KnownAll-insert (f old) id s (same old ∙ v.stored id old found) known

start_unless-Known :
    (o : Option JobStage) (uuid : String) (now : ℕ) (r : StageRequest) (s : Stages)
    → KnownAll s
    → KeepsKnown (start_unless o uuid now r s)
start_unless-Known (some busy) uuid now r s known = tt
start_unless-Known none uuid now r s known = KnownAll-insert _ uuid s refl known

exec-Known : (c : Call) (s : Stages) → IsValid s → KnownAll s → KeepsKnown (exec c s)
unfolding exec start_stage mark_completed mark_failed
exec-Known (start uuid now r) s v known =
    start_unless-Known (running_stage r.job_id r.stage_name s) uuid now r s known
exec-Known (complete id now metadata) s v known =
    write_found-Known _ id s (lookup id s) (λ st. refl) refl v known
exec-Known (fail id now code message metadata) s v known =
    write_found-Known _ id s (lookup id s) (λ st. refl) refl v known

StageReach-Known : {s : Stages} → StageReach s → KnownAll s
StageReach-Known empty = tt
StageReach-Known (next {s} {t} {st} c r fresh e) =
    let k : KeepsKnown (exec c s) = exec-Known c s (StageReach-IsValid r) (StageReach-Known r) in
    rw e at k

-- No stage of the job runs.
abbrev pub NoneRuns : String → Stages → Type 0
NoneRuns job_id t =
    (id : String) (st : JobStage)
    → lookup id t ≡ some st
    → st.job_id ≡ job_id
    → is_running st.status ≡ false

listed-Known : (job_id : String) (s : Stages) → KnownAll s → All (Known s) (list_for_job job_id s)
unfolding list_for_job text_lt
listed-Known job_id s known =
    All-sort_by (Known s) _ (filter (λ st. st.job_id == job_id) (values s))
      (All-filter (Known s) (λ st. st.job_id == job_id) (values s) known)

-- A running stage of the job is among those that the loop meets.
listed-runs :
    (job_id id : String) (st : JobStage) (s : Stages)
    → lookup id s ≡ some st
    → st.stage_id ≡ id
    → st.job_id ≡ job_id
    → is_running st.status ≡ true
    → any (runs_as id) (list_for_job job_id s) ≡ true
unfolding list_for_job text_lt
listed-runs job_id id st s found named own busy =
    any-sort_by (runs_as id) _ (filter (λ x. x.job_id == job_id) (values s))
    ∙ any-found (runs_as id) (λ x. x.job_id == job_id) id st s found
        ((eq_iff st.job_id job_id).1 own) (ground (arith, eq_iff st.stage_id id))

Left-NoneRuns :
    (job_id : String) (s t : Stages)
    → IsValid s
    → Left (list_for_job job_id s) s (some t)
    → NoneRuns job_id t
Left-NoneRuns job_id s t v h = λ id st e own. elim (h id st e) [
  | inl stopped ↦ stopped
  | inr (there, unmet) ↦ elim (Bool-cases (is_running st.status)) [
    | inl busy ↦ cc (listed-runs job_id id st s there (v.stored id st there) own busy, unmet)
    | inr idle ↦ idle
  ]
]

-- What a recovery comes to.
abbrev pub IsRecovered : String → Option (Stages × JobStore) → Type 0
IsRecovered job_id none = ⊥
IsRecovered job_id (some (t, u)) =
    NoneRuns job_id t × ((job : Job) × (get job_id u ≡ some job) × (job.status ≡ queued))

queue_after-IsRecovered :
    (job_id : String) (now : ℕ) (s : Stages) (store : JobStore) (job : Job) (o : Option Stages)
    → IsValid s
    → get job_id store ≡ some job
    → Left (list_for_job job_id s) s o
    → IsRecovered job_id (queue_after o job_id now store)
unfolding get mark_queued
queue_after-IsRecovered job_id now s store job none v found h = h
queue_after-IsRecovered job_id now s store job (some t) v found h =
    let again = record job { status = queued; updated_at = now } in
    let there : lookup job_id store.jobs ≡ some job = found in
    rw there (
      Left-NoneRuns job_id s t v h,
      (
        again,
        lookup-insert job_id job_id again store.jobs ∙ rw ((eq_iff job_id job_id).1 refl) refl,
        refl,
      ),
    )

-- In a stage store that calls can reach, the recovery of a job that the job store holds returns;
-- afterwards no stage of the job runs, and the job is queued.
pub recover_worker_lost-IsRecovered :
    (job_id : String) (now : ℕ) (store : JobStore) (job : Job) {s : Stages}
    → StageReach s
    → get job_id store ≡ some job
    → IsRecovered job_id (recover_worker_lost job_id now s store)
unfolding recover_worker_lost
recover_worker_lost-IsRecovered job_id now store job {s} reach found = rw found (
    queue_after-IsRecovered job_id now s store job (recover_stages now (list_for_job job_id s) s)
      (StageReach-IsValid reach) found
      (recover_stages-Left now (list_for_job job_id s) s
        (listed-Known job_id s (StageReach-Known reach))))
