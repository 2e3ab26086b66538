-- ===== src/Jobs/Store/Invariant.antt =====
-- What holds of the job store between two calls, and that no call raises a `KeyError`.
use akasha_ingestion.Base.{
  ℕ, false, Option, none, some, String, ◌≡◌, refl, inl, inr, arith, eq_iff, Bool-cases, ◌==◌,
  string_eq,
}
use akasha_ingestion.Base.Dict.{Dict, lookup, insert, lookup-insert, lookup-erase}
use akasha_ingestion.Base.Json.{Value}
use akasha_ingestion.Jobs.Store.Defs.{
  Job, JobRequest, JobStore, is_failed, empty_store, new_job, register, reuse, create_from,
  create_or_get, write_found, release, release_written, mark_running, mark_queued, mark_completed,
  mark_failed,
}

-- The job that a key names was made for that key and has not failed.
abbrev pub Serves : String → Option Job → Type 0
Serves key none = ⊥
Serves key (some job) = (job.idempotency_key ≡ key) × (is_failed job.status ≡ false)

-- What holds of the new store where a method returns; `Keeps` lets it raise, `Returns` does not.
abbrev pub Keeps : {A : Type 0} → (JobStore → Type 0) → Option (A × JobStore) → Type 0
Keeps P none = Unit
Keeps P (some (a, t)) = P t

abbrev pub Returns : {A : Type 0} → (JobStore → Type 0) → Option (A × JobStore) → Type 0
Returns P none = ⊥
Returns P (some (a, t)) = P t

pub record IsValid (s : JobStore) : Type 0 where
  pub stored : (id : String) (job : Job) → lookup id s.jobs ≡ some job → job.job_id ≡ id
  pub served :
      (key id : String) → lookup key s.by_idempotency ≡ some id → Serves key (lookup id s.jobs)

pub empty_store-IsValid : IsValid empty_store
empty_store-IsValid = record { stored = λ id job h. cc; served = λ key id h. cc }

module _ (uuid : String) (now : ℕ) (r : JobRequest) (s : JobStore) where
  pub register-IsValid : IsValid s → lookup uuid s.jobs ≡ none → IsValid (register uuid now r s).1
  register-IsValid v fresh = record {
    stored = λ id job h.
        ground (
          arith,
          lookup-insert uuid id (new_job uuid now r) s.jobs,
          eq_iff uuid id,
          v.stored id job,
        );
    served = λ key id h. ground (
      arith,
      lookup-insert uuid id (new_job uuid now r) s.jobs,
      lookup-insert r.idempotency_key key uuid s.by_idempotency,
      eq_iff uuid id,
      eq_iff r.idempotency_key key,
      v.served key id,
    );
  }

  reuse-IsValid :
      (o : Option Job)
      → Serves r.idempotency_key o
      → IsValid s
      → Returns IsValid (reuse o uuid now r s)
  reuse-IsValid none h v = h
  reuse-IsValid (some job) h v = rw h.1 v

  create_from-IsValid :
      (o : Option String)
      → lookup r.idempotency_key s.by_idempotency ≡ o
      → IsValid s
      → lookup uuid s.jobs ≡ none
      → Returns IsValid (create_from o uuid now r s)
  create_from-IsValid none e v fresh = register-IsValid v fresh
  create_from-IsValid (some owner) e v fresh =
      reuse-IsValid (lookup owner s.jobs) (v.served r.idempotency_key owner e) v

  -- A submission returns a job, never a `KeyError`, and keeps the invariant.
  pub create_or_get-IsValid :
      IsValid s → lookup uuid s.jobs ≡ none → Returns IsValid (create_or_get uuid now r s)
  unfolding create_or_get
  create_or_get-IsValid v fresh =
      create_from-IsValid (lookup r.idempotency_key s.by_idempotency) refl v fresh

-- A write that keeps the identity of the job.
abbrev pub KeepsIdentity : (Job → Job) → Type 0
KeepsIdentity f =
    (job : Job) → ((f job).job_id ≡ job.job_id) × ((f job).idempotency_key ≡ job.idempotency_key)

module _ (f : Job → Job) (keeps : KeepsIdentity f) (id : String) (s : JobStore) where
  -- After any write the ids still match, and every key but the written job's serves as before.
  written-stored :
      (job : Job)
      → lookup id s.jobs ≡ some job
      → IsValid s
      → (j : String) (k : Job) → lookup j (insert id (f job) s.jobs) ≡ some k
      → k.job_id ≡ j
  written-stored job e v j k h = ground (
    arith,
    lookup-insert id j (f job) s.jobs,
    eq_iff id j,
    keeps job,
    v.stored id job e,
    v.stored j k,
  )

  written-IsValid :
      (job : Job)
      → lookup id s.jobs ≡ some job
      → is_failed (f job).status ≡ false
      → IsValid s
      → IsValid (record s { jobs = insert id (f job) s.jobs })
  written-IsValid job e live v = record {
    stored = written-stored job e v;
    served = λ key owner h. ground (
      arith,
      lookup-insert id owner (f job) s.jobs,
      eq_iff id owner,
      keeps job,
      v.served key owner h,
    );
  }

  write_found-IsValid :
      (o : Option Job)
      → lookup id s.jobs ≡ o
      → ((job : Job) → is_failed (f job).status ≡ false)
      → IsValid s
      → Keeps IsValid (write_found o id f s)
  write_found-IsValid none e live v = tt
  write_found-IsValid (some job) e live v = written-IsValid job e (live job) v

  released-IsValid :
      (job : Job) (o : Option String)
      → lookup id s.jobs ≡ some job
      → lookup (f job).idempotency_key s.by_idempotency ≡ o
      → IsValid s
      → IsValid (release o (f job) (record s { jobs = insert id (f job) s.jobs }))
  released-IsValid job none e h v = record {
    stored = written-stored job e v;
    served = λ key owner p. ground (
      arith,
      lookup-insert id owner (f job) s.jobs,
      eq_iff id owner,
      keeps job,
      v.served key owner p,
    );
  }
  released-IsValid job (some owner') e h v = elim (Bool-cases (owner' == (f job).job_id)) [
    | inl same ↦ rw same record {
      stored = written-stored job e v;
      served = λ key owner p. ground (
        arith,
        lookup-insert id owner (f job) s.jobs,
        lookup-erase (f job).idempotency_key key s.by_idempotency,
        eq_iff (f job).idempotency_key key,
        eq_iff id owner,
        keeps job,
        v.served key owner,
      );
    }
    | inr other ↦ rw other record {
      stored = written-stored job e v;
      served = λ key owner p. ground (
        arith,
        lookup-insert id owner (f job) s.jobs,
        eq_iff id owner,
        eq_iff owner' (f job).job_id,
        keeps job,
        v.stored id job e,
        v.served key owner p,
      );
    }
  ]

module _ (id : String) (now : ℕ) (s : JobStore) where
  pub mark_running-IsValid : IsValid s → Keeps IsValid (mark_running id now s)
  unfolding mark_running
  mark_running-IsValid v =
      write_found-IsValid _ (λ job. (refl, refl)) id s (lookup id s.jobs) refl (λ job. refl) v

  pub mark_queued-IsValid : IsValid s → Keeps IsValid (mark_queued id now s)
  unfolding mark_queued
  mark_queued-IsValid v =
      write_found-IsValid _ (λ job. (refl, refl)) id s (lookup id s.jobs) refl (λ job. refl) v

  pub mark_completed-IsValid :
      (path checksum : Option String) (metadata : Option (Dict String Value))
      → IsValid s
      → Keeps IsValid (mark_completed id now path checksum metadata s)
  unfolding mark_completed
  mark_completed-IsValid path checksum metadata v =
      write_found-IsValid _ (λ job. (refl, refl)) id s (lookup id s.jobs) refl (λ job. refl) v

  fail_found-IsValid :
      (f : Job → Job) (keeps : KeepsIdentity f) (o : Option Job)
      → lookup id s.jobs ≡ o
      → IsValid s
      → Keeps IsValid (release_written (write_found o id f s))
  fail_found-IsValid f keeps none e v = tt
  fail_found-IsValid f keeps (some job) e v =
      released-IsValid f keeps id s job (lookup (f job).idempotency_key s.by_idempotency) e refl v

  -- A failure releases the key, so no key is left to a failed job.
  pub mark_failed-IsValid :
      (error : String) → IsValid s → Keeps IsValid (mark_failed id now error s)
  unfolding mark_failed
  mark_failed-IsValid error v = fail_found-IsValid _ (λ job. (refl, refl)) (lookup id s.jobs) refl v
