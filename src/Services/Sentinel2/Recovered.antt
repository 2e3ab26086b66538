-- ===== src/Services/Sentinel2/Recovered.antt =====
-- After a recovery no stage of the job runs.
use akasha_ingestion.Base.{
  ℕ, Bool, true, false, ◌&&◌, ◌||◌, Option, none, some, List, [], ◌∷◌, String, ◌≡◌, ◌⊎◌, inl, inr,
  refl, arith, eq_iff, ◌==◌, string_eq, any, filter, All, is_some, Bool-cases, Option-cases,
}
use akasha_ingestion.Base.Dict.{values, lookup, insert, lookup-insert}
use akasha_ingestion.Base.Sort.{insert_sorted, sort_by}
use akasha_ingestion.Jobs.Stages.{JobStage, Stages, is_running, mark_failed, fail_stage}
use akasha_ingestion.Services.Sentinel2.Recovery.{recover_stages}

-- Each stage in a list stands in the store under its id.
abbrev pub Known : Stages → JobStage → Type 0
Known s st = is_some (lookup st.stage_id s) ≡ true

abbrev pub runs_as : String → JobStage → Bool
runs_as id st = st.stage_id == id && is_running st.status

pub Known-insert :
    (id : String) (v : JobStage) (s : Stages) (sts : List JobStage)
    → All (Known s) sts
    → All (Known (insert id v s)) sts
Known-insert id v s [] known = tt
Known-insert id v s (st ∷ sts) known =
    (ground (arith, lookup-insert id st.stage_id v s), Known-insert id v s sts known.1)

-- What the loop leaves under each id: a stage that does not run, or what stood there, if the loop
-- met no running stage of that id.
abbrev pub Left : List JobStage → Stages → Option Stages → Type 0
Left sts s none = ⊥
Left sts s (some t) =
    (id : String) (st : JobStage)
    → lookup id t ≡ some st
    → (is_running st.status ≡ false) ⊎ ((lookup id s ≡ some st) × (any (runs_as id) sts ≡ false))

module _ (sts : List JobStage) (s : Stages) (x : JobStage) where
  Left-failed :
      (v : JobStage)
      → is_running v.status ≡ false
      → (o : Option Stages) → Left sts (insert x.stage_id v s) o
      → Left (x ∷ sts) s o
  Left-failed v stopped none h = h
  Left-failed v stopped (some t) h = λ id st e. elim (h id st e) [
    | inl idle ↦ inl idle
    | inr (there, unmet) ↦ ground (arith, lookup-insert x.stage_id id v s, eq_iff x.stage_id id)
  ]

  Left-idle : is_running x.status ≡ false → (o : Option Stages) → Left sts s o → Left (x ∷ sts) s o
  Left-idle idle none h = h
  Left-idle idle (some t) h = λ id st e. elim (h id st e) [
    | inl stopped ↦ inl stopped
    | inr (there, unmet) ↦ inr (there, ground arith)
  ]

pub recover_stages-Left :
    (now : ℕ) (sts : List JobStage) (s : Stages)
    → All (Known s) sts
    → Left sts s (recover_stages now sts s)
unfolding mark_failed
recover_stages-Left now [] s known = λ id st e. inr (e, refl)
recover_stages-Left now (x ∷ sts) s known = elim (Bool-cases (is_running x.status)) [
  | inl busy ↦ elim (Option-cases (lookup x.stage_id s)) [
    | inl missing ↦ absurd (cc (rw missing at known.0))
    | inr (old, found) ↦
        let v =
          fail_stage now "worker_lost"
            "Celery redelivered the task after its worker process exited." none old in
        rw (busy, found)
          (Left-failed sts s x v refl (recover_stages now sts (insert x.stage_id v s)) (
            recover_stages-Left now sts (insert x.stage_id v s)
              (Known-insert x.stage_id v s sts known.1)))
  ]
  | inr idle ↦
      rw idle
        (Left-idle sts s x idle (recover_stages now sts s) (recover_stages-Left now sts s known.1))
]

module _ {A : Type 0} (P : A → Type 0) where
  pub All-filter : (p : A → Bool) (xs : List A) → All P xs → All P (filter p xs)
  All-filter p [] h = tt
  All-filter p (x ∷ xs) h = elim (Bool-cases (p x)) [
    | inl kept ↦ rw kept (h.0, All-filter p xs h.1)
    | inr dropped ↦ rw dropped (All-filter p xs h.1)
  ]

  All-insert_sorted :
      (le : A → A → Bool) (x : A) (ys : List A) → P x → All P ys → All P (insert_sorted le x ys)
  All-insert_sorted le x [] h hs = (h, tt)
  All-insert_sorted le x (y ∷ ys) h hs = elim (Bool-cases (le x y)) [
    | inl first ↦ rw first (h, hs)
    | inr later ↦ rw later (hs.0, All-insert_sorted le x ys h hs.1)
  ]

  pub All-sort_by : (le : A → A → Bool) (xs : List A) → All P xs → All P (sort_by le xs)
  All-sort_by le [] h = tt
  All-sort_by le (x ∷ xs) h = All-insert_sorted le x (sort_by le xs) h.0 (All-sort_by le xs h.1)

module _ {A : Type 0} (p : A → Bool) (le : A → A → Bool) where
  any-insert_sorted : (x : A) (ys : List A) → any p (insert_sorted le x ys) ≡ (p x || any p ys)
  any-insert_sorted x [] = refl
  any-insert_sorted x (y ∷ ys) = ground (arith, any-insert_sorted x ys)

  pub any-sort_by : (xs : List A) → any p (sort_by le xs) ≡ any p xs
  any-sort_by [] = refl
  any-sort_by (x ∷ xs) = ground (arith, any-insert_sorted x (sort_by le xs), any-sort_by xs)

pub any-found :
    (p q : JobStage → Bool) (id : String) (st : JobStage) (s : Stages)
    → lookup id s ≡ some st
    → q st ≡ true
    → p st ≡ true
    → any p (filter q (values s)) ≡ true
any-found p q id st [] found own hit = cc
any-found p q id st ((j, other) ∷ s) found own hit = ground (arith, any-found p q id st s)
