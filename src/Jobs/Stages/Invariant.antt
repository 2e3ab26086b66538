-- ===== src/Jobs/Stages/Invariant.antt =====
-- What holds of the stages between two calls.
use akasha_ingestion.Base.{
  ℕ, suc, ◌+◌, ◌≤◌, true, none, some, [], ◌∷◌, String, ◌≡◌, inl, inr, arith, nat_eq, string_eq,
  filter, max_of, find, count, eq_iff, count-append,
}
use akasha_ingestion.Base.Dict.{values, lookup, insert, lookup-insert, lookup-insert_inv}
use akasha_ingestion.Base.Dict.Values.{values-insert_new, find-lookup, max_of-lookup, max_of-append}
use akasha_ingestion.Jobs.Stages.Defs.{
  JobStage, StageRequest, Stages, is_stage, is_running, is_running_stage, new_stage,
}

abbrev pub largest_attempt : String → String → Stages → ℕ
largest_attempt job_id name s = max_of JobStage.attempt (filter (is_stage job_id name) (values s))

abbrev pub attempts : String → String → Stages → ℕ
attempts job_id name s = count (is_stage job_id name) (values s)

pub record IsValid (s : Stages) : Type 0 where
  pub stored : (id : String) (st : JobStage) → lookup id s ≡ some st → st.stage_id ≡ id
  -- No two stages are the same attempt, and no two attempts of one stage run.
  pub distinct :
      (i j : String) (a b : JobStage)
      → lookup i s ≡ some a
      → lookup j s ≡ some b
      → is_stage a.job_id a.stage_name b ≡ true
      → a.attempt ≡ b.attempt
      → i ≡ j
  pub alone :
      (i j : String) (a b : JobStage)
      → lookup i s ≡ some a
      → lookup j s ≡ some b
      → is_running a.status ≡ true
      → is_running_stage a.job_id a.stage_name b ≡ true
      → i ≡ j
  -- The attempts of a stage are numbered without a gap.
  pub numbered : (job_id name : String) → largest_attempt job_id name s ≡ attempts job_id name s

module _ (uuid : String) (now : ℕ) (r : StageRequest) (s : Stages) where
  abbrev pub made : JobStage
  made = new_stage uuid now (largest_attempt r.job_id r.stage_name s + 1) r

  -- A stage found after the start is the new one, or was there before.
  same_stage :
      (a b : JobStage)
      → is_stage a.job_id a.stage_name b ≡ true
      → is_stage b.job_id b.stage_name a ≡ true
  same_stage a b h = ground (
    arith,
    eq_iff a.job_id b.job_id,
    eq_iff a.stage_name b.stage_name,
    eq_iff b.job_id a.job_id,
    eq_iff b.stage_name a.stage_name,
  )

  older-lt-made :
      (i : String) (a : JobStage)
      → lookup i s ≡ some a
      → is_stage r.job_id r.stage_name a ≡ true
      → suc a.attempt ≤ made.attempt
  older-lt-made i a h same =
      omega (arith, max_of-lookup (is_stage r.job_id r.stage_name) JobStage.attempt i a s h same)

  started-distinct :
      IsValid s
      → (i j : String) (a b : JobStage) → lookup i (insert uuid made s) ≡ some a
      → lookup j (insert uuid made s) ≡ some b
      → is_stage a.job_id a.stage_name b ≡ true
      → a.attempt ≡ b.attempt
      → i ≡ j
  started-distinct v i j a b p q same eq = elim (lookup-insert_inv uuid i made s p) [
    | inl (ki, va) ↦ elim (lookup-insert_inv uuid j made s q) [
      | inl (kj, vb) ↦ cc
      | inr old ↦ ground (arith, older-lt-made j b old)
    ]
    | inr old ↦ elim (lookup-insert_inv uuid j made s q) [
      | inl (kj, vb) ↦ ground (arith, same_stage a b same, older-lt-made i a old)
      | inr old' ↦ v.distinct i j a b old old' same eq
    ]
  ]

  started-alone :
      IsValid s
      → find (is_running_stage r.job_id r.stage_name) (values s) ≡ none
      → (i j : String) (a b : JobStage) → lookup i (insert uuid made s) ≡ some a
      → lookup j (insert uuid made s) ≡ some b
      → is_running a.status ≡ true
      → is_running_stage a.job_id a.stage_name b ≡ true
      → i ≡ j
  started-alone v idle i j a b p q ra rb = elim (lookup-insert_inv uuid i made s p) [
    | inl (ki, va) ↦ elim (lookup-insert_inv uuid j made s q) [
      | inl (kj, vb) ↦ cc
      | inr old ↦
          ground (arith, find-lookup (is_running_stage r.job_id r.stage_name) j b s idle old)
    ]
    | inr old ↦ elim (lookup-insert_inv uuid j made s q) [
      | inl (kj, vb) ↦ ground (
        arith,
        same_stage a b,
        find-lookup (is_running_stage r.job_id r.stage_name) i a s idle old,
      )
      | inr old' ↦ v.alone i j a b old old' ra rb
    ]
  ]

  started-numbered :
      IsValid s
      → lookup uuid s ≡ none
      → (job_id name : String)
      → largest_attempt job_id name (insert uuid made s) ≡ attempts job_id name (insert uuid made s)
  started-numbered v fresh job_id name = rw (values-insert_new uuid made s fresh) (
      ground (
        arith,
        max_of-append (is_stage job_id name) JobStage.attempt made (values s),
        count-append (is_stage job_id name) (values s) (made ∷ []),
        v.numbered job_id name,
        eq_iff r.job_id job_id,
        eq_iff r.stage_name name,
      ))

  pub started-IsValid :
      IsValid s
      → lookup uuid s ≡ none
      → find (is_running_stage r.job_id r.stage_name) (values s) ≡ none
      → IsValid (insert uuid made s)
  started-IsValid v fresh idle = record {
    stored =
        λ id st h. ground (arith, lookup-insert uuid id made s, eq_iff uuid id, v.stored id st);
    distinct = started-distinct v;
    alone = started-alone v idle;
    numbered = started-numbered v fresh;
  }
