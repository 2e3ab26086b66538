-- ===== src/Jobs/Stages/Ending.antt =====
-- The end of an attempt, by `mark_completed` or `mark_failed`, keeps the invariant.
use akasha_ingestion.Base.{
  true, false, some, String, ◌≡◌, inl, inr, arith, nat_eq, string_eq, eq_iff,
}
use akasha_ingestion.Base.Dict.{lookup, insert, lookup-insert, lookup-insert_inv}
use akasha_ingestion.Base.Dict.Values.{count-insert_same, max_of-insert_same}
use akasha_ingestion.Jobs.Stages.Defs.{JobStage, Stages, is_stage, is_running, is_running_stage}
use akasha_ingestion.Jobs.Stages.Invariant.{largest_attempt, attempts, IsValid}

-- A write that ends an attempt: the stage, its number and its id stay.
pub record Ends (f : JobStage → JobStage) : Type 0 where
  pub same_id : (st : JobStage) → (f st).stage_id ≡ st.stage_id
  pub same_job : (st : JobStage) → (f st).job_id ≡ st.job_id
  pub same_name : (st : JobStage) → (f st).stage_name ≡ st.stage_name
  pub same_attempt : (st : JobStage) → (f st).attempt ≡ st.attempt
  pub stops : (st : JobStage) → is_running (f st).status ≡ false

module _ (f : JobStage → JobStage) (ends : Ends f) (id : String) (old : JobStage) (s : Stages) where
  ended-distinct :
      lookup id s ≡ some old
      → IsValid s
      → (i j : String) (a b : JobStage) → lookup i (insert id (f old) s) ≡ some a
      → lookup j (insert id (f old) s) ≡ some b
      → is_stage a.job_id a.stage_name b ≡ true
      → a.attempt ≡ b.attempt
      → i ≡ j
  ended-distinct found v i j a b p q same eq = elim (lookup-insert_inv id i (f old) s p) [
    | inl (ki, va) ↦ elim (lookup-insert_inv id j (f old) s q) [
      | inl (kj, vb) ↦ cc
      | inr other ↦ ground (
        arith,
        v.distinct id j old b found other,
        ends.same_job old,
        ends.same_name old,
        ends.same_attempt old,
      )
    ]
    | inr other ↦ elim (lookup-insert_inv id j (f old) s q) [
      | inl (kj, vb) ↦ ground (
        arith,
        v.distinct i id a old other found,
        ends.same_job old,
        ends.same_name old,
        ends.same_attempt old,
      )
      | inr other' ↦ v.distinct i j a b other other' same eq
    ]
  ]

  ended-alone :
      IsValid s
      → (i j : String) (a b : JobStage) → lookup i (insert id (f old) s) ≡ some a
      → lookup j (insert id (f old) s) ≡ some b
      → is_running a.status ≡ true
      → is_running_stage a.job_id a.stage_name b ≡ true
      → i ≡ j
  ended-alone v i j a b p q ra rb = elim (lookup-insert_inv id i (f old) s p) [
    | inl (ki, va) ↦ ground (arith, ends.stops old)
    | inr other ↦ elim (lookup-insert_inv id j (f old) s q) [
      | inl (kj, vb) ↦ ground (arith, ends.stops old)
      | inr other' ↦ v.alone i j a b other other' ra rb
    ]
  ]

  ended-numbered :
      lookup id s ≡ some old
      → IsValid s
      → (job_id name : String)
      → largest_attempt job_id name (insert id (f old) s)
        ≡ attempts job_id name (insert id (f old) s)
  ended-numbered found v job_id name =
      let same : is_stage job_id name (f old) ≡ is_stage job_id name old =
        ground (arith, ends.same_job old, ends.same_name old) in
      rw (max_of-insert_same _ JobStage.attempt id (f old) old s found same (ends.same_attempt old))
        (rw (count-insert_same (is_stage job_id name) id (f old) old s found same)
          (v.numbered job_id name))

  pub ended-IsValid : lookup id s ≡ some old → IsValid s → IsValid (insert id (f old) s)
  ended-IsValid found v = record {
    stored = λ j st h. ground (
      arith,
      lookup-insert id j (f old) s,
      eq_iff id j,
      v.stored j st,
      v.stored id old found,
      ends.same_id old,
    );
    distinct = ended-distinct found v;
    alone = ended-alone v;
    numbered = ended-numbered found v;
  }
