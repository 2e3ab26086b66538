-- ===== src/Services/Staged/Runs.antt =====
-- What a part of a run does to the stages of its job: it adds stages at the end, each one closed
-- before the next one starts.
use akasha_ingestion.Base.{
  ℕ, ◌≤◌, Bool, false, ◌&&◌, none, List, [], ◌∷◌, ◌++◌, String, ◌≡◌, ◌⊎◌, inl, inr, refl, ap, sym,
  subst, ◌∙◌, string_eq, ◌==◌, any,
}
use akasha_ingestion.Base.Dict.{values, lookup}
use akasha_ingestion.Base.Dict.Growth.{values-append}
use mathlib.Core.List.{append-nil, append_assoc}
use akasha_ingestion.Providers.Contracts.{Result, ok, raised}
use akasha_ingestion.Jobs.Stages.{JobStage, StageStatus, completed, failed, Stages, is_running}
use akasha_ingestion.Services.Staged.{World, Step, bind, done}

abbrev pub runs : String → JobStage → Bool
runs job_id st = st.job_id == job_id && is_running st.status

-- A stage of the job that ended well, and one that failed.
abbrev pub IsStage : String → String → StageStatus → JobStage → Type 0
IsStage job_id name status st = (st.job_id ≡ job_id) × (st.stage_name ≡ name) × (st.status ≡ status)

-- The stages are those of the names, in order, and all are completed.
abbrev pub Full : String → List String → List JobStage → Type 0
Full job_id [] [] = Unit
Full job_id [] (st ∷ sts) = ⊥
Full job_id (name ∷ names) [] = ⊥
Full job_id (name ∷ names) (st ∷ sts) = IsStage job_id name completed st × Full job_id names sts

-- The stages are the first ones of the names, in order; all are completed but the last one, which
-- may have failed.
abbrev pub Cut : String → List String → List JobStage → Type 0
Cut job_id names [] = Unit
Cut job_id [] (st ∷ sts) = ⊥
Cut job_id (name ∷ names) (st ∷ sts) =
    (IsStage job_id name completed st × Cut job_id names sts)
    ⊎ (IsStage job_id name failed st × (sts ≡ []))

pub Full-append :
    (job_id : String) (names more : List String) (sts added : List JobStage)
    → Full job_id names sts
    → Full job_id more added
    → Full job_id (names ++ more) (sts ++ added)
Full-append job_id [] more [] added f g = g
Full-append job_id [] more (st ∷ sts) added f g = elim f [ ]
Full-append job_id (name ∷ names) more [] added f g = elim f [ ]
Full-append job_id (name ∷ names) more (st ∷ sts) added f g =
    (f.0, Full-append job_id names more sts added f.1 g)

pub Full-Cut :
    (job_id : String) (names more : List String) (sts added : List JobStage)
    → Full job_id names sts
    → Cut job_id more added
    → Cut job_id (names ++ more) (sts ++ added)
Full-Cut job_id [] more [] added f g = g
Full-Cut job_id [] more (st ∷ sts) added f g = elim f [ ]
Full-Cut job_id (name ∷ names) more [] added f g = elim f [ ]
Full-Cut job_id (name ∷ names) more (st ∷ sts) added f g =
    inl (f.0, Full-Cut job_id names more sts added f.1 g)

pub Cut-more :
    (job_id : String) (names more : List String) (sts : List JobStage)
    → Cut job_id names sts
    → Cut job_id (names ++ more) sts
Cut-more job_id names more [] f = tt
Cut-more job_id [] more (st ∷ sts) f = elim f [ ]
Cut-more job_id (name ∷ names) more (st ∷ sts) (inl f) =
    inl (f.0, Cut-more job_id names more sts f.1)
Cut-more job_id (name ∷ names) more (st ∷ sts) (inr f) = inr f

module _ {A : Type 0} (job_id : String) where
  abbrev pub Ended : List String → Result A → List JobStage → Type 0
  Ended names (ok a) sts = Full job_id names sts
  Ended names (raised f) sts = Cut job_id names sts

module _ {E : Type 0} (uuid : ℕ → String) (job_id : String) where
  -- No stage of the job runs, and the ids to come are not in use.
  pub record Ready (w : World E) : Type 0 where
    pub idle : any (runs job_id) (values w.stages) ≡ false
    pub unused : (n : ℕ) → w.taken ≤ n → lookup (uuid n) w.stages ≡ none

  module _ {A : Type 0} where
    -- The run added stages, in the order of the names.
    pub record Ran (w : World E) (names : List String) (r : Result A × World E) : Type 0 where
      pub added : Stages
      pub grown : r.1.stages ≡ w.stages ++ added
      pub jobs_kept : r.1.jobs ≡ w.jobs
      pub ready : Ready r.1
      pub ended : Ended job_id names r.0 (values added)

module _ {E A : Type 0} (uuid : ℕ → String) (job_id : String) where
  -- A statement without stages.
  pub done-Ran :
      (a : A) (w : World E) → Ready uuid job_id w → Ran uuid job_id w [] (done {A = A} a w)
  done-Ran a w r = record {
    added = [];
    grown = sym (append-nil w.stages);
    jobs_kept = refl;
    ready = r;
    ended = tt;
  }

Ended-append :
    {A : Type 0} (job_id : String) (names more : List String) (s t : Stages) (r : Result A)
    → Full job_id names (values s)
    → Ended job_id more r (values t)
    → Ended job_id (names ++ more) r (values (s ++ t))
Ended-append job_id names more s t (ok a) f g =
    subst (Full job_id (names ++ more)) (sym (values-append s t))
      (Full-append job_id names more (values s) (values t) f g)
Ended-append job_id names more s t (raised e) f g =
    subst (Cut job_id (names ++ more)) (sym (values-append s t))
      (Full-Cut job_id names more (values s) (values t) f g)

module _ {E A B : Type 0} (uuid : ℕ → String) (job_id : String) where
  -- The stages of two statements, one after the other.
  pub bind-Ran :
      (w : World E) (names more : List String) (r : Result A × World E) (k : A → Step (World E) B)
      → Ran uuid job_id w names r
      → ((a : A) (v : World E) → Ready uuid job_id v → Ran uuid job_id v more (k a v))
      → Ran uuid job_id w (names ++ more) (bind r k)
  bind-Ran w names more (ok a, v) k first next =
      let rest = next a v first.ready in
      record {
        added = first.added ++ rest.added;
        grown =
            rest.grown
            ∙ ap (λ s. s ++ rest.added) first.grown
            ∙ append_assoc w.stages first.added rest.added;
        jobs_kept = rest.jobs_kept ∙ first.jobs_kept;
        ready = rest.ready;
        ended =
            Ended-append job_id names more first.added rest.added (k a v).0 first.ended rest.ended;
      }
  bind-Ran w names more (raised f, v) k first next = record {
    added = first.added;
    grown = first.grown;
    jobs_kept = first.jobs_kept;
    ready = first.ready;
    ended = Cut-more job_id names more (values first.added) first.ended;
  }
