-- ===== src/Services/Staged/Returning.antt =====
-- Parts of a run that return: what their results satisfy.
use akasha_ingestion.Base.{ℕ, suc, some, List, [], ◌∷◌, String, ◌≡◌, refl, ap, length, string_eq}
use akasha_ingestion.Base.Dict.{Dict, update}
use akasha_ingestion.Base.Json.{Value}
use akasha_ingestion.Base.Text.{Text}
use akasha_ingestion.Providers.Contracts.{Result, ok, raised}
use akasha_ingestion.Jobs.Stages.{complete_stage}
use akasha_ingestion.Services.Staged.{World, Step, bind, each, with_stage}
use akasha_ingestion.Services.Staged.Runs.{Ready}
use akasha_ingestion.Services.Staged.Closing.{fresh, after, after-Ready, stage_completes}

module _ {W A : Type 0} where
  -- The call returned, and its result has the property.
  abbrev pub Yields : (A → Type 0) → Result A × W → Type 0
  Yields Q (ok a, w) = Q a
  Yields Q (raised f, w) = ⊥

  abbrev pub Returns : Result A × W → Type 0
  Returns r = Yields (λ a. Unit) r

module _ {W A B : Type 0} where
  -- A statement that returns, and what follows it.
  pub bind-Yields :
      (Q : A → Type 0) (P : B → Type 0) (r : Result A × W) (k : A → Step W B)
      → Yields Q r
      → ((a : A) (v : W) → Q a → Yields P (k a v))
      → Yields P (bind r k)
  bind-Yields Q P (ok a, v) k first next = next a v first
  bind-Yields Q P (raised f, v) k first next = elim first [ ]

module _ {W A B : Type 0} where
  -- A loop whose body always returns gives one result for each element.
  pub each-Yields :
      (f : A → Step W B) (xs : List A) (w : W)
      → ((x : A) (v : W) → Returns (f x v))
      → Yields (λ ys. length ys ≡ length xs) (each f xs w)
  each-Yields f [] w always = refl
  each-Yields f (x ∷ xs) w always =
      bind-Yields (λ y. Unit) (λ ys. length ys ≡ suc (length xs)) (f x w) _ (always x w)
        (λ y v first.
          bind-Yields (λ ys. length ys ≡ length xs) (λ ys. length ys ≡ suc (length xs))
            (each f xs v) _ (each-Yields f xs v always) (λ ys u same. ap suc same))

module _ {E A B : Type 0} (uuid : ℕ → String) (redact : Text → String) (now : ℕ)
    (error_code : String) (distinct : (m n : ℕ) → uuid m ≡ uuid n → m ≡ n) (job_id name : String)
    (metadata : Dict String Value) where
  stage_ends-Yields :
      (Q : A → Type 0) (P : B → Type 0) (body : Step E (A × Dict String Value)) (w : World E)
      (k : A → Step (World E) B) (o : Result (A × Dict String Value) × E)
      → Ready uuid job_id w
      → body w.outside ≡ o
      → Yields (λ x. Q x.0) o
      → ((a : A) (v : World E) → Ready uuid job_id v → Q a → Yields P (k a v))
      → Yields P (bind (with_stage uuid redact now error_code job_id name metadata body w) k)
  stage_ends-Yields Q P body w k (raised f, e) r same first next = elim first [ ]
  stage_ends-Yields Q P body w k (ok (a, written), e) r same first next =
      let st =
        complete_stage now (some (update metadata written))
          (fresh uuid redact now error_code distinct job_id name metadata w) in
      rw
        (stage_completes uuid redact now error_code distinct job_id name metadata body w a written e
          r same)
        (next a (after uuid redact now error_code distinct job_id name metadata w e st)
          (after-Ready uuid redact now error_code distinct job_id name metadata w e st r refl)
          first)

  -- A stage whose body returns, and what follows it.
  pub stage-Yields :
      (Q : A → Type 0) (P : B → Type 0) (body : Step E (A × Dict String Value)) (w : World E)
      (k : A → Step (World E) B)
      → Ready uuid job_id w
      → Yields (λ x. Q x.0) (body w.outside)
      → ((a : A) (v : World E) → Ready uuid job_id v → Q a → Yields P (k a v))
      → Yields P (bind (with_stage uuid redact now error_code job_id name metadata body w) k)
  stage-Yields Q P body w k r first next =
      stage_ends-Yields Q P body w k (body w.outside) r refl first next
