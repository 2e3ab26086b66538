-- ===== src/Services/Eos04/Ending.antt =====
-- How a run of the EOS-04 service ends: its job, and the stages that it adds.
use akasha_ingestion.Base.{
  ℕ, true, some, List, [], ◌∷◌, String, ◌≡◌, refl, subst, string_eq, filter,
}
use akasha_ingestion.Base.Text.{Text}
use akasha_ingestion.Jobs.Store.{Job}
use akasha_ingestion.Schemas.{
  Mode, metadata_only, mirror_only, download_only, prepare_only, composite_only, full_pipeline,
}
use akasha_ingestion.Services.Staged.{World}
use akasha_ingestion.Services.Staged.Runs.{Ready, Ran, done-Ran}
use akasha_ingestion.Services.Staged.Closing.{stage-Ran}
use akasha_ingestion.Services.Eos04.Records.{
  Candidate, Aoi, DownloadedProduct, PreparedScene, Settings, Operations, Summary, stage_names,
  mode_limit,
}
use akasha_ingestion.Services.Eos04.Parts.{reaches}
use akasha_ingestion.Services.Eos04.Backfill.{fetch, refine, publish, run_stages}

-- The stages that a mode reaches.
abbrev pub stages_of : Mode → List String
stages_of mode = filter (reaches mode) stage_names

-- Those after `provider_search`.
abbrev stages_after : Mode → List String
stages_after mode = elim (stages_of mode) [ [] ↦ [] | name ∷ names ↦ names ]

starts :
    (mode : Mode) (limit : String)
    → mode_limit mode ≡ some limit
    → "provider_search" ∷ stages_after mode ≡ stages_of mode
unfolding reaches
starts metadata_only limit known = refl
starts download_only limit known = refl
starts prepare_only limit known = refl
starts full_pipeline limit known = refl
starts mirror_only limit known = cc
starts composite_only limit known = cc

module _ {E : Type 0} (ops : Operations E) (settings : Settings) (uuid : ℕ → String)
    (redact : Text → String) (now : ℕ) (distinct : (m n : ℕ) → uuid m ≡ uuid n → m ≡ n) where
  module _ (job : Job) where
    publish-Ran :
        (downloads : List DownloadedProduct) (prepared : List PreparedScene) (summary : Summary)
        (w : World E)
        → Ready uuid job.job_id w
        → Ran uuid job.job_id w
            ("object_storage" ∷ "pgstac_registration" ∷ "cleanup" ∷ [])
            (publish ops settings uuid redact now job full_pipeline downloads prepared summary w)
    unfolding reaches
    publish-Ran downloads prepared summary w r =
        stage-Ran uuid redact now "eos04_stage_failed" distinct job.job_id "object_storage" _ _ _ w
          _ r
          (λ registered v ready.
            stage-Ran uuid redact now "eos04_stage_failed" distinct job.job_id "pgstac_registration"
              _ _ _ v _ ready
              (λ s u prompt.
                stage-Ran uuid redact now "eos04_stage_failed" distinct job.job_id "cleanup" _ _ _ u
                  _ prompt (λ cleaned t last. done-Ran uuid job.job_id s t last)))

    refine-Ran :
        (mode : Mode) (more : List String) (downloads : List DownloadedProduct) (summary : Summary)
        (w : World E)
        → reaches mode "prepare_scene" ≡ true
        → Ready uuid job.job_id w
        → ((prepared : List PreparedScene) (s : Summary) (v : World E)
            → Ready uuid job.job_id v
            → Ran uuid job.job_id v more
                (publish ops settings uuid redact now job mode downloads prepared s v))
        → Ran uuid job.job_id w
            ("prepare_scene" ∷ "scene_validation" ∷ more)
            (refine ops settings uuid redact now job mode downloads summary w)
    refine-Ran mode more downloads summary w far r next = rw far (
        stage-Ran uuid redact now "eos04_stage_failed" distinct job.job_id "prepare_scene" _ _ _ w _
          r
          (λ p v ready.
            stage-Ran uuid redact now "eos04_stage_failed" distinct job.job_id "scene_validation" _
              _ _ v _ ready (λ s u prompt. next p.0 s u prompt)))

    fetch-Ran :
        (mode : Mode) (more : List String) (candidates : List Candidate) (summary : Summary)
        (w : World E)
        → reaches mode "raw_download" ≡ true
        → Ready uuid job.job_id w
        → ((downloads : List DownloadedProduct) (s : Summary) (v : World E)
            → Ready uuid job.job_id v
            → Ran uuid job.job_id v more
                (refine ops settings uuid redact now job mode downloads s v))
        → Ran uuid job.job_id w
            ("raw_download" ∷ more)
            (fetch ops settings uuid redact now job mode candidates summary w)
    fetch-Ran mode more candidates summary w far r next = rw far (
        stage-Ran uuid redact now "eos04_stage_failed" distinct job.job_id "raw_download" _ _ _ w _
          r (λ d v ready. next d.0 d.1 v ready))

    fetch_mode-Ran :
        (mode : Mode) (limit : String) (candidates : List Candidate) (summary : Summary)
        (w : World E)
        → mode_limit mode ≡ some limit
        → Ready uuid job.job_id w
        → Ran uuid job.job_id w
            (stages_after mode)
            (fetch ops settings uuid redact now job mode candidates summary w)
    unfolding reaches
    fetch_mode-Ran metadata_only limit candidates summary w known r =
        done-Ran uuid job.job_id summary w r
    fetch_mode-Ran download_only limit candidates summary w known r =
        fetch-Ran download_only [] candidates summary w refl r
          (λ downloads s v ready. done-Ran uuid job.job_id s v ready)
    fetch_mode-Ran prepare_only limit candidates summary w known r =
        fetch-Ran prepare_only _ candidates summary w refl r (λ downloads s v ready.
          refine-Ran prepare_only [] downloads s v refl ready
            (λ prepared t u prompt. done-Ran uuid job.job_id t u prompt))
    fetch_mode-Ran full_pipeline limit candidates summary w known r =
        fetch-Ran full_pipeline _ candidates summary w refl r (λ downloads s v ready.
          refine-Ran full_pipeline _ downloads s v refl ready
            (λ prepared t u prompt. publish-Ran downloads prepared t u prompt))
    fetch_mode-Ran mirror_only limit candidates summary w known r = cc
    fetch_mode-Ran composite_only limit candidates summary w known r = cc

    pub run_stages-Ran :
        (mode : Mode) (limit : String) (aoi : Aoi) (summary : Summary) (w : World E)
        → mode_limit mode ≡ some limit
        → Ready uuid job.job_id w
        → Ran uuid job.job_id w
            (stages_of mode)
            (run_stages ops settings uuid redact now job mode aoi summary w)
    run_stages-Ran mode limit aoi summary w known r =
        subst
          (λ names.
            Ran uuid job.job_id w names
              (run_stages ops settings uuid redact now job mode aoi summary w))
          (starts mode limit known)
          (stage-Ran uuid redact now "eos04_stage_failed" distinct job.job_id "provider_search" _ _
            _ w _ r (λ c v ready. fetch_mode-Ran mode limit c.0 c.1 v known ready))
