-- ===== src/Scheduler/Planner/Decision.antt =====
-- When the planner calls a source due, and what every plan looks like.
use akasha_ingestion.Base.{
  ℕ, ◌+◌, ◌*◌, ◌≤◌, Bool, true, Option, none, some, List, [], ◌∷◌, ◌++◌, String, ◌≡◌, ◌≢◌, ◌↔◌,
  refl, arith, All, map, pair_eq, string_eq,
}
use akasha_ingestion.Base.Dict.{lookup}
use akasha_ingestion.Schemas.{full_pipeline}
use mathlib.Core.List.{map-append}
use akasha_ingestion.Scheduler.Registry.{
  disabled, manual, SourceAoiState, SourceState, Settings, ingestion_source_registry,
}
use akasha_ingestion.Scheduler.Registry.Exposure.{IsSafe, ingestion_source_registry-IsSafe}
use akasha_ingestion.Scheduler.Planner.Defs.{
  due, switched_off, PlannedSourceRun, LastSuccess, day, date_of, plan_source_aoi, plan_aois,
  plan_sources, plan_due_sources,
}

-- The last success, if there is one, is at least the refresh interval old.
abbrev pub Elapsed : SourceAoiState → ℕ → Option ℕ → Type 0
Elapsed aoi now none = Unit
Elapsed aoi now (some last) = last + aoi.refresh_days * day ≤ now

pub record IsDue (source : SourceState) (aoi : SourceAoiState) (now : ℕ) (last : Option ℕ)
    (include_manual : Bool) : Type 0 where
  pub switched_on : source.schedule_state ≢ disabled
  pub asked_for : source.schedule_state ≡ manual → include_manual ≡ true
  pub elapsed : Elapsed aoi now last

module _ (source : SourceState) (aoi : SourceAoiState) (now : ℕ)
    (include_manual dry_run : Bool) where
  -- A source and area is planned as due exactly when the schedule of the source is not disabled, a
  -- manual source was asked for, and the refresh interval has passed since the last success.
  pub plan_source_aoi-IsDue :
      (last : Option ℕ)
      → ((plan_source_aoi source aoi now last include_manual dry_run).decision ≡ due)
        ↔ IsDue source aoi now last include_manual
  unfolding plan_source_aoi
  plan_source_aoi-IsDue none = ground arith
  plan_source_aoi-IsDue (some last) = ground arith

  -- Whatever the decision, the plan's window ends today and is as long as the area asks.
  pub plan_window :
      (last : Option ℕ)
      → aoi.date_window_days * day ≤ now
      → let p = plan_source_aoi source aoi now last include_manual dry_run in
        (p.date_end ≡ date_of now) × (p.date_start + aoi.date_window_days ≡ p.date_end)
  unfolding plan_source_aoi
  plan_window none h = ground arith
  plan_window (some last) h = ground arith

-- The pairs of source and area of a registry, in order.
abbrev pub aoi_keys : String → List SourceAoiState → List (String × String)
aoi_keys source_id [] = []
aoi_keys source_id (aoi ∷ aois) = (source_id, aoi.aoi_id) ∷ aoi_keys source_id aois

abbrev pub registry_keys : List SourceState → List (String × String)
registry_keys [] = []
registry_keys (source ∷ sources) =
    aoi_keys source.source_id source.default_aois ++ registry_keys sources

abbrev pub plan_key : PlannedSourceRun → String × String
plan_key p = (p.source_id, p.aoi_id)

module _ (now : ℕ) (last : LastSuccess) (include_manual dry_run : Bool) where
  plan_source_aoi-key :
      (source : SourceState) (aoi : SourceAoiState) (l : Option ℕ)
      → plan_key (plan_source_aoi source aoi now l include_manual dry_run)
        ≡ (source.source_id, aoi.aoi_id)
  unfolding plan_source_aoi
  plan_source_aoi-key source aoi none = ground arith
  plan_source_aoi-key source aoi (some l) = ground arith

  plan_aois-key :
      (source : SourceState) (aois : List SourceAoiState)
      → map plan_key (plan_aois source aois now last include_manual dry_run)
        ≡ aoi_keys source.source_id aois
  unfolding plan_aois
  plan_aois-key source [] = refl
  plan_aois-key source (aoi ∷ aois) = cc (
    plan_source_aoi-key source aoi (lookup (source.source_id, aoi.aoi_id) last),
    plan_aois-key source aois,
  )

  plan_sources-key :
      (sources : List SourceState)
      → map plan_key (plan_sources sources now last include_manual dry_run) ≡ registry_keys sources
  unfolding plan_sources
  plan_sources-key [] = refl
  plan_sources-key (source ∷ sources) =
      simp (map-append, plan_aois-key source source.default_aois, plan_sources-key sources)

  -- Every source and area of the registry gets exactly one plan, in the registry's order.
  pub plan_due_sources-covers :
      (settings : Settings)
      → map plan_key (plan_due_sources settings now last include_manual dry_run)
        ≡ registry_keys (ingestion_source_registry settings)
  unfolding plan_due_sources
  plan_due_sources-covers settings = plan_sources-key (ingestion_source_registry settings)

  -- What `plan_due_sources` never says of a plan.
  abbrev pub IsSensible : PlannedSourceRun → Type 0
  IsSensible p = (p.decision ≢ switched_off) × (p.dry_run ≡ dry_run) × (p.mode ≡ full_pipeline)

  plan_source_aoi-IsSensible :
      (source : SourceState) (aoi : SourceAoiState) (l : Option ℕ)
      → source.schedule_state ≢ disabled
      → IsSensible (plan_source_aoi source aoi now l include_manual dry_run)
  unfolding plan_source_aoi
  plan_source_aoi-IsSensible source aoi none h = ground arith
  plan_source_aoi-IsSensible source aoi (some l) h = ground arith

  plan_aois-IsSensible :
      (source : SourceState) (aois : List SourceAoiState) (rest : List PlannedSourceRun)
      → source.schedule_state ≢ disabled
      → All IsSensible rest
      → All IsSensible (plan_aois source aois now last include_manual dry_run ++ rest)
  unfolding plan_aois
  plan_aois-IsSensible source [] rest h r = r
  plan_aois-IsSensible source (aoi ∷ aois) rest h r = (
    plan_source_aoi-IsSensible source aoi (lookup (source.source_id, aoi.aoi_id) last) h,
    plan_aois-IsSensible source aois rest h r,
  )

  plan_sources-IsSensible :
      (sources : List SourceState)
      → All IsSafe sources
      → All IsSensible (plan_sources sources now last include_manual dry_run)
  unfolding plan_sources
  plan_sources-IsSensible [] safe = tt
  plan_sources-IsSensible (source ∷ sources) safe =
      plan_aois-IsSensible source source.default_aois _ safe.0.enabled
        (plan_sources-IsSensible sources safe.1)

  -- No plan of the registry is `disabled`; each keeps the dry-run flag that was asked for and is a
  -- full run.
  pub plan_due_sources-IsSensible :
      (settings : Settings)
      → All IsSensible (plan_due_sources settings now last include_manual dry_run)
  unfolding plan_due_sources
  plan_due_sources-IsSensible settings =
      plan_sources-IsSensible (ingestion_source_registry settings)
        (ingestion_source_registry-IsSafe settings)
