-- ===== src/Services/Readiness/Answers.antt =====
-- Readiness answers: every reason that it can give has its message, and what the answer says.
use akasha_ingestion.Base.{
  true, some, List, [], String, ◌≡◌, inl, inr, refl, subst, string_eq, is_some,
}
use akasha_ingestion.Base.Dict.{Dict, lookup, lookup-insert_inv}
use akasha_ingestion.Providers.Contracts.{Result, ok, raised}
use akasha_ingestion.Services.Readiness.Policy.{
  ReadinessPolicy, ReadinessSettings, Preload, sentinel_policy, landsat_from, landsat_policy,
  resourcesat_from, resourcesat_policy, add, policies, policy_in, policy,
}
use akasha_ingestion.Services.Readiness.Decision.{
  no_outputs_code, no_successful_job_code, stale_code,
}

-- The policy has a message for the code.
abbrev pub Says : ReadinessPolicy → String → Type 0
Says p code = is_some (lookup code p.reason_messages) ≡ true

-- It has one for every code that the service can use with it.
pub record Speaks (p : ReadinessPolicy) : Type 0 where
  pub not_enabled : Says p "SOURCE_NOT_ENABLED"
  pub wrong_source : Says p "SOURCE_MISMATCH"
  pub wrong_aoi : Says p "AOI_MISMATCH"
  pub low_coverage : Says p "LOW_COVERAGE"
  pub missing_index : Says p "MISSING_INDEX_COVERAGE"
  pub no_outputs : Says p (no_outputs_code p)
  pub no_job : Says p (no_successful_job_code p)
  pub too_old : Says p (stale_code p)

sentinel-Speaks : (p : Preload) → Speaks (sentinel_policy p)
sentinel-Speaks p = record {
  not_enabled = refl;
  wrong_source = refl;
  wrong_aoi = refl;
  low_coverage = refl;
  missing_index = refl;
  no_outputs = refl;
  no_job = refl;
  too_old = refl;
}

abbrev AllSpeak : Result (Dict String ReadinessPolicy) → Type 0
AllSpeak (raised f) = Unit
AllSpeak (ok d) = (id : String) (p : ReadinessPolicy) → lookup id d ≡ some p → Speaks p

abbrev ItSpeaks : Result ReadinessPolicy → Type 0
ItSpeaks (raised f) = Unit
ItSpeaks (ok p) = Speaks p

module _ (lower : String → String) where
  landsat-Speaks : (p : Preload) (o : Result (List String)) → ItSpeaks (landsat_from lower p o)
  landsat-Speaks p (raised f) = tt
  landsat-Speaks p (ok indices) = record {
    not_enabled = refl;
    wrong_source = refl;
    wrong_aoi = refl;
    low_coverage = refl;
    missing_index = refl;
    no_outputs = refl;
    no_job = refl;
    too_old = refl;
  }

  resourcesat-Speaks :
      (p : Preload) (o : Result (List String)) → ItSpeaks (resourcesat_from lower p o)
  resourcesat-Speaks p (raised f) = tt
  resourcesat-Speaks p (ok indices) = record {
    not_enabled = refl;
    wrong_source = refl;
    wrong_aoi = refl;
    low_coverage = refl;
    missing_index = refl;
    no_outputs = refl;
    no_job = refl;
    too_old = refl;
  }

  add-AllSpeak :
      (id : String) (p : Result ReadinessPolicy) (d : Result (Dict String ReadinessPolicy))
      → ItSpeaks p
      → AllSpeak d
      → AllSpeak (add lower id p d)
  add-AllSpeak id (raised f) (raised g) s all = tt
  add-AllSpeak id (raised f) (ok d) s all = tt
  add-AllSpeak id (ok p) (raised g) s all = tt
  add-AllSpeak id (ok p) (ok d) s all = λ j q found. elim (lookup-insert_inv id j p d found) [
    | inl (same, this) ↦ subst Speaks this s
    | inr before ↦ all j q before
  ]

  policies-AllSpeak : (s : ReadinessSettings) → AllSpeak (policies lower s)
  unfolding policies landsat_policy resourcesat_policy
  policies-AllSpeak s = add-AllSpeak s.awifs.source_id _ _ (resourcesat-Speaks s.awifs _) (
      add-AllSpeak s.liss4.source_id _ _ (resourcesat-Speaks s.liss4 _) (
        add-AllSpeak s.liss3.source_id _ _ (resourcesat-Speaks s.liss3 _) (
          add-AllSpeak s.landsat.source_id _ _ (landsat-Speaks s.landsat _) (λ id p found.
            elim (lookup-insert_inv s.sentinel.source_id id (sentinel_policy s.sentinel) [] found) [
              | inl (same, this) ↦ subst Speaks this (sentinel-Speaks s.sentinel)
              | inr before ↦ cc before
            ]))))

  policy_in-Speaks :
      (id : String) (o : Result (Dict String ReadinessPolicy)) (p : ReadinessPolicy)
      → AllSpeak o
      → policy_in lower id o ≡ ok (some p)
      → Speaks p
  policy_in-Speaks id (raised f) p all e = cc e
  policy_in-Speaks id (ok d) p all e = all id p (cc e)

  -- Every policy that is looked up has a message for each code.
  pub policy-Speaks :
      (id : String) (s : ReadinessSettings) (p : ReadinessPolicy)
      → policy lower id s ≡ ok (some p)
      → Speaks p
  unfolding policy
  policy-Speaks id s p e = policy_in-Speaks id (policies lower s) p (policies-AllSpeak s) e
