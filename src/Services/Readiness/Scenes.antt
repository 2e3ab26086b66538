-- ===== src/Services/Readiness/Scenes.antt =====
-- What readiness reads of the catalogue: scenes, outputs, and the days that they cover.
use akasha_ingestion.Base.{
  ℕ, Bool, true, false, not, ◌&&◌, ◌||◌, Option, none, some, List, [], ◌∷◌, String, if◌then◌else◌,
  ◌==◌, string_eq, nat_eq, filter, any, all, max, is_some,
}
use akasha_ingestion.Services.Readiness.Policy.{ReadinessPolicy}
use akasha_ingestion.Scheduler.Planner.{date_of}

-- What is read of a `ProviderSceneRecord`: of its metadata, `composite is True`, whether
-- `output_kind` is that of a composite, and the day of each contributing scene, if it has one.
pub record ReadyScene : Type 0 where
  pub id : Option String
  pub acquisition_at : Option ℕ
  pub status : String
  pub composite : Bool
  pub composite_output : Bool
  pub contributor_days : List (Option ℕ)

-- What is read of a `RasterOutputRecord`.
pub record RasterOutput : Type 0 where
  pub scene_id : String
  pub created_at : Option ℕ

abbrev pub is_day : ℕ → Option ℕ → Bool
is_day expected none = false
is_day expected (some actual) = actual == expected

abbrev pub has_contributors : List (Option ℕ) → Bool
has_contributors [] = false
has_contributors (c ∷ cs) = true

abbrev pub all_on_day : Option ℕ → List (Option ℕ) → Bool
all_on_day none days = false
all_on_day (some moment) days = all (is_day (date_of moment)) days

unfoldable pub has_exact_date_composite_provenance : ReadyScene → Bool
has_exact_date_composite_provenance s =
    if not s.composite
    then true
    else if not (has_contributors s.contributor_days)
    then true
    else all_on_day s.acquisition_at s.contributor_days

unfoldable pub readiness_scenes : List ReadyScene → ReadinessPolicy → List ReadyScene
readiness_scenes scenes policy =
    if policy.job_type == "resourcesat_backfill"
    then filter
        (λ s.
          (s.status == "composited" || s.composite_output) && has_exact_date_composite_provenance s)
        scenes
    else scenes

-- A set of days, as a list without repetition.
abbrev pub is_in : ℕ → List ℕ → Bool
is_in d days = any (λ x. x == d) days

abbrev pub add_day : ℕ → List ℕ → List ℕ
add_day d days = if is_in d days then days else d ∷ days

abbrev pub covers : List RasterOutput → Option String → Bool
covers outputs none = false
covers outputs (some id) = any (λ o. o.scene_id == id) outputs

-- The day that a scene adds to a set, if the scene is to be counted.
abbrev pub add_scene : Bool → Option ℕ → List ℕ → List ℕ
add_scene counted none days = days
add_scene counted (some moment) days = if counted then add_day (date_of moment) days else days

-- `_coverage_ok` is `True` for every scene.
unfoldable pub coverage_ok : ReadyScene → ReadinessPolicy → Bool
coverage_ok scene policy = true

abbrev pub index_dates : ReadinessPolicy → List RasterOutput → List ReadyScene → List ℕ
index_dates policy outputs [] = []
index_dates policy outputs (s ∷ scenes) =
    add_scene (covers outputs s.id && coverage_ok s policy) s.acquisition_at
      (index_dates policy outputs scenes)

abbrev pub scene_dates : List ReadyScene → List ℕ
scene_dates [] = []
scene_dates (s ∷ scenes) = add_scene (is_some s.id) s.acquisition_at (scene_dates scenes)

abbrev pub meet_all : List ℕ → List (List ℕ) → List ℕ
meet_all result [] = result
meet_all result (days ∷ sets) = meet_all (filter (λ d. is_in d days) result) sets

-- `_intersection`
unfoldable pub intersection : List (List ℕ) → List ℕ
intersection [] = []
intersection (days ∷ sets) = meet_all days sets

abbrev pub scene_ids : List ReadyScene → List String
scene_ids [] = []
scene_ids (s ∷ scenes) = elim s.id [ none ↦ scene_ids scenes | some id ↦ id ∷ scene_ids scenes ]

-- `max((t for t in times if t is not None), default=None)`
abbrev pub later : Option ℕ → Option ℕ → Option ℕ
later none b = b
later (some a) none = some a
later (some a) (some b) = some (max a b)

abbrev pub latest : List (Option ℕ) → Option ℕ
latest [] = none
latest (t ∷ times) = later t (latest times)

pub record Coverage : Type 0 where
  pub available : Bool
  pub date_count : ℕ
  pub denominator : ℕ
