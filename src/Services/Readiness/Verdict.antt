-- ===== src/Services/Readiness/Verdict.antt =====
-- When a source and area is reported as available, and which days it has.
use akasha_ingestion.Base.{
  ℕ, ◌+◌, ◌*◌, ◌≤◌, Bool, true, false, not, ◌&&◌, ◌||◌, Option, none, some, List, [], ◌∷◌, String,
  ◌≡◌, ◌↔◌, inl, inr, refl, sym, ap, ◌∙◌, arith, string_eq, nat_eq, nat_beq, nat_beq_iff, ◌==◌,
  filter, any, all, leb, ltb, Bool-cases, Option-cases, is_none,
}
use akasha_ingestion.Base.Dict.{values}
use akasha_ingestion.Scheduler.Planner.{date_of}
use akasha_ingestion.Services.Sentinel2.Recovered.{any-sort_by}
use akasha_ingestion.Services.Readiness.Policy.{ReadinessPolicy}
use akasha_ingestion.Services.Readiness.Scenes.{
  ReadyScene, RasterOutput, is_in, add_day, covers, index_dates, meet_all, intersection,
  coverage_ok,
}
use akasha_ingestion.Services.Readiness.Decision.{
  available, unavailable, is_empty, Reading, dates_by_index, date_sets, available_dates, status_of,
  freshness_at, stale_after, hour, codes_for, unavailable_codes, status_for,
}

-- A scene of the day with an output among these.
abbrev pub shows : ℕ → List RasterOutput → ReadyScene → Bool
shows day outputs s =
    covers outputs s.id && elim s.acquisition_at [ none ↦ false | some t ↦ date_of t == day ]

-- Equal days are in the same sets.
same_day : (d e : ℕ) (q : ℕ → Bool) → nat_beq e d ≡ true → q e ≡ q d
same_day d e q same = ap q ((nat_beq_iff e d).0 same)

add_day-is_in : (d e : ℕ) (days : List ℕ) → is_in d (add_day e days) ≡ (nat_beq e d || is_in d days)
add_day-is_in d e days = elim (Bool-cases (is_in e days)) [
  | inl there ↦ elim (Bool-cases (nat_beq e d)) [
    | inl same ↦ rw (there, same) (sym (same_day d e (λ x. is_in x days) same) ∙ there)
    | inr other ↦ rw (there, other) refl
  ]
  | inr absent ↦ rw absent refl
]

filter-is_in :
    (q : ℕ → Bool) (d : ℕ) (days : List ℕ) → is_in d (filter q days) ≡ (is_in d days && q d)
filter-is_in q d [] = refl
filter-is_in q d (e ∷ days) = elim (Bool-cases (nat_beq e d)) [
  | inl same ↦ ground (arith, same_day d e q same, filter-is_in q d days)
  | inr other ↦ ground (arith, filter-is_in q d days)
]

meet_all-is_in :
    (d : ℕ) (result : List ℕ) (sets : List (List ℕ))
    → is_in d (meet_all result sets) ≡ (is_in d result && all (is_in d) sets)
meet_all-is_in d result [] = ground arith
meet_all-is_in d result (days ∷ sets) = ground (
  arith,
  meet_all-is_in d (filter (λ x. is_in x days) result) sets,
  filter-is_in (λ x. is_in x days) d result,
)

index_dates-is_in :
    (p : ReadinessPolicy) (outputs : List RasterOutput) (d : ℕ) (scenes : List ReadyScene)
    → is_in d (index_dates p outputs scenes) ≡ any (shows d outputs) scenes
unfolding coverage_ok
index_dates-is_in p outputs d [] = refl
index_dates-is_in p outputs d (s ∷ scenes) = elim (Option-cases s.acquisition_at) [
  | inl undated ↦ rw undated (ground (arith, index_dates-is_in p outputs d scenes))
  | inr (t, dated) ↦ rw dated (
      ground (
        arith,
        index_dates-is_in p outputs d scenes,
        add_day-is_in d (date_of t) (index_dates p outputs scenes),
      ))
]

-- Whether each required index has a scene of the day with an output.
abbrev pub complete_day : Reading → ℕ → Bool
complete_day r d = all (λ x. any (shows d x.1) r.scenes) r.by_index

covers_all :
    (p : ReadinessPolicy) (r : Reading) (d : ℕ) (by_index : List (String × List RasterOutput))
    → all (is_in d) (values (dates_by_index p r.scenes by_index))
      ≡ all (λ x. any (shows d x.1) r.scenes) by_index
covers_all p r d [] = refl
covers_all p r d ((index, outputs) ∷ rest) =
    ground (arith, index_dates-is_in p outputs d r.scenes, covers_all p r d rest)

intersection-is_in :
    (d : ℕ) (sets : List (List ℕ))
    → is_in d (intersection sets) ≡ (not (is_empty sets) && all (is_in d) sets)
unfolding intersection
intersection-is_in d [] = refl
intersection-is_in d (days ∷ sets) = meet_all-is_in d days sets

dates_empty :
    (p : ReadinessPolicy) (r : Reading) (by_index : List (String × List RasterOutput))
    → is_empty (values (dates_by_index p r.scenes by_index)) ≡ is_empty by_index
dates_empty p r [] = refl
dates_empty p r (x ∷ rest) = refl

-- A day is listed as available exactly when an index is required and each required index has a
-- scene of that day with a registered output.
pub available_dates-complete_day :
    (p : ReadinessPolicy) (r : Reading) (d : ℕ)
    → is_in d (available_dates p r) ≡ (not (is_empty r.by_index) && complete_day r d)
unfolding available_dates
available_dates-complete_day p r d =
    any-sort_by (λ x. nat_beq x d) (λ a b. leb b a) (intersection (values (date_sets p r)))
    ∙ intersection-is_in d (values (date_sets p r))
    ∙ rw (dates_empty p r r.by_index, covers_all p r d r.by_index) refl

-- When a source and area is available: it has a complete day, a successful job if one is required,
-- and its newest output or job is not too old.
abbrev pub IsReady : ℕ → ReadinessPolicy → Reading → Type 0
IsReady now p r =
    (is_empty (available_dates p r) ≡ false)
    × (p.require_successful_job ≡ true → is_none r.last_job ≡ false)
    × ((fresh : ℕ) × (freshness_at r ≡ some fresh)
        × (now ≤ fresh + p.freshness_max_age_hours * hour))

codes_ready :
    (p : ReadinessPolicy) (r : Reading)
    → is_empty (available_dates p r) ≡ false
    → is_empty (codes_for p r) ≡ not (p.require_successful_job && is_none r.last_job)
unfolding unavailable_codes
codes_ready p r there =
    rw there (elim (Bool-cases (p.require_successful_job && is_none r.last_job)) [
      | inl lacking ↦ rw lacking refl
      | inr fine ↦ rw fine refl
    ])

-- The last two tests of the status, by the freshness.
fresh_status :
    (now : ℕ) (p : ReadinessPolicy) (fresh : Option ℕ) (dates : List ℕ) (codes : List String)
    → is_empty dates ≡ false
    → is_empty codes ≡ true
    → (status_of now dates (stale_after p fresh) codes ≡ available)
      ↔ ((t : ℕ) × (fresh ≡ some t) × (now ≤ t + p.freshness_max_age_hours * hour))
fresh_status now p none dates codes there silent = rw there ((λ e. cc e), (λ (t, e, le). cc e))
fresh_status now p (some t) dates codes there silent =
    let limit = t + p.freshness_max_age_hours * hour in
    rw (there, silent)
      (elim (Bool-cases (ltb limit now)) [
        | inl over ↦ rw over ((λ e. cc e), (λ (u, e, le). let same : t ≡ u = cc e in ground arith))
        | inr timely ↦ rw timely ((λ e. (t, refl, ground arith)), (λ x. refl))
      ])

loud_status :
    (now : ℕ) (dates : List ℕ) (limit : Option ℕ) (codes : List String)
    → is_empty codes ≡ false
    → status_of now dates limit codes ≡ unavailable
loud_status now dates limit codes spoken = elim (Bool-cases (not (is_empty dates))) [
  | inl there ↦ elim (Bool-cases (not (is_none limit))) [
    | inl known ↦ rw (there, known, spoken) refl
    | inr unknown ↦ rw (there, unknown) refl
  ]
  | inr none_there ↦ rw none_there refl
]

pub status-IsReady :
    (now : ℕ) (p : ReadinessPolicy) (r : Reading)
    → (status_for now p r ≡ available) ↔ IsReady now p r
unfolding status_for
status-IsReady now p r = elim (Bool-cases (is_empty (available_dates p r))) [
  | inl none_there ↦ rw none_there ((λ e. cc e), (λ ready. cc ready.0))
  | inr there ↦ elim (Bool-cases (is_empty (codes_for p r))) [
    | inl silent ↦
        let iff =
          fresh_status now p (freshness_at r) (available_dates p r) (codes_for p r) there silent in
        let quiet = sym (codes_ready p r there) ∙ silent in
        ((λ e. (there, (λ needed. ground (arith, quiet)), iff.0 e)), (λ ready. iff.1 ready.2))
    | inr spoken ↦
        let loud = sym (codes_ready p r there) ∙ spoken in
        (
          (λ e. cc (
            loud_status now (available_dates p r) (stale_after p (freshness_at r)) (codes_for p r)
                spoken,
            e,
          )),
          (λ ready. elim (Bool-cases p.require_successful_job) [
            | inl needed ↦ let there = ready.1 needed in ground (arith, loud, there)
            | inr free ↦ ground (arith, loud)
          ]),
        )
  ]
]
