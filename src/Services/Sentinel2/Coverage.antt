-- ===== src/Services/Sentinel2/Coverage.antt =====
-- What a scheduled window leaves out, and what it does not.
use akasha_ingestion.Base.{
  ℕ, zero, suc, ◌+◌, ◌≤◌, ◌<◌, Bool, true, false, not, ◌&&◌, List, [], ◌∷◌, ◌++◌, ◌≡◌, ◌⊎◌, inl,
  inr, sym, subst, arith, ◌==◌, nat_eq, nat_beq_iff, any, filter, min, Bool-cases,
}
use akasha_ingestion.Catalog.SyncLedger.{SyncLedgerRecord}
use akasha_ingestion.Services.Sentinel2.Window.{
  WindowSettings, days_from, is_known, missing_dates, is_open, incomplete_dates, min_of, seed_start,
  overlap_start, scheduled_date_window,
}

abbrev is_in : ℕ → List ℕ → Bool
is_in d days = any (λ x. x == d) days

min_of-first : (first : ℕ) (rest : List ℕ) → min_of first rest ≤ first
min_of-first first [] = omega arith
min_of-first first (x ∷ rest) = omega (arith, min_of-first (min first x) rest)

min_of-is_in : (d first : ℕ) (rest : List ℕ) → is_in d rest ≡ true → min_of first rest ≤ d
min_of-is_in d first [] h = cc
min_of-is_in d first (x ∷ rest) h =
    ground
      (arith, nat_beq_iff x d, min_of-first (min first x) rest, min_of-is_in d (min first x) rest)

is_in-append_left : (d : ℕ) (xs ys : List ℕ) → is_in d xs ≡ true → is_in d (xs ++ ys) ≡ true
is_in-append_left d [] ys h = cc
is_in-append_left d (x ∷ xs) ys h = ground (arith, is_in-append_left d xs ys)

is_in-append_right : (d : ℕ) (xs ys : List ℕ) → is_in d ys ≡ true → is_in d (xs ++ ys) ≡ true
is_in-append_right d [] ys h = h
is_in-append_right d (x ∷ xs) ys h = ground (arith, is_in-append_right d xs ys)

is_in-days_from : (d start n : ℕ) → start ≤ d → d < start + n → is_in d (days_from start n) ≡ true
is_in-days_from d start zero low high = absurd (omega arith)
is_in-days_from d start (suc n) low high =
    ground (arith, nat_beq_iff start d, is_in-days_from d (start + 1) n)

is_in-filter :
    (p : ℕ → Bool) (d : ℕ) (days : List ℕ)
    → is_in d days ≡ true
    → p d ≡ true
    → is_in d (filter p days) ≡ true
is_in-filter p d [] h q = cc
is_in-filter p d (x ∷ days) h q = elim (Bool-cases (x == d)) [
  | inl same ↦
      let hit : p x ≡ true = subst (λ z. p z ≡ true) (sym ((nat_beq_iff x d).0 same)) q in
      ground (arith, hit)
  | inr differs ↦ ground (arith, is_in-filter p d days)
]

-- Whether a record of the day waits for another run.
abbrev pub is_open_day : ℕ → ℕ → List SyncLedgerRecord → Bool
is_open_day last d records = any (λ r. r.provider_date == d && is_open last r) records

is_in-incomplete :
    (last d : ℕ) (records : List SyncLedgerRecord)
    → is_open_day last d records ≡ true
    → is_in d (incomplete_dates last records) ≡ true
is_in-incomplete last d [] h = cc
is_in-incomplete last d (r ∷ records) h = ground (arith, is_in-incomplete last d records)

open_day-bound :
    (last d : ℕ) (records : List SyncLedgerRecord) → is_open_day last d records ≡ true → d ≤ last
open_day-bound last d [] h = cc
open_day-bound last d (r ∷ records) h =
    ground (arith, nat_beq_iff r.provider_date d, open_day-bound last d records)

module _ (settings : WindowSettings) (last d : ℕ) where
  -- A day to run: one of the seed window without a record, or one with a record that is not
  -- complete and not after the last day.
  abbrev pub IsNeeded : List SyncLedgerRecord → Type 0
  IsNeeded records =
      (seed_start settings last ≤ d × d ≤ last × (is_known d records ≡ false))
      ⊎ (is_open_day last d records ≡ true)

  needed-min_of :
      (records : List SyncLedgerRecord) (first : ℕ)
      → 1 ≤ settings.date_window_days
      → IsNeeded records
      → min_of first (
          missing_dates records (days_from (seed_start settings last) settings.date_window_days)
          ++ incomplete_dates last records)
        ≤ d
  needed-min_of records first positive (inl (low, high, unknown)) =
      let days = days_from (seed_start settings last) settings.date_window_days in
      min_of-is_in d first (missing_dates records days ++ incomplete_dates last records) (
        is_in-append_left d (missing_dates records days) (incomplete_dates last records) (
          is_in-filter (λ x. not (is_known x records)) d days
            (is_in-days_from d (seed_start settings last) settings.date_window_days low
              (omega arith))
            (ground (arith, unknown))))
  needed-min_of records first positive (inr waiting) =
      let days = days_from (seed_start settings last) settings.date_window_days in
      min_of-is_in d first (missing_dates records days ++ incomplete_dates last records) (
        is_in-append_right d (missing_dates records days) (incomplete_dates last records)
          (is_in-incomplete last d records waiting))

  needed-bound : (records : List SyncLedgerRecord) → IsNeeded records → d ≤ last
  needed-bound records (inl (low, high, unknown)) = high
  needed-bound records (inr waiting) = open_day-bound last d records waiting

  -- The scheduled window covers every day that needs a run: each day of the seed window that has no
  -- record, and each recorded day up to the last one that is not complete, however long ago.
  pub scheduled_date_window-covers :
      (records : List SyncLedgerRecord)
      → 1 ≤ settings.date_window_days
      → IsNeeded records
      → let w = scheduled_date_window settings last records in (w.0 ≤ d) × (d ≤ w.1)
  unfolding scheduled_date_window
  scheduled_date_window-covers [] positive (inl (low, high, unknown)) = (low, high)
  scheduled_date_window-covers [] positive (inr waiting) = cc
  scheduled_date_window-covers (r ∷ records) positive needed = (
    needed-min_of (r ∷ records) (overlap_start settings last) positive needed,
    needed-bound (r ∷ records) needed,
  )
