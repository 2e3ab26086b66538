-- ===== src/Catalog/SyncLedger/Queries.antt =====
-- What the queries of the ledger tell about its records.
use akasha_ingestion.Base.{
  ℕ, ◌+◌, ◌≤◌, Bool, true, not, some, List, [], ◌∷◌, String, ◌≡◌, refl, arith, leb, filter, count,
  sum_of, nat_eq, string_eq, pair_eq, All, Bool-cases, inl, inr, ◌↔◌, eq_iff, sym, ◌∙◌, false,
}
use akasha_ingestion.Base.Dict.{values, lookup}
use akasha_ingestion.Base.Sort.{insert_sorted, sort_by}
use akasha_ingestion.Catalog.SyncLedger.Defs.{
  complete, SyncLedgerRecord, LedgerKey, Ledger, belongs, is_complete, list_for_source_aoi,
  incomplete_count, record_backlog, processing_backlog,
}

module _ {A : Type 0} (le : A → A → Bool) (f : A → ℕ) where
  sum_of-insert_sorted :
      (x : A) (ys : List A) → sum_of f (insert_sorted le x ys) ≡ f x + sum_of f ys
  sum_of-insert_sorted x [] = refl
  sum_of-insert_sorted x (y ∷ ys) = ground (arith, sum_of-insert_sorted x ys)

  sum_of-sort_by : (xs : List A) → sum_of f (sort_by le xs) ≡ sum_of f xs
  sum_of-sort_by [] = refl
  sum_of-sort_by (x ∷ xs) = omega (arith, sum_of-insert_sorted x (sort_by le xs), sum_of-sort_by xs)

module _ {A : Type 0} (le : A → A → Bool) (p : A → Bool) where
  count-insert_sorted : (x : A) (ys : List A) → count p (insert_sorted le x ys) ≡ count p (x ∷ ys)
  count-insert_sorted x [] = refl
  count-insert_sorted x (y ∷ ys) = ground (arith, count-insert_sorted x ys)

  count-sort_by : (xs : List A) → count p (sort_by le xs) ≡ count p xs
  count-sort_by [] = refl
  count-sort_by (x ∷ xs) = ground (arith, count-insert_sorted x (sort_by le xs), count-sort_by xs)

module _ (source aoi : String) (k : LedgerKey) (r : SyncLedgerRecord) where
  count-belongs :
      (p : SyncLedgerRecord → Bool) (ledger : Ledger)
      → lookup k ledger ≡ some r
      → belongs source aoi r ≡ true
      → p r ≡ true
      → 1 ≤ count p (filter (belongs source aoi) (values ledger))
  count-belongs p [] found own hit = cc
  count-belongs p ((j, other) ∷ ledger) found own hit = ground (arith, count-belongs p ledger)

  -- When no record of a source and area counts as incomplete, every record of them in the ledger is
  -- complete.
  pub incomplete_count_zero :
      (ledger : Ledger)
      → incomplete_count source aoi ledger ≡ 0
      → lookup k ledger ≡ some r
      → belongs source aoi r ≡ true
      → r.status ≡ complete
  unfolding incomplete_count list_for_source_aoi
  incomplete_count_zero ledger zero_count found own =
      let p = λ (x : SyncLedgerRecord). not (is_complete x.status) in
      let own_records = filter (belongs source aoi) (values ledger) in
      ground (
        arith,
        count-sort_by (λ a b. leb a.provider_date b.provider_date) p own_records,
        count-belongs p ledger found own,
      )

sum_of-zero : {A : Type 0} (f : A → ℕ) (xs : List A) → (sum_of f xs ≡ 0) ↔ All (λ x. f x ≡ 0) xs
sum_of-zero f [] = ((λ e. tt), (λ all. refl))
sum_of-zero f (x ∷ xs) =
    let rest = sum_of-zero f xs in
    (
      (λ e. (omega (arith, e), rest.0 (omega (arith, e)))),
      (λ all. omega (arith, all.0, rest.1 all.1)),
    )

-- A record of the source and area that has processed each of its scenes.
abbrev pub IsWorkedOff : String → String → SyncLedgerRecord → Type 0
IsWorkedOff source aoi r = r.source_id ≡ source → r.aoi_id ≡ aoi → r.scene_count ≤ r.processed_count

own_fields :
    (source aoi : String) (r : SyncLedgerRecord)
    → belongs source aoi r ≡ true
    → (r.source_id ≡ source) × (r.aoi_id ≡ aoi)
own_fields source aoi r own = ground (arith, eq_iff r.source_id source, eq_iff r.aoi_id aoi)

other_fields :
    (source aoi : String) (r : SyncLedgerRecord)
    → belongs source aoi r ≡ false
    → r.source_id ≡ source
    → r.aoi_id ≡ aoi
    → ⊥
other_fields source aoi r other e f = ground (arith, eq_iff r.source_id source, eq_iff r.aoi_id aoi)

own_backlog :
    (source aoi : String) (rows : List SyncLedgerRecord)
    → All (λ r. record_backlog r ≡ 0) (filter (belongs source aoi) rows)
      ↔ All (IsWorkedOff source aoi) rows
own_backlog source aoi [] = ((λ a. tt), (λ a. tt))
own_backlog source aoi (r ∷ rows) =
    let rest = own_backlog source aoi rows in
    elim (Bool-cases (belongs source aoi r)) [
      | inl own ↦ rw own (
        (λ a. ((λ e f. omega (arith, a.0)), rest.0 a.1)),
        (λ a. (
          (let same = own_fields source aoi r own in omega (arith, a.0 same.0 same.1)),
          rest.1 a.1,
        )),
      )
      | inr other ↦ rw other (
        (λ a. ((λ e f. absurd (other_fields source aoi r other e f)), rest.0 a)),
        (λ a. rest.1 a.1),
      )
    ]

-- A source has no backlog in an area exactly when each record of them in the ledger has processed as
-- many scenes as it has.
pub processing_backlog-IsWorkedOff :
    (source aoi : String) (ledger : Ledger)
    → (processing_backlog source aoi ledger ≡ 0) ↔ All (IsWorkedOff source aoi) (values ledger)
unfolding processing_backlog list_for_source_aoi
processing_backlog-IsWorkedOff source aoi ledger =
    let own_records = filter (belongs source aoi) (values ledger) in
    let sorted =
      sum_of-sort_by (λ a b. leb a.provider_date b.provider_date) record_backlog own_records in
    let zero_sum = sum_of-zero record_backlog own_records in
    let each = own_backlog source aoi (values ledger) in
    ((λ e. each.0 (zero_sum.0 (sym sorted ∙ e))), (λ all. sorted ∙ zero_sum.1 (each.1 all)))
