-- ===== src/Services/Sentinel2/Accounting.antt =====
-- Every item of a search is worked on and counted, whatever happens to it.
use akasha_ingestion.Base.{
  ◌+◌, List, [], ◌∷◌, ◌++◌, String, ◌≡◌, ◌≢◌, ◌↔◌, string_eq, refl, sym, ◌∙◌, arith, length, sum_of,
  map,
}
use akasha_ingestion.Base.Text.{Text}
use akasha_ingestion.Base.Dict.{Dict, insert}
use akasha_ingestion.Schemas.{Mode}
use akasha_ingestion.Services.Sentinel2.Summary.{
  StacItem, BackfillSummary, ItemEnd, ItemOutcome, skipped, processed, failure, late_failure,
  skipped_of, processed_of, failed_of, add_outcome, Pipeline, process_loop, process_items,
  empty_summary, record_failure,
}
use mathlib.Core.List.{append-nil, append_assoc}

-- What the counters add up to over a list of outcomes, from a summary `s` to a summary `t`.
pub record Counts (s t : BackfillSummary) (items : List StacItem) (os : List ItemOutcome)
    : Type 0 where
  pub searched : t.searched_count ≡ s.searched_count
  pub accepted : t.accepted_count ≡ s.accepted_count + length items
  pub processed_total :
      t.processed_count ≡ s.processed_count + sum_of (λ o. processed_of o.ending) os
  pub skipped_total : t.skipped_count ≡ s.skipped_count + sum_of (λ o. skipped_of o.ending) os
  pub failed_total : t.failed_count ≡ s.failed_count + sum_of (λ o. failed_of o.ending) os
  pub mirrored_total :
      t.mirrored_asset_count ≡ s.mirrored_asset_count + sum_of ItemOutcome.mirrored os
  pub bytes_total :
      t.actual_source_mirror_bytes
      ≡ s.actual_source_mirror_bytes + sum_of ItemOutcome.mirrored_bytes os
  pub ids : t.stac_item_ids ≡ s.stac_item_ids ++ map StacItem.stac_item_id items

-- The failed items are listed exactly when some failed.
pub IsHonest : BackfillSummary → Type 0
IsHonest s = (s.failed_count ≡ 0) ↔ (s.failed_items ≡ [])

insert-ne-nil : (k : String) (v : Text) (d : Dict String Text) → insert k v d ≢ []
insert-ne-nil k v [] = λ e. cc
insert-ne-nil k v ((j, w) ∷ d) = ground arith

add_outcome-IsHonest :
    (item : StacItem) (o : ItemOutcome) (s : BackfillSummary)
    → IsHonest s
    → IsHonest (add_outcome item o s)
unfolding IsHonest
add_outcome-IsHonest item o s h = by_end o.ending
  where
    by_end :
        (e : ItemEnd)
        → (s.failed_count + failed_of e ≡ 0)
          ↔ (record_failure item.stac_item_id e s.failed_items ≡ [])
    by_end skipped = (λ p. h.0 (omega arith), λ q. omega (arith, h.1 q))
    by_end (processed n) = (λ p. h.0 (omega arith), λ q. omega (arith, h.1 q))
    by_end (failure f) =
        (λ p. absurd (omega arith), λ q. absurd (insert-ne-nil _ _ s.failed_items q))
    by_end (late_failure n f) =
        (λ p. absurd (omega arith), λ q. absurd (insert-ne-nil _ _ s.failed_items q))

module _ {W : Type 0} (pipe : Pipeline W) (mode : Mode) where
  -- The outcomes of the items one after the other, each in the world that the last one left.
  pub outcomes : List StacItem → W → List ItemOutcome
  outcomes [] w = []
  outcomes (item ∷ items) w =
      (pipe.process_item mode item w).0 ∷ outcomes items (pipe.process_item mode item w).1

  process_loop-Counts :
      (items : List StacItem) (s : BackfillSummary) (w : W)
      → Counts s (process_loop pipe mode items s w).0 items (outcomes items w)
  unfolding process_loop outcomes
  process_loop-Counts [] s w = record {
    searched = refl;
    accepted = omega arith;
    processed_total = omega arith;
    skipped_total = omega arith;
    failed_total = omega arith;
    mirrored_total = omega arith;
    bytes_total = omega arith;
    ids = sym (append-nil s.stac_item_ids);
  }
  process_loop-Counts (item ∷ items) s w =
      let o = (pipe.process_item mode item w).0 in
      let h = process_loop-Counts items (add_outcome item o s) (pipe.process_item mode item w).1 in
      record {
        searched = h.searched;
        accepted = omega (arith, h.accepted);
        processed_total = omega (arith, h.processed_total);
        skipped_total = omega (arith, h.skipped_total);
        failed_total = omega (arith, h.failed_total);
        mirrored_total = omega (arith, h.mirrored_total);
        bytes_total = omega (arith, h.bytes_total);
        ids =
            h.ids
            ∙ append_assoc s.stac_item_ids (item.stac_item_id ∷ [])
                (map StacItem.stac_item_id items);
      }

  -- Every item is worked on, in order, also after one that fails: the summary counts each of them
  -- and adds up what the outcomes report.
  pub process_items-Counts :
      (items : List StacItem) (w : W)
      → Counts
          (record empty_summary { searched_count = length items })
          (process_items pipe mode items w).0
          items
          (outcomes items w)
  unfolding process_items
  process_items-Counts items w = process_loop-Counts items _ w

  process_loop-IsHonest :
      (items : List StacItem) (s : BackfillSummary) (w : W)
      → IsHonest s
      → IsHonest (process_loop pipe mode items s w).0
  unfolding process_loop
  process_loop-IsHonest [] s w h = h
  process_loop-IsHonest (item ∷ items) s w h =
      process_loop-IsHonest items _ _
        (add_outcome-IsHonest item (pipe.process_item mode item w).0 s h)

  -- The summary of a search lists failed items exactly when it counts some.
  pub process_items-IsHonest :
      (items : List StacItem) (w : W) → IsHonest (process_items pipe mode items w).0
  unfolding process_items IsHonest
  process_items-IsHonest items w = process_loop-IsHonest items _ w (λ p. refl, λ q. refl)
