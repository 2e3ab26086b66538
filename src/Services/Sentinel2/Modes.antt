-- ===== src/Services/Sentinel2/Modes.antt =====
-- What the mode of a run lets an item do.
use akasha_ingestion.Base.{
  ℕ, Bool, true, false, Option, none, some, List, ◌≡◌, ◌≢◌, ◌∙◌, refl, inl, inr, Bool-cases,
}
use akasha_ingestion.Schemas.{Mode, metadata_only, mirror_only}
use akasha_ingestion.Providers.Contracts.{Failure, Result, ok, raised}
use akasha_ingestion.Services.Sentinel2.Summary.{StacItem, ItemOutcome, failure, late_failure}
use akasha_ingestion.Services.Sentinel2.Item.{
  Scene, Asset, Operations, is_complete_state, mark_failed, mark_complete, mark_processing,
  new_scene, has_outputs, nothing_mirrored, outcome_of, scene_is_complete, register_found,
  register_scene, after_mark, after_completion, fail_scene, after_last, after_process, after_start,
  mirror_stops, metadata_stops, after_mirror, after_assets, after_validate, after_manifests,
  after_register, ingest, after_publish, skip_complete, by_outputs, by_completeness, process_known,
  process_item,
}
use akasha_ingestion.Services.Sentinel2.Views.{
  FitsMode, idle-FitsMode, mirror-FitsMode, full-FitsMode, IsView, IsWithin,
}

module _ {W A : Type 0} (ops : Operations W) (mode : Mode) (seen : W → A) (v : IsView ops mode seen)
    (view : A) (now : ℕ) (item : StacItem) where
  abbrev Within : Result ItemOutcome × W → Type 0
  Within r = IsWithin mode seen view r

  metadata_goes : metadata_stops ops mode ≡ false → mode ≢ metadata_only
  metadata_goes goes e = cc (rw e at goes)

  mirror_goes : mirror_stops ops mode ≡ false → mode ≢ mirror_only
  mirror_goes goes e = cc (rw e at goes)

  after_mark-IsWithin :
      (o : ItemOutcome) (r : Result Scene × W)
      → FitsMode mode o
      → seen r.1 ≡ view
      → Within (after_mark o r)
  after_mark-IsWithin o (ok s, w) fits same = (fits, same)
  after_mark-IsWithin o (raised f, w) fits same = same

  fail_scene-IsWithin :
      (o : ItemOutcome) (f : Failure) (s : Scene) (w : W)
      → FitsMode mode o
      → seen w ≡ view
      → Within (fail_scene ops now o f s w)
  fail_scene-IsWithin o f s w fits same =
      after_mark-IsWithin o (ops.put_scene (mark_failed f now s) w) fits
        (v.put (mark_failed f now s) w ∙ same)

  fail_idle-IsWithin :
      (f : Failure) (s : Scene) (w : W)
      → seen w ≡ view
      → Within (fail_scene ops now (nothing_mirrored (failure f)) f s w)
  fail_idle-IsWithin f s w same =
      fail_scene-IsWithin (nothing_mirrored (failure f)) f s w
        (idle-FitsMode mode (nothing_mirrored (failure f)) (refl, refl, refl)) same

  after_completion-IsWithin : (r : Result Scene × W) → seen r.1 ≡ view → Within (after_completion r)
  after_completion-IsWithin (ok s, w) same = (idle-FitsMode mode _ (refl, refl, refl), same)
  after_completion-IsWithin (raised f, w) same = (idle-FitsMode mode _ (refl, refl, refl), same)

  module _ (h : mode ≢ metadata_only) (k : mode ≢ mirror_only) where
    after_last-IsWithin :
        (assets : List Asset) (n : ℕ) (s : Scene) (r : Result Scene × W)
        → seen r.1 ≡ view
        → Within (after_last ops now item assets n s r)
    after_last-IsWithin assets n s (ok kept, w) same = (full-FitsMode mode _ h k, same)
    after_last-IsWithin assets n s (raised f, w) same =
        fail_scene-IsWithin (outcome_of item.stac_item_id assets (late_failure n f)) f s w
          (full-FitsMode mode _ h k) same

    after_process-IsWithin :
        (assets : List Asset) (r : (Result ℕ × Scene) × W)
        → seen r.1 ≡ view
        → Within (after_process ops now item assets r)
    after_process-IsWithin assets ((ok n, s), w) same =
        after_last-IsWithin assets n (mark_complete s) (ops.put_scene (mark_complete s) w)
          (v.put (mark_complete s) w ∙ same)
    after_process-IsWithin assets ((raised f, s), w) same =
        fail_scene-IsWithin (outcome_of item.stac_item_id assets (failure f)) f s w
          (full-FitsMode mode _ h k) same

    after_start-IsWithin :
        (assets : List Asset) (s : Scene) (r : Result Scene × W)
        → seen r.1 ≡ view
        → Within (after_start ops now item assets s r)
    after_start-IsWithin assets s (ok kept, w) same =
        after_process-IsWithin assets (ops.process_scene s assets w)
          (v.process h k s assets w ∙ same)
    after_start-IsWithin assets s (raised f, w) same =
        fail_scene-IsWithin (outcome_of item.stac_item_id assets (failure f)) f s w
          (full-FitsMode mode _ h k) same

  after_mirror-IsWithin :
      (s : Scene) (r : Result (List Asset) × W)
      → mode ≢ metadata_only
      → seen r.1 ≡ view
      → Within (after_mirror ops now mode item s r)
  after_mirror-IsWithin s (raised f, w) h same = fail_idle-IsWithin f s w same
  after_mirror-IsWithin s (ok assets, w) h same = elim (Bool-cases (mirror_stops ops mode)) [
    | inl stops ↦ rw stops (mirror-FitsMode mode _ h refl, same)
    | inr goes ↦ rw goes (
        after_start-IsWithin h (mirror_goes goes) assets (mark_processing now s)
          (ops.put_scene (mark_processing now s) w) (v.put (mark_processing now s) w ∙ same))
  ]

  after_assets-IsWithin :
      (s : Scene) (r : Result (List Asset) × W)
      → seen r.1 ≡ view
      → Within (after_assets ops now mode item s r)
  after_assets-IsWithin s (raised f, w) same = fail_idle-IsWithin f s w same
  after_assets-IsWithin s (ok assets, w) same = elim (Bool-cases (metadata_stops ops mode)) [
    | inl stops ↦ rw stops (idle-FitsMode mode _ (refl, refl, refl), same)
    | inr goes ↦ rw goes (
        after_mirror-IsWithin s (ops.mirror_assets item assets w) (metadata_goes goes)
          (v.mirror (metadata_goes goes) item assets w ∙ same))
  ]

  after_validate-IsWithin :
      (s : Scene) (r : Result {0} Unit) (w : W)
      → seen w ≡ view
      → Within (after_validate ops now mode item s r w)
  after_validate-IsWithin s (raised f) w same = fail_idle-IsWithin f s w same
  after_validate-IsWithin s (ok done) w same =
      after_assets-IsWithin s (ops.register_assets s w) (v.assets s w ∙ same)

  after_manifests-IsWithin :
      (s : Scene) (r : Result {0} Unit × W)
      → seen r.1 ≡ view
      → Within (after_manifests ops now mode item s r)
  after_manifests-IsWithin s (raised f, w) same = fail_idle-IsWithin f s w same
  after_manifests-IsWithin s (ok done, w) same =
      after_validate-IsWithin s (ops.validate_required_assets item) w same

  after_register-IsWithin :
      (r : Result Scene × W) → seen r.1 ≡ view → Within (after_register ops now mode item r)
  after_register-IsWithin (raised f, w) same = (idle-FitsMode mode _ (refl, refl, refl), same)
  after_register-IsWithin (ok s, w) same =
      after_manifests-IsWithin s (ops.store_manifests item w) (v.manifests item w ∙ same)

  register_found-view :
      (o : Result (Option Scene)) (w : W)
      → seen w ≡ view
      → seen (register_found ops item o w).1 ≡ view
  register_found-view (raised f) w same = same
  register_found-view (ok existing) w same = v.put (new_scene item existing) w ∙ same

  ingest-IsWithin : (w : W) → seen w ≡ view → Within (ingest ops now mode item w)
  unfolding ingest register_scene
  ingest-IsWithin w same =
      after_register-IsWithin (register_found ops item (ops.get_scene item w) w)
        (register_found-view (ops.get_scene item w) w same)

  after_publish-IsWithin :
      (r : (Result {0} Unit × Scene) × W) → seen r.1 ≡ view → Within (after_publish ops r)
  after_publish-IsWithin ((ok done, s), w) same =
      after_completion-IsWithin (ops.put_scene (mark_complete s) w)
        (v.put (mark_complete s) w ∙ same)
  after_publish-IsWithin ((raised f, s), w) same = (idle-FitsMode mode _ (refl, refl, refl), same)

  skip_complete-IsWithin : (s : Scene) (w : W) → seen w ≡ view → Within (skip_complete ops s w)
  skip_complete-IsWithin s w same = elim (Bool-cases (is_complete_state s.processing_state)) [
    | inl already ↦ rw already (idle-FitsMode mode _ (refl, refl, refl), same)
    | inr before ↦ rw before (
        after_completion-IsWithin (ops.put_scene (mark_complete s) w)
          (v.put (mark_complete s) w ∙ same))
  ]

  by_outputs-IsWithin :
      (s : Scene) (o : Result Bool) (w : W)
      → seen w ≡ view
      → Within (by_outputs ops now mode item s o w)
  by_outputs-IsWithin s (raised f) w same = (idle-FitsMode mode _ (refl, refl, refl), same)
  by_outputs-IsWithin s (ok true) w same =
      after_publish-IsWithin (ops.publish_scene s w) (v.publish s w ∙ same)
  by_outputs-IsWithin s (ok false) w same = ingest-IsWithin w same

  by_completeness-IsWithin :
      (s : Scene) (o : Result Bool) (w : W)
      → seen w ≡ view
      → Within (by_completeness ops now mode item s o w)
  by_completeness-IsWithin s (raised f) w same = (idle-FitsMode mode _ (refl, refl, refl), same)
  by_completeness-IsWithin s (ok true) w same = skip_complete-IsWithin s w same
  by_completeness-IsWithin s (ok false) w same =
      by_outputs-IsWithin s (has_outputs ops s.id w) w same

  process_known-IsWithin :
      (o : Result (Option Scene)) (w : W)
      → seen w ≡ view
      → Within (process_known ops now mode item o w)
  process_known-IsWithin (raised f) w same = (idle-FitsMode mode _ (refl, refl, refl), same)
  process_known-IsWithin (ok none) w same = ingest-IsWithin w same
  process_known-IsWithin (ok (some s)) w same =
      by_completeness-IsWithin s (scene_is_complete ops s w) w same

-- Whatever the operations return or raise, an item of a `metadata_only` run calls neither the
-- mirroring nor the processing, and an item of a `mirror_only` run does not call the processing: a
-- view of the world that the other operations keep is the same after the item. The counts that it
-- reports agree: such a run processes nothing, and the first kind mirrors nothing.
pub process_item-IsWithin :
    {W A : Type 0} (ops : Operations W) (mode : Mode) (seen : W → A) (now : ℕ) (item : StacItem)
    (w : W)
    → IsView ops mode seen
    → IsWithin mode seen (seen w) (process_item ops now mode item w)
unfolding process_item
process_item-IsWithin ops mode seen now item w v =
    process_known-IsWithin ops mode seen v (seen w) now item (ops.get_scene item w) w refl
