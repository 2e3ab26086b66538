-- ===== src/Services/Sentinel2/Settled.antt =====
-- The state in which an item leaves its scene.
use akasha_ingestion.Base.{
  ℕ, Bool, true, false, Option, none, some, List, ◌≡◌, refl, sym, subst, ◌∙◌, ap, inl, inr,
  Bool-cases,
}
use akasha_ingestion.Schemas.{Mode}
use akasha_ingestion.Providers.Contracts.{Failure, Result, ok, raised}
use akasha_ingestion.Services.Sentinel2.Summary.{StacItem, ItemOutcome, failure, late_failure}
use akasha_ingestion.Services.Sentinel2.Item.{
  Scene, Asset, Operations, is_complete_state, nothing_mirrored, outcome_of, mark_failed,
  mark_complete, mark_processing, new_scene, has_outputs, scene_is_complete, register_found,
  register_scene, after_mark, after_completion, fail_scene, after_last, after_process, after_start,
  mirror_stops, after_mirror, metadata_stops, after_assets, after_validate, after_manifests,
  after_register, ingest, after_publish, skip_complete, by_outputs, by_completeness, process_known,
  process_item,
}
use akasha_ingestion.Services.Sentinel2.Scenes.{
  is_settled, SameProduct, Laws, failed_settled, LeavesSettled,
}

module _ {W : Type 0} (ops : Operations W) (held : StacItem → W → Option Scene)
    (laws : Laws ops held) (now : ℕ) (mode : Mode) (item : StacItem) where
  abbrev Settles : Result ItemOutcome × W → Type 0
  Settles r = LeavesSettled held item r

  after_mark-settled :
      (o : ItemOutcome) (s : Scene) (w : W) (r : Result Scene × W)
      → ops.put_scene s w ≡ r
      → SameProduct item s.item
      → is_settled (some s) ≡ true
      → Settles (after_mark o r)
  after_mark-settled o s w (ok kept, v) e same settled =
      laws.put_get item s kept w v e same ∙ settled
  after_mark-settled o s w (raised f, v) e same settled = tt

  fail_scene-settled :
      (o : ItemOutcome) (f : Failure) (s : Scene) (w : W)
      → SameProduct item s.item
      → Settles (fail_scene ops now o f s w)
  fail_scene-settled o f s w same =
      after_mark-settled o (mark_failed f now s) w (ops.put_scene (mark_failed f now s) w) refl same
        (failed_settled f now s)

  after_completion-settled :
      (s : Scene) (w : W) (r : Result Scene × W)
      → ops.put_scene s w ≡ r
      → SameProduct item s.item
      → is_settled (some s) ≡ true
      → is_settled (held item w) ≡ true
      → Settles (after_completion r)
  after_completion-settled s w (ok kept, v) e same settled before =
      laws.put_get item s kept w v e same ∙ settled
  after_completion-settled s w (raised f, v) e same settled before =
      ap is_settled (laws.put_raised item s f w v e) ∙ before

  after_last-settled :
      (assets : List Asset) (n : ℕ) (s : Scene) (w : W) (r : Result Scene × W)
      → ops.put_scene (mark_complete s) w ≡ r
      → SameProduct item s.item
      → Settles (after_last ops now item assets n (mark_complete s) r)
  after_last-settled assets n s w (ok kept, v) e same =
      laws.put_get item (mark_complete s) kept w v e same
  after_last-settled assets n s w (raised f, v) e same =
      fail_scene-settled (outcome_of item.stac_item_id assets (late_failure n f)) f
        (mark_complete s) v same

  after_process-settled :
      (assets : List Asset) (r : (Result ℕ × Scene) × W)
      → SameProduct item r.0.1.item
      → Settles (after_process ops now item assets r)
  after_process-settled assets ((ok n, s), w) same =
      after_last-settled assets n s w (ops.put_scene (mark_complete s) w) refl same
  after_process-settled assets ((raised f, s), w) same =
      fail_scene-settled (outcome_of item.stac_item_id assets (failure f)) f s w same

  after_start-settled :
      (assets : List Asset) (s : Scene) (r : Result Scene × W)
      → SameProduct item s.item
      → Settles (after_start ops now item assets s r)
  after_start-settled assets s (ok kept, w) same =
      after_process-settled assets (ops.process_scene s assets w)
        (subst (SameProduct item) (sym (laws.process_item_kept s assets w)) same)
  after_start-settled assets s (raised f, w) same =
      fail_scene-settled (outcome_of item.stac_item_id assets (failure f)) f s w same

  after_mirror-settled :
      (s : Scene) (r : Result (List Asset) × W)
      → SameProduct item s.item
      → is_settled (held item r.1) ≡ true
      → Settles (after_mirror ops now mode item s r)
  after_mirror-settled s (raised f, w) same settled =
      fail_scene-settled (nothing_mirrored (failure f)) f s w same
  after_mirror-settled s (ok assets, w) same settled = elim (Bool-cases (mirror_stops ops mode)) [
    | inl stops ↦ rw stops settled
    | inr goes ↦ rw goes (
        after_start-settled assets (mark_processing now s) (ops.put_scene (mark_processing now s) w)
          same)
  ]

  after_assets-settled :
      (s : Scene) (r : Result (List Asset) × W)
      → SameProduct item s.item
      → is_settled (held item r.1) ≡ true
      → Settles (after_assets ops now mode item s r)
  after_assets-settled s (raised f, w) same settled =
      fail_scene-settled (nothing_mirrored (failure f)) f s w same
  after_assets-settled s (ok assets, w) same settled = elim (Bool-cases (metadata_stops ops mode)) [
    | inl stops ↦ rw stops settled
    | inr goes ↦ rw goes (
        after_mirror-settled s (ops.mirror_assets item assets w) same
          (ap is_settled (laws.mirror_keeps item item assets w) ∙ settled))
  ]

  after_validate-settled :
      (s : Scene) (r : Result {0} Unit) (w : W)
      → SameProduct item s.item
      → is_settled (held item w) ≡ true
      → Settles (after_validate ops now mode item s r w)
  after_validate-settled s (raised f) w same settled =
      fail_scene-settled (nothing_mirrored (failure f)) f s w same
  after_validate-settled s (ok done) w same settled =
      after_assets-settled s (ops.register_assets s w) same
        (ap is_settled (laws.assets_keep item s w) ∙ settled)

  after_manifests-settled :
      (s : Scene) (r : Result {0} Unit × W)
      → SameProduct item s.item
      → is_settled (held item r.1) ≡ true
      → Settles (after_manifests ops now mode item s r)
  after_manifests-settled s (raised f, w) same settled =
      fail_scene-settled (nothing_mirrored (failure f)) f s w same
  after_manifests-settled s (ok done, w) same settled =
      after_validate-settled s (ops.validate_required_assets item) w same settled

  after_register-settled :
      (s : Scene) (w : W) (r : Result Scene × W)
      → ops.put_scene s w ≡ r
      → SameProduct item s.item
      → is_settled (some s) ≡ true
      → is_settled (held item w) ≡ true
      → Settles (after_register ops now mode item r)
  after_register-settled s w (raised f, v) e same settled before =
      ap is_settled (laws.put_raised item s f w v e) ∙ before
  after_register-settled s w (ok kept, v) e same settled before =
      after_manifests-settled kept (ops.store_manifests item v)
        (subst (SameProduct item) (sym (laws.put_item s kept w v e)) same)
        (ap is_settled (laws.manifests_keep item item v)
          ∙ laws.put_get item s kept w v e same
          ∙ settled)

  register_found-settled :
      (o : Result (Option Scene)) (w : W)
      → is_settled (held item w) ≡ true
      → Settles (after_register ops now mode item (register_found ops item o w))
  register_found-settled (raised f) w before = before
  register_found-settled (ok existing) w before =
      after_register-settled (new_scene item existing) w (ops.put_scene (new_scene item existing) w)
        refl (refl, refl) refl before

  ingest-settled : (w : W) → is_settled (held item w) ≡ true → Settles (ingest ops now mode item w)
  unfolding ingest register_scene
  ingest-settled w before = register_found-settled (ops.get_scene item w) w before

  after_publish-settled :
      (r : (Result {0} Unit × Scene) × W)
      → SameProduct item r.0.1.item
      → is_settled (held item r.1) ≡ true
      → Settles (after_publish ops r)
  after_publish-settled ((ok done, s), w) same settled =
      after_completion-settled (mark_complete s) w (ops.put_scene (mark_complete s) w) refl same
        refl settled
  after_publish-settled ((raised f, s), w) same settled = settled

  skip_complete-settled :
      (s : Scene) (w : W)
      → SameProduct item s.item
      → is_settled (held item w) ≡ true
      → Settles (skip_complete ops s w)
  skip_complete-settled s w same before = elim (Bool-cases (is_complete_state s.processing_state)) [
    | inl already ↦ rw already before
    | inr unmarked ↦ rw unmarked (
        after_completion-settled (mark_complete s) w (ops.put_scene (mark_complete s) w) refl same
          refl before)
  ]

  by_outputs-settled :
      (s : Scene) (o : Result Bool) (w : W)
      → SameProduct item s.item
      → is_settled (some s) ≡ true
      → is_settled (held item w) ≡ true
      → Settles (by_outputs ops now mode item s o w)
  by_outputs-settled s (raised f) w same settled before = before
  by_outputs-settled s (ok false) w same settled before = ingest-settled w before
  by_outputs-settled s (ok true) w same settled before =
      after_publish-settled (ops.publish_scene s w)
        (subst (SameProduct item) (sym (laws.publish_item_kept s w)) same)
        (laws.publish_settled item s w before settled)

  by_completeness-settled :
      (s : Scene) (o : Result Bool) (w : W)
      → SameProduct item s.item
      → is_settled (some s) ≡ true
      → is_settled (held item w) ≡ true
      → Settles (by_completeness ops now mode item s o w)
  by_completeness-settled s (raised f) w same settled before = before
  by_completeness-settled s (ok true) w same settled before = skip_complete-settled s w same before
  by_completeness-settled s (ok false) w same settled before =
      by_outputs-settled s (has_outputs ops s.id w) w same settled before

  process_known-settled :
      (o : Result (Option Scene)) (w : W)
      → ops.get_scene item w ≡ o
      → is_settled (held item w) ≡ true
      → Settles (process_known ops now mode item o w)
  process_known-settled (raised f) w e before = before
  process_known-settled (ok none) w e before = ingest-settled w before
  process_known-settled (ok (some s)) w e before =
      let there = laws.get_reads item w (some s) e in
      by_completeness-settled s (scene_is_complete ops s w) w (laws.held_item item s w (sym there))
        (ap is_settled there ∙ before) before

  -- If reads, writes and the other operations treat the table of scenes as `Laws` has it, and the
  -- scene of an item is not in the state `processing` before, then it is not in that state when the
  -- item has ended with an outcome, in whatever step it ended or failed. An exception that leaves
  -- the loop, which the write of the failed scene raised, is not covered.
  pub process_item-settled :
      (w : W)
      → is_settled (held item w) ≡ true
      → LeavesSettled held item (process_item ops now mode item w)
  unfolding process_item
  process_item-settled w before = process_known-settled (ops.get_scene item w) w refl before
