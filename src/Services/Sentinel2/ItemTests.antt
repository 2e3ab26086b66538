-- ===== src/Services/Sentinel2/ItemTests.antt =====
-- Items over a small catalogue, and the theorems about them there.
use akasha_ingestion.Base.{
  ℕ, ◌+◌, false, Option, none, some, [], ◌∷◌, String, ◌≡◌, refl, sym, arith, eq_iff, string_eq,
  pair_eq, ◌∙◌, ap,
}
use akasha_ingestion.Base.Dict.{Dict, lookup, insert, lookup-insert}
use akasha_ingestion.Schemas.{full_pipeline, metadata_only, mirror_only}
use akasha_ingestion.Providers.Contracts.{other_error, ok, raised}
use akasha_ingestion.Services.Sentinel2.Summary.{StacItem, skipped, failure}
use akasha_ingestion.Services.Sentinel2.Item.{
  processing, Scene, Operations, index_names, nothing_mirrored, mark_complete, scene_is_complete,
  process_item, ingest, register_scene,
}
use akasha_ingestion.Services.Sentinel2.Scenes.{SameProduct, Laws, is_settled, LeavesSettled}
use akasha_ingestion.Services.Sentinel2.Settled.{process_item-settled}
use akasha_ingestion.Services.Sentinel2.Views.{IsView, IsWithin}
use akasha_ingestion.Services.Sentinel2.Modes.{process_item-IsWithin}

abbrev Scenes : Type 0
Scenes = Dict (String × String) Scene

abbrev product : StacItem → String × String
product i = (i.provider_adapter, i.stac_item_id)

abbrev at_item : StacItem → Option Scene → Option Scene
at_item i none = none
at_item i (some s) = some (record s { item = i })

abbrev held : StacItem → Scenes → Option Scene
held i w = at_item i (lookup (product i) w)

-- Scenes by their product; every scene that was written has all outputs, and rasters fail.
abbrev catalogue : Operations Scenes
catalogue = record {
  get_scene = λ i w. ok (held i w);
  put_scene = λ s w. (ok s, insert (product s.item) s w);
  output_names = λ id w. ok index_names;
  publishes = false;
  publish_scene = λ s w. ((ok tt, s), w);
  store_manifests = λ i w. (ok tt, w);
  validate_required_assets = λ i. ok tt;
  register_assets = λ s w. (ok [], w);
  mirror_assets = λ i assets w. (ok assets, w);
  process_scene = λ s assets w. ((raised (other_error []), s), w);
}

-- The catalogue when it cannot be written.
abbrev read_only : Operations Scenes
read_only = record catalogue { put_scene = λ s w. (raised (other_error []), w) }

ok_inj : {A : Type 0} {a b : A} → ok a ≡ ok b → a ≡ b
ok_inj e = cc e

at_item-settled : (i : StacItem) (o : Option Scene) → is_settled (at_item i o) ≡ is_settled o
at_item-settled i none = refl
at_item-settled i (some s) = refl

at_item-item :
    (i : StacItem) (s : Scene) (o : Option Scene) → at_item i o ≡ some s → SameProduct i s.item
at_item-item i s none e = (cc, cc)
at_item-item i s (some r) e = (cc, cc)

put_held :
    (i : StacItem) (s : Scene) (w : Scenes)
    → SameProduct i s.item
    → is_settled (held i (insert (product s.item) s w)) ≡ is_settled (some s)
put_held i s w same =
    at_item-settled i (lookup (product i) (insert (product s.item) s w))
    ∙ ap is_settled {y = some s} (
        ground (
          arith,
          lookup-insert (product s.item) (product i) s w,
          eq_iff s.item.provider_adapter i.provider_adapter,
          eq_iff s.item.stac_item_id i.stac_item_id,
        ))

catalogue-Laws : Laws catalogue held
catalogue-Laws = record {
  get_reads = λ i w o e. sym (ok_inj e);
  put_get = λ i s kept w v e same. ap (λ r. is_settled (held i r.1)) (sym e) ∙ put_held i s w same;
  put_item = λ s kept w v e. cc e;
  put_raised = λ i s f w v e. cc e;
  held_item = λ i s w e. at_item-item i s (lookup (product i) w) e;
  manifests_keep = λ i j w. refl;
  assets_keep = λ i s w. refl;
  mirror_keeps = λ i j assets w. refl;
  process_item_kept = λ s assets w. refl;
  publish_item_kept = λ s w. refl;
  publish_settled = λ i s w settled fine. settled;
}

abbrev item : StacItem
item = record { provider_adapter = "earth"; stac_item_id = "a"; logical_scene_key = "scene-a" }

abbrev done : Scene
done = record {
  id = some "s1";
  item = item;
  processing_state = processing;
  retry_count = 1;
  last_error = none;
  last_attempt_at = none;
  pgstac_item_id = none;
}

abbrev stored : Scenes
stored = (("earth", "a"), done) ∷ []

failing_run :
    (process_item catalogue 9 full_pipeline item []).0
    ≡ ok (nothing_mirrored (failure (other_error [])))
unfolding process_item ingest register_scene
failing_run = refl

-- A scene that is complete is marked so, in whatever state it was left.
complete_run :
    process_item catalogue 9 full_pipeline item stored
    ≡ (ok (nothing_mirrored skipped), (("earth", "a"), mark_complete done) ∷ [])
unfolding process_item scene_is_complete
complete_run = refl

-- A write that fails before the scene is registered fails the item and no more.
read_only_run :
    process_item read_only 9 full_pipeline item stored
    ≡ (ok (nothing_mirrored (failure (other_error []))), stored)
unfolding process_item scene_is_complete
read_only_run = refl

process_item-settled_example :
    LeavesSettled held item (process_item catalogue 9 full_pipeline item [])
process_item-settled_example =
    process_item-settled catalogue held catalogue-Laws 9 full_pipeline item [] refl

-- Operations that count the calls of the mirroring, for a scene that is new.
abbrev counting : Operations ℕ
counting = record {
  get_scene = λ i w. ok none;
  put_scene = λ s w. (ok s, w);
  output_names = λ id w. ok [];
  publishes = false;
  publish_scene = λ s w. ((ok tt, s), w);
  store_manifests = λ i w. (ok tt, w);
  validate_required_assets = λ i. ok tt;
  register_assets = λ s w. (ok [], w);
  mirror_assets = λ i assets w. (ok assets, w + 1);
  process_scene = λ s assets w. ((ok 6, s), w);
}

abbrev calls : ℕ → ℕ
calls w = w

counting-IsView : IsView counting metadata_only calls
counting-IsView = record {
  put = λ s w. refl;
  publish = λ s w. refl;
  manifests = λ i w. refl;
  assets = λ s w. refl;
  mirror = λ h i assets w. absurd (h refl);
  process = λ h k s assets w. refl;
}

mirror_only_run : (process_item counting 9 mirror_only item 0).1 ≡ 1
unfolding process_item ingest register_scene
mirror_only_run = refl

process_item-IsWithin_example :
    IsWithin metadata_only calls 0 (process_item counting 9 metadata_only item 0)
process_item-IsWithin_example =
    process_item-IsWithin counting metadata_only calls 9 item 0 counting-IsView
