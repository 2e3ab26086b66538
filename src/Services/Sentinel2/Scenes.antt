-- ===== src/Services/Sentinel2/Scenes.antt =====
-- The table of scenes behind the repository, and the scenes that are not `processing`.
use akasha_ingestion.Base.{ℕ, Bool, true, false, Option, none, some, List, ◌≡◌, refl, if◌then◌else◌}
use akasha_ingestion.Providers.Contracts.{Failure, provider_error, other_error, Result, ok, raised}
use akasha_ingestion.Services.Sentinel2.Summary.{StacItem, ItemOutcome}
use akasha_ingestion.Services.Sentinel2.Item.{
  ProcessingState, processing, Scene, Asset, Operations, mark_failed,
}

abbrev pub is_processing : ProcessingState → Bool
is_processing processing = true
is_processing _ = false

abbrev pub is_settled : Option Scene → Bool
is_settled none = true
is_settled (some s) = if is_processing s.processing_state then false else true

abbrev pub SameProduct : StacItem → StacItem → Type 0
SameProduct i j = (i.provider_adapter ≡ j.provider_adapter) × (i.stac_item_id ≡ j.stac_item_id)

-- The repositories over the table of scenes: a read that returns gives what the table holds, a scene
-- that was written is held, in its state, under its adapter and product, a write that raises changes
-- nothing, and the operations on manifests and assets leave the scenes as they are.
pub record Laws {W : Type 0} (ops : Operations W) (held : StacItem → W → Option Scene)
    : Type 0 where
  pub get_reads :
      (i : StacItem) (w : W) (o : Option Scene) → ops.get_scene i w ≡ ok o → o ≡ held i w
  pub put_get :
      (i : StacItem) (s kept : Scene) (w v : W)
      → ops.put_scene s w ≡ (ok kept, v)
      → SameProduct i s.item
      → is_settled (held i v) ≡ is_settled (some s)
  pub put_item : (s kept : Scene) (w v : W) → ops.put_scene s w ≡ (ok kept, v) → kept.item ≡ s.item
  pub put_raised :
      (i : StacItem) (s : Scene) (f : Failure) (w v : W)
      → ops.put_scene s w ≡ (raised f, v)
      → held i v ≡ held i w
  pub held_item : (i : StacItem) (s : Scene) (w : W) → held i w ≡ some s → SameProduct i s.item
  pub manifests_keep : (i j : StacItem) (w : W) → held i (ops.store_manifests j w).1 ≡ held i w
  pub assets_keep :
      (i : StacItem) (s : Scene) (w : W) → held i (ops.register_assets s w).1 ≡ held i w
  pub mirror_keeps :
      (i j : StacItem) (assets : List Asset) (w : W)
      → held i (ops.mirror_assets j assets w).1 ≡ held i w
  pub process_item_kept :
      (s : Scene) (assets : List Asset) (w : W) → (ops.process_scene s assets w).0.1.item ≡ s.item
  pub publish_item_kept : (s : Scene) (w : W) → (ops.publish_scene s w).0.1.item ≡ s.item
  pub publish_settled :
      (i : StacItem) (s : Scene) (w : W)
      → is_settled (held i w) ≡ true
      → is_settled (some s) ≡ true
      → is_settled (held i (ops.publish_scene s w).1) ≡ true

pub failed_settled :
    (f : Failure) (now : ℕ) (s : Scene) → is_settled (some (mark_failed f now s)) ≡ true
failed_settled (provider_error category message) now s = refl
failed_settled (other_error message) now s = refl

-- An item that ended with an outcome left its scene settled.
abbrev pub LeavesSettled :
    {W : Type 0} → (StacItem → W → Option Scene) → StacItem → Result ItemOutcome × W → Type 0
LeavesSettled held item (ok o, w) = is_settled (held item w) ≡ true
LeavesSettled held item (raised f, w) = Unit
