-- ===== src/Services/Sentinel2/Views.antt =====
-- What a mode allows an item to report and to change.
use akasha_ingestion.Base.{List, ◌≡◌, ◌≢◌, refl}
use akasha_ingestion.Schemas.{Mode, metadata_only, mirror_only}
use akasha_ingestion.Providers.Contracts.{Result, ok, raised}
use akasha_ingestion.Services.Sentinel2.Summary.{StacItem, ItemOutcome, processed_of}
use akasha_ingestion.Services.Sentinel2.Item.{Scene, Asset, Operations}

-- What a mode allows: only the full pipeline derives outputs, and a run of metadata copies nothing.
abbrev pub FitsMode : Mode → ItemOutcome → Type 0
FitsMode metadata_only o = (processed_of o.ending ≡ 0) × (o.mirrored ≡ 0) × (o.mirrored_bytes ≡ 0)
FitsMode mirror_only o = processed_of o.ending ≡ 0
FitsMode _ o = Unit

-- An outcome that counts nothing fits every mode.
abbrev IsIdle : ItemOutcome → Type 0
IsIdle o = (processed_of o.ending ≡ 0) × (o.mirrored ≡ 0) × (o.mirrored_bytes ≡ 0)

pub idle-FitsMode : (mode : Mode) (o : ItemOutcome) → IsIdle o → FitsMode mode o
idle-FitsMode metadata_only o idle = idle
idle-FitsMode mirror_only o idle = idle.0
idle-FitsMode mode o idle = tt

-- A view of the world that no operation changes, but those that the mode forbids: mirroring in a
-- `metadata_only` run, and processing in such a run and in a `mirror_only` run.
pub record IsView {W A : Type 0} (ops : Operations W) (mode : Mode) (seen : W → A) : Type 0 where
  pub put : (s : Scene) (w : W) → seen (ops.put_scene s w).1 ≡ seen w
  pub publish : (s : Scene) (w : W) → seen (ops.publish_scene s w).1 ≡ seen w
  pub manifests : (i : StacItem) (w : W) → seen (ops.store_manifests i w).1 ≡ seen w
  pub assets : (s : Scene) (w : W) → seen (ops.register_assets s w).1 ≡ seen w
  pub mirror :
      mode ≢ metadata_only
      → (i : StacItem) (assets : List Asset) (w : W)
      → seen (ops.mirror_assets i assets w).1 ≡ seen w
  pub process :
      mode ≢ metadata_only
      → mode ≢ mirror_only
      → (s : Scene) (assets : List Asset) (w : W) → seen (ops.process_scene s assets w).1 ≡ seen w

-- The outcome fits the mode, and the world looks as it did.
abbrev pub IsWithin : {W A : Type 0} → Mode → (W → A) → A → Result ItemOutcome × W → Type 0
IsWithin mode seen view (ok o, w) = FitsMode mode o × (seen w ≡ view)
IsWithin mode seen view (raised f, w) = seen w ≡ view

pub mirror-FitsMode :
    (mode : Mode) (o : ItemOutcome)
    → mode ≢ metadata_only
    → processed_of o.ending ≡ 0
    → FitsMode mode o
mirror-FitsMode metadata_only o h e = absurd (h refl)
mirror-FitsMode mirror_only o h e = e
mirror-FitsMode mode o h e = tt

pub full-FitsMode :
    (mode : Mode) (o : ItemOutcome) → mode ≢ metadata_only → mode ≢ mirror_only → FitsMode mode o
full-FitsMode metadata_only o h k = absurd (h refl)
full-FitsMode mirror_only o h k = absurd (k refl)
full-FitsMode mode o h k = tt
