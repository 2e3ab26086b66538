-- ===== src/Services/Mirroring/Defs.antt =====
-- `SourceMirroringService`: a download with retries and a byte limit, and its way into the object
-- store. The HTTP client is an argument, over a state that also counts what it was asked.
use akasha_ingestion.Base.{
  ℕ, zero, suc, ◌*◌, ◌^◌, Bool, true, false, ◌||◌, Option, none, some, List, [], ◌∷◌, ◌++◌, String,
  if◌then◌else◌, length, leb, ltb, nat_beq, ◌==◌, string_eq, ◌+◌,
}
use akasha_ingestion.Base.Dict.{Dict}
use akasha_ingestion.Base.Json.{Value, text}
use akasha_ingestion.Storage.Paths.{source_metadata_path}
use akasha_ingestion.Storage.Memory.{Bytes, Objects, put_source_cog, put_source_cog_file, put_json}

-- How the body of a response ends: all of it was read, or the network failed.
pub data Ending : Type 0 where
  finished interrupted : Ending

-- What a request comes to: no connection or a timeout, a status of 400 or more, or a body in chunks.
pub data Reply : Type 0 where
  no_connection : Reply
  bad_status : ℕ → Reply
  body : List Bytes → Ending → Reply

pub data MirrorError : Type 0 where
  network_error : MirrorError
  status_error : ℕ → MirrorError
  limit_exceeded : MirrorError
  -- `AssertionError("unreachable source mirror retry state")`
  unreachable : MirrorError

pub data Outcome (A : Type 0) : Type 0 where
  ok : A → Outcome A
  raised : MirrorError → Outcome A

pub record MirrorSettings : Type 0 where
  pub max_bytes : Option ℕ
  pub retry_attempts : ℕ
  pub retry_backoff : ℕ
  pub mirror_mode : String

pub record MirrorItem : Type 0 where
  pub provider_adapter : String
  pub source_id : String
  pub stac_item_id : String

pub record MirrorAsset : Type 0 where
  pub asset_key : String
  pub href : String
  pub alternate_hrefs : Value
  pub scale : Value
  pub offset : Value
  pub nodata : Value

pub record MirrorResult : Type 0 where
  pub asset_key : String
  pub object_path : String
  pub checksum_sha256 : String
  pub size_bytes : ℕ
  pub metadata_path : String
  pub metadata_checksum_sha256 : String

abbrev pub over_limit : Option ℕ → ℕ → Bool
over_limit none size = false
over_limit (some limit) size = ltb limit size

-- The hash object, `size_bytes`, and the file in scratch.
pub record Progress (H : Type 0) : Type 0 where
  pub digest : H
  pub size_bytes : ℕ
  pub file : Bytes

-- What the chunks of a body come to: the state after them, or that it went over the limit.
pub data Received (H : Type 0) : Type 0 where
  all_of : Progress H → Received H
  too_large : Progress H → Received H

-- What one attempt comes to: the file, an error that ends the download, or one after which the next
-- attempt may follow. The state is what the attempt leaves to the next.
pub data Attempt (H : Type 0) : Type 0 where
  complete : Progress H → Attempt H
  final : MirrorError → Progress H → Attempt H
  again : MirrorError → Progress H → Attempt H

abbrev pub read_all : {H : Type 0} → Ending → Received H → Attempt H
read_all ending (too_large pr) = final limit_exceeded pr
read_all finished (all_of pr) = complete pr
read_all interrupted (all_of pr) = again network_error pr

abbrev pub is_zero : ℕ → Bool
is_zero zero = true
is_zero (suc n) = false

-- `hashlib`: the hash of nothing, `update` and `hexdigest`.
module _ {H : Type 0} (new_hash : H) (feed : Bytes → H → H) where
  abbrev pub add_chunk : Bytes → Progress H → Progress H
  add_chunk chunk pr = record {
    digest = feed chunk pr.digest;
    size_bytes = pr.size_bytes + length chunk;
    file = pr.file ++ chunk;
  }

  -- `for chunk in response.iter_bytes(...)`
  unfoldable pub received : Option ℕ → Progress H → List Bytes → Received H
  received limit pr [] = all_of pr
  received limit pr ([] ∷ chunks) = received limit pr chunks
  received limit pr ((b ∷ chunk) ∷ chunks) =
      let rest = received limit (add_chunk (b ∷ chunk) pr) chunks in
      if over_limit limit (pr.size_bytes + length (b ∷ chunk))
      then too_large (record pr { size_bytes = pr.size_bytes + length (b ∷ chunk) })
      else rest

  -- `digest = sha256()` and `size_bytes = 0` at the start of an attempt
  abbrev pub reset : Progress H → Progress H
  reset pr = record pr { digest = new_hash; size_bytes = 0 }

  -- `file_path.open("wb")`
  abbrev pub open_file : Progress H → Progress H
  open_file pr = record pr { file = [] }

  abbrev pub attempt_of : Option ℕ → Progress H → Reply → Attempt H
  attempt_of limit pr no_connection = again network_error pr
  attempt_of limit pr (bad_status code) =
      if nat_beq code 429 || leb 500 code
      then again (status_error code) pr
      else final (status_error code) pr
  attempt_of limit pr (body chunks ending) = read_all ending (received limit (open_file pr) chunks)

module _ {H W : Type 0} (new_hash : H) (feed : Bytes → H → H) (stream : String → W → Reply × W)
    (sleep : ℕ → W → W) (settings : MirrorSettings) where
  -- The end of one attempt; `next` is what follows if the attempt was not the last one.
  abbrev pub after_attempt :
      Bool → (Progress H → W → Outcome (Progress H) × W) → Attempt H → W → Outcome (Progress H) × W
  after_attempt last next (complete pr) w = (ok pr, w)
  after_attempt last next (final e pr) w = (raised e, w)
  after_attempt true next (again e pr) w = (raised e, w)
  after_attempt false next (again e pr) w = next pr w

  -- `for attempt in range(attempts)`, with the attempts that are left
  unfoldable pub attempts_from : ℕ → ℕ → String → Progress H → W → Outcome (Progress H) × W
  attempts_from zero attempt href pr w = (raised unreachable, w)
  attempts_from (suc left) attempt href pr w =
      let r = stream href w in
      after_attempt (is_zero left)
        (λ q v.
          attempts_from left (suc attempt) href q (sleep (settings.retry_backoff * 2 ^ attempt) v))
        (attempt_of new_hash feed settings.max_bytes (reset new_hash feed pr) r.0) r.1

  abbrev pub no_progress : Progress H
  no_progress = record { digest = new_hash; size_bytes = 0; file = [] }

  module _ (hexdigest : H → String) where
    abbrev pub with_digest : Outcome (Progress H) × W → Outcome (Bytes × String × ℕ) × W
    with_digest (ok pr, w) = (ok (pr.file, hexdigest pr.digest, pr.size_bytes), w)
    with_digest (raised e, w) = (raised e, w)

    -- The file, its checksum and its size.
    unfoldable pub download_asset : String → W → Outcome (Bytes × String × ℕ) × W
    unfolding attempts_from
    download_asset href w = with_digest (attempts_from settings.retry_attempts 0 href no_progress w)

    -- `sha256(payload).hexdigest()`
    abbrev pub sha256 : Bytes → String
    sha256 payload = hexdigest (feed payload new_hash)

    module _ (dumps : Dict String Value → Bytes) (loads : Bytes → Dict String Value) where
      abbrev pub mirror_metadata : MirrorItem → MirrorAsset → String → String → Dict String Value
      mirror_metadata item asset object_path checksum =
          ("schema_version", text "phase2-source-mirror-v1")
          ∷ ("provider_adapter", text item.provider_adapter)
          ∷ ("source_id", text item.source_id)
          ∷ ("stac_item_id", text item.stac_item_id)
          ∷ ("asset_key", text asset.asset_key)
          ∷ ("source_href", text asset.href)
          ∷ ("alternate_hrefs", asset.alternate_hrefs)
          ∷ ("mirror_object_path", text object_path)
          ∷ ("mirror_checksum_sha256", text checksum)
          ∷ ("mirror_mode", text settings.mirror_mode)
          ∷ ("scale", asset.scale)
          ∷ ("offset", asset.offset)
          ∷ ("nodata", asset.nodata)
          ∷ []

      -- The object is there: its metadata are put beside it.
      abbrev pub put_metadata :
          MirrorItem → MirrorAsset → ℕ → (String × String) × Objects → MirrorResult × Objects
      put_metadata item asset size ((object_path, checksum), objects) =
          let put =
            put_json sha256 dumps loads
              (source_metadata_path item.provider_adapter item.source_id item.stac_item_id
                asset.asset_key)
              (mirror_metadata item asset object_path checksum) objects in
          (
            record {
              asset_key = asset.asset_key;
              object_path = object_path;
              checksum_sha256 = checksum;
              size_bytes = size;
              metadata_path = put.0.0;
              metadata_checksum_sha256 = put.0.1;
            },
            put.1,
          )

      abbrev pub put_downloaded :
          MirrorItem
          → MirrorAsset
          → Objects
          → Outcome (Bytes × String × ℕ) × W
          → Outcome MirrorResult × (Objects × W)
      put_downloaded item asset objects (raised e, w) = (raised e, (objects, w))
      put_downloaded item asset objects (ok (file, checksum, size), w) =
          let r = put_metadata item asset size (
            put_source_cog_file sha256 item.provider_adapter item.source_id item.stac_item_id
              asset.asset_key file checksum objects) in
          (ok r.0, (r.1, w))

      -- `download_href or asset.href`
      abbrev pub href_or : Option String → String → String
      href_or none href = href
      href_or (some given) href = if given == "" then href else given

      unfoldable pub mirror_asset :
          MirrorItem
          → MirrorAsset
          → Option Bytes
          → Option String
          → Objects
          → W
          → Outcome MirrorResult × (Objects × W)
      mirror_asset item asset (some payload) download_href objects w =
          let r = put_metadata item asset (length payload) (
            put_source_cog sha256 item.provider_adapter item.source_id item.stac_item_id
              asset.asset_key payload objects) in
          (ok r.0, (r.1, w))
      mirror_asset item asset none download_href objects w =
          put_downloaded item asset objects (download_asset (href_or download_href asset.href) w)
