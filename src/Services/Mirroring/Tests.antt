-- ===== src/Services/Mirroring/Tests.antt =====
-- A download that breaks off first: the client counts its requests and serves a file of two bytes from
-- the second one on.
use akasha_ingestion.Base.{
  ℕ, zero, suc, ◌+◌, ◌≤◌, Option, none, some, [], ◌∷◌, String, ◌≡◌, refl, arith, sym, ◌++◌,
}
use mathlib.Core.List.{append-nil, append_assoc}
use akasha_ingestion.Storage.Memory.{Bytes}
use akasha_ingestion.Services.Mirroring.Defs.{
  finished, Reply, interrupted, received, body, ok, raised, limit_exceeded, network_error,
  MirrorSettings, attempts_from, download_asset,
}
use akasha_ingestion.Services.Mirroring.Bounded.{IsDownload, download_asset-IsBounded}

abbrev busy_once : ℕ → Reply
busy_once zero = body ((9 ∷ []) ∷ []) interrupted
busy_once (suc n) = body ((1 ∷ []) ∷ [] ∷ (2 ∷ []) ∷ []) finished

abbrev ask : String → ℕ → Reply × ℕ
ask href n = (busy_once n, suc n)

abbrev wait : ℕ → ℕ → ℕ
wait seconds n = n

abbrev count : ℕ → ℕ
count n = n

-- A hash that keeps all the bytes, and tells a file of two bytes.
abbrev update : Bytes → Bytes → Bytes
update chunk hashed = hashed ++ chunk

abbrev printed : Bytes → String
printed [] = "other"
printed (x ∷ []) = "other"
printed (x ∷ (y ∷ [])) = "digest"
printed _ = "other"

abbrev settings : ℕ → Option ℕ → MirrorSettings
settings attempts limit = record {
  max_bytes = limit;
  retry_attempts = attempts;
  retry_backoff = 1;
  mirror_mode = "mirror";
}

download_after_busy :
    download_asset [] update ask wait (settings 2 (some 4)) printed "https://source/a.tif" 0
    ≡ (ok ((1 ∷ 2 ∷ []), "digest", 2), 2)
unfolding download_asset attempts_from received
download_after_busy = refl

download_over_limit :
    download_asset [] update ask wait (settings 2 (some 1)) printed "https://source/a.tif" 0
    ≡ (raised limit_exceeded, 2)
unfolding download_asset attempts_from received
download_over_limit = refl

download_once :
    download_asset [] update ask wait (settings 1 none) printed "https://source/a.tif" 0
    ≡ (raised network_error, 1)
unfolding download_asset attempts_from received
download_once = refl

download_asset-IsBounded_example :
    IsDownload
      (some 4)
      (λ file. printed (update file []))
      (download_asset [] update ask wait (settings 2 (some 4)) printed "https://source/a.tif" 0).0
    × (count
          (download_asset [] update ask wait
            (settings 2 (some 4))
            printed
            "https://source/a.tif"
            0).1
        ≤ count 0 + 2)
download_asset-IsBounded_example =
    download_asset-IsBounded [] update append-nil (λ a b h. sym (append_assoc h a b)) ask wait
      (settings 2 (some 4)) count (λ href n. refl) (λ seconds n. refl) printed
      "https://source/a.tif" 0 (omega arith)
