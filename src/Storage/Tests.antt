-- ===== src/Storage/Tests.antt =====
-- A store with one object, and the theorem about it there.
use akasha_ingestion.Base.{some, [], ◌∷◌, String, ◌≡◌, string_eq}
use akasha_ingestion.Storage.Memory.{Bytes, Objects, put_file}
use akasha_ingestion.Storage.Reading.{Stored, put_file-Stored}

abbrev digest : Bytes → String
digest payload = "digest"

abbrev stored : Objects
stored = ("a", 1 ∷ []) ∷ ("a.sha256", 2 ∷ []) ∷ []

put_file-Stored_example :
    ((put_file digest "a" (3 ∷ 4 ∷ []) (some "sum") stored).0 ≡ ("a", "sum"))
    × Stored "a" (3 ∷ 4 ∷ []) "sum" stored (put_file digest "a" (3 ∷ 4 ∷ []) (some "sum") stored).1
put_file-Stored_example = put_file-Stored digest "a" (3 ∷ 4 ∷ []) (some "sum") stored
