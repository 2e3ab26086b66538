-- ===== src/Storage/Reading.antt =====
-- What was put is read back.
use akasha_ingestion.Base.{
  Option, some, String, ◌≡◌, ◌≢◌, refl, sym, ap, ◌∙◌, string_eq, beq_refl, beq_ne, length,
}
use akasha_ingestion.Base.Dict.{lookup, insert, lookup-insert}
use akasha_ingestion.Base.Text.{codes, utf8}
use akasha_ingestion.Storage.Paths.{digest_path}
use akasha_ingestion.Storage.Memory.{
  Bytes, Objects, found, required, stat_found, get, get_required, stat, put_with, put_bytes,
  put_file, checksum_or, put_json, get_json,
}
use text.Mathlib.TextLemmas.{append_cancel_left, append-nil}

-- An object is not its own checksum.
digest_path-other : (p : String) → digest_path p ≢ p
digest_path-other p same = cc (append_cancel_left p ".sha256" "" (same ∙ sym (append-nil p)))

-- An object was put under a path: it is read back as it was, with its size; its checksum stands
-- beside it; every other object is as before.
pub record Stored (p : String) (payload : Bytes) (checksum : String) (before after : Objects)
    : Type 0 where
  pub read : get_required p after ≡ found payload
  pub sized : stat p after ≡ found (record { object_path = p; size_bytes = length payload })
  pub digest : get_required (digest_path p) after ≡ found (utf8 (codes checksum))
  pub others : (q : String) → q ≢ p → q ≢ digest_path p → get q after ≡ get q before

module _ (sha256 : Bytes → String) (p : String) (payload : Bytes) where
  payload_there :
      (checksum : String) (s : Objects)
      → lookup p (put_with sha256 p payload checksum s).1 ≡ some payload
  payload_there checksum s =
      lookup-insert (digest_path p) p (utf8 (codes checksum)) (insert p payload s)
      ∙ rw (beq_ne (digest_path p) p (digest_path-other p))
          (lookup-insert p p payload s ∙ rw (beq_refl p) refl)

  digest_there :
      (checksum : String) (s : Objects)
      → lookup (digest_path p) (put_with sha256 p payload checksum s).1
        ≡ some (utf8 (codes checksum))
  digest_there checksum s =
      lookup-insert (digest_path p) (digest_path p) (utf8 (codes checksum)) (insert p payload s)
      ∙ rw (beq_refl (digest_path p)) refl

  others_there :
      (checksum : String) (s : Objects) (q : String)
      → q ≢ p
      → q ≢ digest_path p
      → lookup q (put_with sha256 p payload checksum s).1 ≡ lookup q s
  others_there checksum s q other beside =
      lookup-insert (digest_path p) q (utf8 (codes checksum)) (insert p payload s)
      ∙ rw (beq_ne (digest_path p) q (λ e. beside (sym e)))
          (lookup-insert p q payload s ∙ rw (beq_ne p q (λ e. other (sym e))) refl)

  put_with-Stored :
      (checksum : String) (s : Objects)
      → Stored p payload checksum s (put_with sha256 p payload checksum s).1
  unfolding get_required stat get
  put_with-Stored checksum s = record {
    read = ap (required p) (payload_there checksum s);
    sized = ap (stat_found p) (payload_there checksum s);
    digest = ap (required (digest_path p)) (digest_there checksum s);
    others = others_there checksum s;
  }

  -- A file that was put is read back as it was, with its size and, beside it, the checksum that
  -- the call returns, which is the given one if it is not empty; no other object changes.
  pub put_file-Stored :
      (checksum : Option String) (s : Objects)
      → ((put_file sha256 p payload checksum s).0 ≡ (p, checksum_or sha256 checksum payload))
        × Stored p payload
            (checksum_or sha256 checksum payload)
            s
            (put_file sha256 p payload checksum s).1
  unfolding put_file
  put_file-Stored checksum s = (refl, put_with-Stored (checksum_or sha256 checksum payload) s)

  -- The same of bytes that were put, with their digest.
  pub put_bytes-Stored :
      (s : Objects) → Stored p payload (sha256 payload) s (put_bytes sha256 p payload s).1
  unfolding put_bytes
  put_bytes-Stored s = put_with-Stored (sha256 payload) s

-- A document that was put is read back, if `loads` undoes `dumps` on it.
pub get_json-put_json :
    {J : Type 0} (sha256 : Bytes → String) (dumps : J → Bytes) (loads : Bytes → J) (p : String)
    (document : J) (s : Objects)
    → loads (dumps document) ≡ document
    → get_json sha256 dumps loads p (put_json sha256 dumps loads p document s).1 ≡ found document
unfolding get_json put_json
get_json-put_json sha256 dumps loads p document s undone =
    rw (Stored.read (put_bytes-Stored sha256 p (dumps document) s)) (ap found undone)
