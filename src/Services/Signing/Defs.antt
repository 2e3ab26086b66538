-- ===== src/Services/Signing/Defs.antt =====
-- `SigningService`. HMAC-SHA256 in hexadecimal, `str.upper` and SHA256 are arguments; a time is a
-- number of seconds.
use akasha_ingestion.Base.{
  ℕ, ◌+◌, Bool, false, not, ◌||◌, List, [], ◌∷◌, ◌++◌, if◌then◌else◌, ◌==◌, list_eq, nat_eq, ltb,
}
use akasha_ingestion.Base.Text.{Text, codes, decimal}

pub record Signer : Type 0 where
  pub secret : Text
  pub ttl_seconds : ℕ
  pub key_id : Text

-- What a signature is for.
pub record Signed : Type 0 where
  pub method : Text
  pub operation : Text
  pub resource_id : Text
  pub path_template : Text
  pub geometry_or_query_hash : Text

pub record SignedReference : Type 0 where
  pub resource_id : Text
  pub operation : Text
  pub path_template : Text
  pub expires_at : ℕ
  pub key_id : Text
  pub signature : Text

abbrev pub newline : ℕ
newline = 10

-- `"\n".join(parts)`
abbrev pub join_lines : List Text → Text
join_lines [] = []
join_lines (part ∷ []) = part
join_lines (part ∷ more ∷ parts) = part ++ (newline ∷ join_lines (more ∷ parts))

-- `SigningService(settings)`
abbrev pub new_signer : Text → ℕ → Signer
new_signer secret ttl = record { secret = secret; ttl_seconds = ttl; key_id = codes "default" }

module _ (hmac : Text → Text → Text) (upper : Text → Text) (sha256 : Text → Text) where
  abbrev pub lines : Signed → ℕ → List Text
  lines s expires_at =
      codes "v1"
      ∷ upper s.method
      ∷ s.operation
      ∷ s.resource_id
      ∷ s.path_template
      ∷ decimal expires_at
      ∷ s.geometry_or_query_hash
      ∷ []

  unfoldable pub signature : Signer → Signed → ℕ → Text
  signature signer s expires_at = hmac signer.secret (join_lines (lines s expires_at))

  unfoldable pub sign : Signer → ℕ → Signed → SignedReference
  unfolding signature
  sign signer now s = record {
    resource_id = s.resource_id;
    operation = s.operation;
    path_template = s.path_template;
    expires_at = now + signer.ttl_seconds;
    key_id = signer.key_id;
    signature = signature signer s (now + signer.ttl_seconds);
  }

  unfoldable pub verify : Signer → ℕ → Signed → ℕ → Text → Text → Bool
  unfolding signature
  verify signer now s expires_at key_id given =
      if not (key_id == signer.key_id) || ltb expires_at now
      then false
      else signature signer s expires_at == given

  unfoldable pub query_hash : Text → Text
  query_hash payload = sha256 payload
