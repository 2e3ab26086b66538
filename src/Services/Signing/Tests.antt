-- ===== src/Services/Signing/Tests.antt =====
-- A request that is signed and verified, under an HMAC that returns the message.
use akasha_ingestion.Base.{◌+◌, ◌≤◌, true, [], ◌∷◌, ◌≡◌, ◌↔◌, arith}
use akasha_ingestion.Base.Text.{Text}
use akasha_ingestion.Services.Signing.Defs.{Signer, Signed, new_signer, sign, verify}
use akasha_ingestion.Services.Signing.Sound.{IsPlain, SameRequest, verify-sign}

abbrev plain_hmac : Text → Text → Text
plain_hmac secret message = message

abbrev same : Text → Text
same text = text

abbrev signer : Signer
signer = new_signer [] 60

abbrev request : Signed
request = record {
  method = 71 ∷ [];
  operation = 111 ∷ [];
  resource_id = 114 ∷ [];
  path_template = 112 ∷ [];
  geometry_or_query_hash = 104 ∷ [];
}

request-IsPlain : IsPlain plain_hmac same same request
request-IsPlain = record {
  method = ((λ e. omega arith), tt);
  operation = ((λ e. omega arith), tt);
  resource = ((λ e. omega arith), tt);
  template = ((λ e. omega arith), tt);
}

verify-sign_example :
    (verify plain_hmac same same signer 100 request 160 signer.key_id
        (sign plain_hmac same same signer 100 request).signature
      ≡ true)
    ↔ ((signer.key_id ≡ signer.key_id)
        × (100 ≤ 160)
        × (160 ≡ 100 + 60)
        × SameRequest plain_hmac same same request request)
verify-sign_example =
    verify-sign plain_hmac same same signer 100 100 160 request request signer.key_id (λ a b e. e)
      request-IsPlain request-IsPlain
