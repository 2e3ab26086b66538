-- ===== src/Services/Signing/Sound.antt =====
-- A signature is good for what was signed, until it expires, and for nothing else.
use akasha_ingestion.Base.{
  ℕ, ◌+◌, ◌≤◌, true, ◌≡◌, ◌↔◌, refl, ap, arith, Bool-cases, Keyed, list_eq, nat_eq, ◌==◌, ltb, inl,
  inr,
}
use akasha_ingestion.Base.Text.{Text, codes, decimal}
use akasha_ingestion.Services.Signing.Defs.{
  Signer, Signed, join_lines, lines, signature, sign, verify,
}
use akasha_ingestion.Services.Signing.Canonical.{
  IsLine, line_split, decimal-injective, decimal-IsLine,
}

module _ (hmac : Text → Text → Text) (upper : Text → Text) (sha256 : Text → Text) where
  -- The fields before the last one have no line break.
  pub record IsPlain (s : Signed) : Type 0 where
    pub method : IsLine (upper s.method)
    pub operation : IsLine s.operation
    pub resource : IsLine s.resource_id
    pub template : IsLine s.path_template

  -- The two are signed alike: they differ at most in the case of the method.
  pub record SameRequest (s t : Signed) : Type 0 where
    pub method : upper s.method ≡ upper t.method
    pub operation : s.operation ≡ t.operation
    pub resource : s.resource_id ≡ t.resource_id
    pub template : s.path_template ≡ t.path_template
    pub hash : s.geometry_or_query_hash ≡ t.geometry_or_query_hash

  lines-injective :
      (s t : Signed) (m n : ℕ)
      → IsPlain s
      → IsPlain t
      → join_lines (lines hmac upper sha256 s m) ≡ join_lines (lines hmac upper sha256 t n)
      → SameRequest s t × (m ≡ n)
  lines-injective s t m n p q same =
      let version =
        line_split (codes "v1") (codes "v1") _ _ ((λ e. omega arith), ((λ e. omega arith), tt))
          ((λ e. omega arith), ((λ e. omega arith), tt)) same in
      let method = line_split (upper s.method) (upper t.method) _ _ p.method q.method version.1 in
      let operation = line_split s.operation t.operation _ _ p.operation q.operation method.1 in
      let resource = line_split s.resource_id t.resource_id _ _ p.resource q.resource operation.1 in
      let template =
        line_split s.path_template t.path_template _ _ p.template q.template resource.1 in
      let expiry =
        line_split (decimal m) (decimal n) _ _ (decimal-IsLine m) (decimal-IsLine n) template.1 in
      (
        record {
          method = method.0;
          operation = operation.0;
          resource = resource.0;
          template = template.0;
          hash = expiry.1;
        },
        decimal-injective m n expiry.0,
      )

  lines-same :
      (s t : Signed) (m n : ℕ)
      → SameRequest s t
      → m ≡ n
      → lines hmac upper sha256 s m ≡ lines hmac upper sha256 t n
  lines-same s t m n r same = rw (r.method, r.operation, r.resource, r.template, r.hash, same) refl

  -- If HMAC gives different texts different signatures under the secret, and the fields before the
  -- last have no line break, then the signature of a request is accepted exactly for a request that
  -- agrees in every field but the case of the method, with the expiry that was signed, under the
  -- signer's key id, and not after that expiry.
  pub verify-sign :
      (signer : Signer) (signed_at now expires_at : ℕ) (s t : Signed) (key_id : Text)
      → ((a b : Text) → hmac signer.secret a ≡ hmac signer.secret b → a ≡ b)
      → IsPlain s
      → IsPlain t
      → (verify hmac upper sha256 signer now t expires_at key_id
            (sign hmac upper sha256 signer signed_at s).signature
          ≡ true)
        ↔ ((key_id ≡ signer.key_id)
            × (now ≤ expires_at)
            × (expires_at ≡ signed_at + signer.ttl_seconds)
            × SameRequest t s)
  unfolding verify sign signature
  verify-sign signer signed_at now expires_at s t key_id unique p q =
      elim (Bool-cases (key_id == signer.key_id)) [
        | inr other ↦
            rw other
              ((λ e. cc e), (λ h. cc ((Keyed.same_iff list_eq key_id signer.key_id).1 h.0, other)))
        | inl known ↦ elim (Bool-cases (ltb expires_at now)) [
          | inr timely ↦
              rw (known, timely)
                (
                  (λ e.
                      let texts = unique _ _ (
                        (Keyed.same_iff list_eq (signature hmac upper sha256 signer t expires_at) (
                            signature hmac upper sha256 signer s
                              (signed_at + signer.ttl_seconds))).0
                          e) in
                      let all =
                        lines-injective t s expires_at (signed_at + signer.ttl_seconds) q p texts in
                      (
                        (Keyed.same_iff list_eq key_id signer.key_id).0 known,
                        ground arith,
                        all.1,
                        all.0,
                      )),
                  (λ h.
                      (Keyed.same_iff list_eq (signature hmac upper sha256 signer t expires_at)
                          (signature hmac upper sha256 signer s (signed_at + signer.ttl_seconds))).1
                        (ap (λ ls. hmac signer.secret (join_lines ls))
                          (lines-same t s expires_at (signed_at + signer.ttl_seconds) h.3 h.2))),
                )
          | inl over ↦ rw (known, over) ((λ e. cc e), (λ h. let le = h.1 in ground arith))
        ]
      ]
