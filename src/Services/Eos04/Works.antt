-- ===== src/Services/Eos04/Works.antt =====
-- When every call to the outside returns, so does a run of the EOS-04 service, with all its stages.
use akasha_ingestion.Base.{
  ℕ, Option, none, some, List, [], ◌∷◌, String, ◌≡◌, arith, string_eq, length, inl, inr, Bool-cases,
}
use akasha_ingestion.Base.Json.{Value}
use akasha_ingestion.Providers.Contracts.{Result, ok}
use akasha_ingestion.Jobs.Store.{Job}
use akasha_ingestion.Services.Staged.{Step, bind}
use akasha_ingestion.Services.Staged.Returning.{Yields, Returns, bind-Yields}
use akasha_ingestion.Services.Eos04.Records.{
  Candidate, Aoi, DownloadedProduct, SelectedProduct, PreparedScene, SceneRecord, AssetRecord,
  Settings, Operations,
}
use akasha_ingestion.Services.Eos04.Parts.{download_one, given, checksum_of}
use akasha_ingestion.Services.Eos04.Register.{
  route_id, store_and_register, publish as publish_item, register_pgstac, store_all,
}

-- Every call of the service to the outside returns.
pub record Works {E : Type 0} (ops : Operations E) : Type 0 where
  pub dates : (s : String) → (d : ℕ) × (ops.fromisoformat s ≡ ok d)
  pub aoi : (id : String) (e : E) → (a : Aoi) × ((ops.aoi_get id e).0 ≡ ok (some a))
  pub search :
      (source collection : String) (a : Aoi) (from to cap : ℕ) (e : E)
      → Returns (ops.search source collection a from to cap e)
  pub download :
      (job product collection : String) (e : E)
      → Returns (ops.download_product job product collection e)
  pub hash : (path : String) (e : E) → Returns (ops.file_sha256 path e)
  pub size : (path : String) (e : E) → Returns (ops.file_size path e)
  pub put_raw :
      (source product path checksum : String) (e : E)
      → Returns (ops.put_raw_file source product path checksum e)
  pub prepare : (p : SelectedProduct) (e : E) → Returns (ops.prepare_product p e)
  pub put_cog :
      (source product asset path checksum : String) (e : E)
      → Returns (ops.put_prepared_cog_file source product asset path checksum e)
  pub route : (source key : String) (e : E) → Returns (ops.get_by_route_key source key e)
  pub scene : (s : SceneRecord) (e : E) → Returns (ops.upsert_scene s e)
  pub asset : (a : AssetRecord) (e : E) → Returns (ops.upsert_asset a e)
  pub item :
      (s : SceneRecord) (a : AssetRecord) → (i : String × Value) × (ops.build_item s a ≡ ok i)
  pub publishes : (i : String × Value) (e : E) → Returns (ops.upsert_item_json i e)

module _ {W A B : Type 0} where
  pub both :
      (P : B → Type 0) (r : Result A × W) (k : A → Step W B)
      → Returns r
      → ((a : A) (v : W) → Yields P (k a v))
      → Yields P (bind r k)
  both P r k first next = bind-Yields (λ a. Unit) P r k first (λ a v t. next a v)

module _ {E : Type 0} (ops : Operations E) (settings : Settings) (works : Works ops) where
  checksum_of-Returns :
      (o : Option String) (path : String) (e : E) → Returns (checksum_of ops settings o path e)
  checksum_of-Returns none path e = works.hash path e
  checksum_of-Returns (some s) path e = tt

  pub download_one-Returns :
      (job : Job) (c : Candidate) (e : E) → Returns (download_one ops settings job c e)
  download_one-Returns job c e =
      both (λ d. Unit) _ _ (works.download job.job_id c.provider_product_id _ e)
        (λ r e1.
          both (λ d. Unit) _ _ (checksum_of-Returns (given r.1) r.0 e1)
            (λ checksum e2.
              both (λ d. Unit) _ _ (works.put_raw _ c.provider_product_id r.0 checksum e2)
                (λ stored e3. tt)))

  route-Returns : (e : E) → Returns (route_id ops settings e)
  route-Returns e = elim (Bool-cases ops.has_route_repository) [
    | inl there ↦ rw there (works.route _ _ e)
    | inr absent ↦ rw absent tt
  ]

  publish-Returns : (i : String × Value) (e : E) → Returns (publish_item ops settings i e)
  publish-Returns i e = elim (Bool-cases ops.has_pgstac_repository) [
    | inl there ↦ rw there (works.publishes i e)
    | inr absent ↦ rw absent tt
  ]

  store_and_register-Returns :
      (job : Job) (d : DownloadedProduct) (p : PreparedScene) (e : E)
      → Returns (store_and_register ops settings job d p e)
  unfolding store_and_register
  store_and_register-Returns job d p e =
      both (λ x. Unit) _ _ (works.put_cog _ p.product_id _ p.backscatter_path p.checksum_sha256 e)
        (λ stored e1.
          both (λ x. Unit) _ _ (route-Returns e1)
            (λ route e2.
              both (λ x. Unit) _ _ (works.size d.path e2)
                (λ raw e3.
                  both (λ x. Unit) _ _ (works.scene _ e3)
                    (λ scene e4.
                      both (λ x. Unit) _ _ (works.size p.backscatter_path e4)
                        (λ size e5. both (λ x. Unit) _ _ (works.asset _ e5) (λ asset e6. tt))))))

  pub register_pgstac-Returns :
      (x : SceneRecord × AssetRecord) (e : E) → Returns (register_pgstac ops settings x e)
  unfolding register_pgstac
  register_pgstac-Returns (scene, asset) e =
      let (item, built) = works.item scene asset in
      rw built (
        both (λ x. Unit) _ _ (works.scene _ e)
          (λ kept e1. both (λ x. Unit) _ _ (publish-Returns item e1) (λ published e2. tt)))

  -- As many scenes as downloads: `zip` does not raise.
  pub store_all-Returns :
      (job : Job) (ds : List DownloadedProduct) (ps : List PreparedScene) (e : E)
      → length ps ≡ length ds
      → Returns (store_all ops settings job ds ps e)
  store_all-Returns job [] [] e same = tt
  store_all-Returns job [] (p ∷ ps) e same = omega arith
  store_all-Returns job (d ∷ ds) [] e same = omega arith
  store_all-Returns job (d ∷ ds) (p ∷ ps) e same =
      both (λ x. Unit) _ _ (store_and_register-Returns job d p e)
        (λ first e1.
          both (λ x. Unit) _ _ (store_all-Returns job ds ps e1 (omega arith)) (λ rest e2. tt))
