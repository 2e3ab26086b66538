-- ===== src/Providers/Contracts.antt =====
-- The errors that providers raise (src/akasha/providers/contracts.py), and exceptions in general.
use akasha_ingestion.Base.Text.{Text}

pub data ProviderErrorCategory : Type 0 where
  provider_sla_unavailable source_rate_limited stac_search_failed : ProviderErrorCategory
  asset_unavailable asset_metadata_invalid external_asset_read_failed : ProviderErrorCategory
  download_failed invalid_product prepare_failed metadata_failed : ProviderErrorCategory

-- An exception with the text that `str(exc)` gives; a `ProviderDataError` carries its category too.
pub data Failure : Type 0 where
  provider_error : ProviderErrorCategory → Text → Failure
  other_error : Text → Failure

abbrev pub text_of : Failure → Text
text_of (provider_error category text) = text
text_of (other_error text) = text

pub data Result {ℓ} (A : Type ℓ) : Type ℓ where
  ok : A → Result A
  raised : Failure → Result A
