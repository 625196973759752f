-- ===== src/Model/Page.antt =====
-- rust/engine/crates/app_core/src/model/page.rs: opaque continuation tokens and pages.
use media_app.Prelude.{ℕ, String, false, Option, none, List, str_eq, if◌then◌else◌}
use media_app.Model.Error.{EngineResult, ok, err, engine_error, invalid_input}

pub record EnginePageToken : Type 0 where
  pub value : String

-- `EnginePageToken::new`.
abbrev pub page_token : String → EngineResult EnginePageToken
page_token value =
    if str_eq value ""
    then err (engine_error invalid_input "empty page token" false)
    else ok (record { value = value })

pub record EnginePageRequest : Type 0 where
  pub page_size : ℕ
  pub page_token : Option EnginePageToken

-- `EnginePageRequest::default()`.
abbrev pub default_page : EnginePageRequest
default_page = record { page_size = 0; page_token = none }

pub record EnginePagedResult {ℓ} (A : Type ℓ) : Type ℓ where
  pub items : List A
  pub next_page_token : Option EnginePageToken
