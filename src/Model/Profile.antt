-- ===== src/Model/Profile.antt =====
-- rust/engine/crates/app_core/src/model/profile.rs: the profile of an account.
use media_app.Prelude.{ℕ, String, Option}

pub record EngineProfile : Type 0 where
  pub id : String
  pub external_user_id : String
  pub display_name : Option String
  pub created_at_epoch_millis : Option ℕ
  pub updated_at_epoch_millis : Option ℕ

pub record EngineProfileUpdate : Type 0 where
  pub display_name : Option (Option String)
