-- ===== src/Model/Config.antt =====
-- rust/engine/crates/app_core/src/model/config.rs: the configuration of the engine.
use media_app.Prelude.{ℕ, String, Bool, true, false}

pub record EngineConfig : Type 0 where
  pub vehicle_name : String
  pub hifi_enabled : Bool
  pub max_volume : ℕ
  pub auto_resume : Bool
  pub preferred_language : String

-- `EngineConfig::default()`.
abbrev pub default_config : EngineConfig
default_config = record {
  vehicle_name = "Generic Car";
  hifi_enabled = false;
  max_volume = 100;
  auto_resume = true;
  preferred_language = "en-US";
}
