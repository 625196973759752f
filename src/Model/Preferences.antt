-- ===== src/Model/Preferences.antt =====
-- rust/engine/crates/app_core/src/model/preferences.rs: the theme preference.
use media_app.Prelude.{ℕ, String, Bool, true, false, Option, none}

pub data ThemePreference : Type 0 where
  system_default bamboo_grove_light moonlit_bamboo_dark forest_tech_light : ThemePreference
  forest_tech_dark : ThemePreference

pub data PreferenceSource : Type 0 where
  uninitialized local_cache local_user remote_profile : PreferenceSource

pub record ThemePreferenceState : Type 0 where
  pub theme : ThemePreference
  pub source : PreferenceSource
  pub revision : ℕ
  pub session_user_id : Option String

-- `ThemePreferenceState::default()`.
abbrev pub default_theme : ThemePreferenceState
default_theme = record {
  theme = system_default;
  source = uninitialized;
  revision = 0;
  session_user_id = none;
}

-- `self.source != PreferenceSource::Uninitialized`.
abbrev pub is_initialized : ThemePreferenceState → Bool
is_initialized s = elim s.source [ uninitialized ↦ false | _ ↦ true ]

-- `a == b` on themes.
abbrev pub same_theme : ThemePreference → ThemePreference → Bool
same_theme system_default system_default = true
same_theme bamboo_grove_light bamboo_grove_light = true
same_theme moonlit_bamboo_dark moonlit_bamboo_dark = true
same_theme forest_tech_light forest_tech_light = true
same_theme forest_tech_dark forest_tech_dark = true
same_theme _ _ = false

-- `a == b` on sources.
abbrev pub same_source : PreferenceSource → PreferenceSource → Bool
same_source uninitialized uninitialized = true
same_source local_cache local_cache = true
same_source local_user local_user = true
same_source remote_profile remote_profile = true
same_source _ _ = false
