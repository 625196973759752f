-- ===== src/Engine/Preferences.antt =====
-- rust/engine/crates/app_core/src/engine/core/dispatch_command.rs: the arms of the theme commands.
use media_app.Prelude.{
  ℕ, ◌==◌, String, not, ◌&&◌, ◌||◌, Option, none, some, opt_str_eq, saturating_add, if◌then◌else◌,
}
use media_app.Model.Auth.{MediaSession}
use media_app.Model.Preferences.{
  ThemePreference, PreferenceSource, ThemePreferenceState, is_initialized, same_theme, same_source,
}
use media_app.Model.Snapshot.{EngineSnapshot}

-- `session.as_ref().map(|session| session.user_id)`.
abbrev pub session_user : Option MediaSession → Option String
session_user none = none
session_user (some session) = some session.user_id

-- The theme preference after a change.
abbrev pub changed_theme :
    ThemePreference → PreferenceSource → Option String → ThemePreferenceState → ThemePreferenceState
changed_theme theme source user current = record {
  theme = theme;
  source = source;
  revision = saturating_add current.revision 1;
  session_user_id = user;
}

-- The arm of `HydrateThemePreference`.
unfoldable pub hydrate_theme : ThemePreference → EngineSnapshot → EngineSnapshot
hydrate_theme theme s =
    let current = s.theme_preference in
    if not (is_initialized current) || not (same_theme current.theme theme)
    then record s {
      theme_preference = changed_theme theme PreferenceSource.local_cache none current;
    }
    else s

-- The arm of `SetThemePreference`.
unfoldable pub set_theme : ThemePreference → EngineSnapshot → EngineSnapshot
set_theme theme s =
    let current = s.theme_preference in
    if not (same_theme current.theme theme)
      || not (same_source current.source PreferenceSource.local_user)
    then record s {
      theme_preference =
          changed_theme theme PreferenceSource.local_user (session_user s.session) current;
    }
    else s

-- The arm of `ApplyRemoteThemePreference`.
unfoldable pub apply_remote_theme : ThemePreference → String → ℕ → EngineSnapshot → EngineSnapshot
apply_remote_theme theme user_id baseline_revision s =
    let current = s.theme_preference in
    let session_is_current = opt_str_eq (session_user s.session) (some user_id) in
    let revision_is_current = current.revision == baseline_revision in
    let value_changed =
      not (same_theme current.theme theme)
      || (not (same_source current.source PreferenceSource.remote_profile)
          || not (opt_str_eq current.session_user_id (some user_id))) in
    if session_is_current && (revision_is_current && value_changed)
    then record s {
      theme_preference = changed_theme theme PreferenceSource.remote_profile (some user_id) current;
    }
    else s
