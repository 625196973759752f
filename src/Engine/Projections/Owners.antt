-- ===== src/Engine/Projections/Owners.antt =====
-- rust/engine/crates/app_core/src/engine/core.rs: whose feeds, profile and playlists are shown after
-- `sync_auth_state_projection`.
use media_app.Prelude.{◌≡◌, true, false, Option, [], ◌⊎◌}
use media_app.Model.Preferences.{PreferenceSource, same_source}
use media_app.Library.{AuthIdentity}
use media_app.Engine.State.{Engine}
use media_app.Engine.Projections.{is_foreign, is_owner}

-- The feeds are those of the identity, or empty.
abbrev pub FeedsBelong : Option AuthIdentity → Engine → Type 0
FeedsBelong current e =
    (is_owner e.feed_projection_identity current ≡ true)
    ⊎ ((e.snapshot.discovery_results ≡ [])
        × (e.snapshot.for_you_results ≡ [])
        × (e.snapshot.recommendations_results ≡ []))

-- Where the profile that was shown before is of another identity, no theme of a profile is shown now.
abbrev pub ThemeBelongs : Option AuthIdentity → Engine → Engine → Type 0
ThemeBelongs current e e' =
    (is_foreign e.profile_projection_identity current ≡ false)
    ⊎ (same_source e'.snapshot.theme_preference.source PreferenceSource.remote_profile ≡ false)

-- The same of the tracks of a playlist.
abbrev pub TracksBelong : Option AuthIdentity → Engine → Engine → Type 0
TracksBelong current e e' =
    (is_foreign e.playlist_projection_identity current ≡ false) ⊎ (e'.snapshot.playlist_tracks ≡ [])
