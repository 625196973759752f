-- ===== src/Engine/Projections.antt =====
-- rust/engine/crates/app_core/src/engine/core.rs: `sync_auth_state_projection`, which shows the state of
-- the authentication provider and clears what belongs to another identity: here the feeds, the
-- preferences of a profile and the tracks of a playlist; the history's part is `sync_history` of History.
pub mod Owners
use media_app.Prelude.{◌≡◌, Bool, false, not, Option, none, some, [], arith, if◌then◌else◌}
use media_app.Model.Auth.{AuthState}
use media_app.Model.Preferences.{PreferenceSource, default_theme, same_source}
use media_app.Model.Snapshot.{EngineSnapshot}
use media_app.Library.{AuthIdentity, from_state, is_identity}
use media_app.Engine.State.{Engine}

-- `identity.is_some_and(|identity| Some(identity) == current)`.
abbrev pub is_owner : Option AuthIdentity → Option AuthIdentity → Bool
is_owner none current = false
is_owner (some identity) current = is_identity current identity

-- `identity.is_some_and(|identity| Some(identity) != current)`.
abbrev pub is_foreign : Option AuthIdentity → Option AuthIdentity → Bool
is_foreign none current = false
is_foreign (some identity) current = not (is_identity current identity)

unfoldable pub sync_feeds : Option AuthIdentity → Engine → Engine
sync_feeds current e = if is_owner e.feed_projection_identity current then e else record e {
  feed_projection_identity = none;
  snapshot = record e.snapshot {
    discovery_results = [];
    for_you_results = [];
    recommendations_results = [];
  };
}

-- `clear_profile_projection`: a theme that came with the profile goes with it.
unfoldable pub clear_profile_projection : EngineSnapshot → EngineSnapshot
clear_profile_projection s =
    if same_source s.theme_preference.source PreferenceSource.remote_profile
    then record s { theme_preference = default_theme }
    else s

unfoldable pub sync_profile : Option AuthIdentity → Engine → Engine
unfolding clear_profile_projection
sync_profile current e =
    if is_foreign e.profile_projection_identity current
    then record e {
      profile_projection_identity = none;
      snapshot = clear_profile_projection e.snapshot;
    }
    else e

unfoldable pub sync_playlists : Option AuthIdentity → Engine → Engine
sync_playlists current e =
    if is_foreign e.playlist_projection_identity current
    then record e {
      playlist_projection_identity = none;
      snapshot = record e.snapshot { playlist_tracks = [] };
    }
    else e

unfoldable pub sync_auth_state_projection : AuthState → Engine → Engine
unfolding sync_feeds sync_profile sync_playlists from_state
sync_auth_state_projection auth e =
    let seen = record e { snapshot = record e.snapshot { auth_state = auth } } in
    let current = from_state auth in
    sync_playlists current (sync_profile current (sync_feeds current seen))

-- What playback and the busy guard are about is kept.
abbrev pub SamePlayback : Engine → Engine → Type 0
SamePlayback e f =
    (f.queue ≡ e.queue)
    × (f.recovery ≡ e.recovery)
    × (f.current_playback_instance_id ≡ e.current_playback_instance_id)
    × (f.snapshot.playback_state ≡ e.snapshot.playback_state)
    × (f.snapshot.media_id ≡ e.snapshot.media_id)
    × (f.snapshot.position_millis ≡ e.snapshot.position_millis)
    × (f.snapshot.last_error ≡ e.snapshot.last_error)
    × (f.snapshot.is_busy ≡ e.snapshot.is_busy)
    × (f.snapshot.updated_at_epoch_millis ≡ e.snapshot.updated_at_epoch_millis)

sync_feeds-same :
    (current : Option AuthIdentity) (e : Engine)
    → SamePlayback e (sync_feeds current e)
      × ((sync_feeds current e).snapshot.auth_state ≡ e.snapshot.auth_state)
unfolding sync_feeds
sync_feeds-same current e = ground arith

sync_profile-same :
    (current : Option AuthIdentity) (e : Engine)
    → SamePlayback e (sync_profile current e)
      × ((sync_profile current e).snapshot.auth_state ≡ e.snapshot.auth_state)
unfolding sync_profile clear_profile_projection
sync_profile-same current e = ground arith

sync_playlists-same :
    (current : Option AuthIdentity) (e : Engine)
    → SamePlayback e (sync_playlists current e)
      × ((sync_playlists current e).snapshot.auth_state ≡ e.snapshot.auth_state)
unfolding sync_playlists
sync_playlists-same current e = ground arith

-- The projection shows the provider's state and leaves playback alone.
pub sync_auth_state_projection-same :
    (auth : AuthState) (e : Engine)
    → SamePlayback e (sync_auth_state_projection auth e)
      × ((sync_auth_state_projection auth e).snapshot.auth_state ≡ auth)
unfolding sync_auth_state_projection
sync_auth_state_projection-same auth e =
    let seen = record e { snapshot = record e.snapshot { auth_state = auth } } in
    let current = from_state auth in
    let feeds = sync_feeds current seen in
    let profile = sync_profile current feeds in
    let a = sync_feeds-same current seen in
    let b = sync_profile-same current feeds in
    let c = sync_playlists-same current profile in grind (arith, a, b, c)
