-- ===== src/Engine/Source.antt =====
-- rust/engine/crates/app_core/src/engine/core/effects.rs: the source of a media item is resolved,
-- and put into the snapshot.
use media_app.Prelude.{
  ℕ, text_append, Bool, true, false, not, Option, none, some, [], ◌∷◌, ◌++◌, opt_str_eq, is_blank,
  saturating_add, if◌then◌else◌,
}
use media_app.Model.Effect.{prepare_playback_source, update_metadata}
use media_app.Model.Error.{
  EngineResult, ok, err, ◌>>=◌, engine_error, service_unavailable, network_error,
}
use media_app.Model.Media.{EnginePlaybackSource, MediaItem}
use media_app.Model.Snapshot.{
  EngineSnapshot, with_media, with_position, with_progress_tick, with_playback_expiry,
}
use media_app.Retry.{Answer}
use media_app.Engine.State.{Engine, Ports, Draft, default_recovery}

pub record ResolvedPlaybackMedia : Type 0 where
  pub media : MediaItem
  pub expires_at_epoch_millis : Option ℕ

-- A media item with the source that a backend resolved for it.
abbrev pub with_source : MediaItem → EnginePlaybackSource → ResolvedPlaybackMedia
with_source media source = record {
  media = record media {
    source_uri = some source.url;
    mime_type = some source.content_type;
    duration_millis = some source.duration_millis;
  };
  expires_at_epoch_millis = some source.expires_at_epoch_millis;
}

-- `a.or(b)` on options.
abbrev pub or_option {ℓ} : {A : Type ℓ} → Option A → Option A → Option A
or_option none b = b
or_option (some a) b = some a

abbrev pub without_expiry : MediaItem → ResolvedPlaybackMedia
without_expiry media = record { media = media; expires_at_epoch_millis = none }

abbrev pub has_source_uri : MediaItem → Bool
has_source_uri media = elim media.source_uri [ none ↦ false | some uri ↦ not (is_blank uri) ]

-- The last part of `resolve_playback_source`: the audio source client.
unfoldable pub resolve_by_client : Ports → MediaItem → EngineResult ResolvedPlaybackMedia
resolve_by_client ports media = elim ports.audio_source_client [
  | none ↦ err (engine_error service_unavailable "playback resolver is not configured" false)
  | some resolve_track ↦ elim (resolve_track media.id) [
    | Answer.err error ↦ err (
        engine_error network_error
          (text_append "Failed to resolve playback source for media_id="
            (text_append media.id (text_append ": " error)))
          true)
    | Answer.ok source ↦ ok (
        without_expiry (record media {
          source_uri = some source.uri;
          mime_type = or_option source.mime_type media.mime_type;
          duration_millis = or_option media.duration_millis source.expected_duration_ms;
        }))
  ]
]

-- What `resolve_playback_source` answers, given the prefetched source that it took.
unfoldable pub resolve_media :
    Ports
    → Option (EngineResult EnginePlaybackSource)
    → MediaItem
    → EngineResult ResolvedPlaybackMedia
unfolding resolve_by_client
resolve_media ports (some source) media = source >>= λ s. ok (with_source media s)
resolve_media ports none media = elim ports.playback_port [
  | some resolve_playback ↦ resolve_playback media.id >>= λ s. ok (with_source media s)
  | none ↦ if has_source_uri media then ok (without_expiry media) else resolve_by_client ports media
]

-- `resolve_playback_source` takes the prefetched source out of the engine.
unfoldable pub resolve_playback_source :
    Ports → Engine → MediaItem → Engine × EngineResult ResolvedPlaybackMedia
resolve_playback_source ports e media =
    (record e { prefetched_playback = none }, resolve_media ports e.prefetched_playback media)

unfoldable pub media_changed : MediaItem → EngineSnapshot → Bool
media_changed media s = not (opt_str_eq s.media_id (some media.id))

-- The position at which a source load starts: 0 for a new item.
abbrev pub start_position : MediaItem → EngineSnapshot → ℕ
start_position media s = if media_changed media s then 0 else s.position_millis

-- The snapshot that `update_media_state` returns.
unfoldable pub projected : ResolvedPlaybackMedia → EngineSnapshot → EngineSnapshot
projected resolved s =
    let changed = media_changed resolved.media s in
    let next = with_media resolved.media s in
    with_playback_expiry resolved.expires_at_epoch_millis (
      if changed then with_progress_tick s.updated_at_epoch_millis (with_position 0 next) else next)

-- The engine after `update_media_state`.
unfoldable pub loading : MediaItem → EngineSnapshot → Engine → Engine
loading media s e =
    let id = saturating_add e.next_playback_instance_id 1 in
    record e {
      next_playback_instance_id = id;
      current_playback_instance_id = some id;
      pending_seek_target_millis = some (start_position media s);
      recovery = record default_recovery { desired_play_when_ready = true };
    }

-- `update_media_state`, on the draft of a dispatch.
unfoldable pub update_media_state : ResolvedPlaybackMedia → Draft → Draft
unfolding loading
update_media_state resolved d =
    let media = resolved.media in
    record d {
      engine = loading media d.next_snapshot d.engine;
      next_snapshot = projected resolved d.next_snapshot;
      effects =
          d.effects
          ++ prepare_playback_source media.id (saturating_add d.engine.next_playback_instance_id 1)
              (start_position media d.next_snapshot)
            ∷ update_metadata media.id media.title media.artist
            ∷ [];
    }
