-- ===== src/Retry/Client.antt =====
-- networking/retrying_audio_source_client.rs: the three operations of the retrying client. The fuel
-- is one more than the retries allowed, which `Retry/Loop.antt` shows to be enough.
use media_app.Prelude.{ℕ, suc, String, Option}
use media_app.Retry.{
  AudioSourceOperation, AudioSourceClient, PlaybackSource, AudioChunk, RetrySettings, Report,
  retry_loop,
}

module _ {E : Type 0} (random : ℕ → ℕ → ℕ) (c : RetrySettings E) (inner : AudioSourceClient E) where
  unfoldable pub resolve_track : String → Option (Report E PlaybackSource)
  resolve_track track_id =
      retry_loop random c AudioSourceOperation.resolve_track (λ n. inner.resolve_track n track_id)
        (suc c.max_retry_attempts) 0 0

  unfoldable pub prefetch_full : String → Option (Report E String)
  prefetch_full source_id =
      retry_loop random c AudioSourceOperation.prefetch_full (λ n. inner.prefetch_full n source_id)
        (suc c.max_retry_attempts) 0 0

  unfoldable pub fetch_chunk : String → ℕ → Option (Report E AudioChunk)
  fetch_chunk source_id from_chunk_index =
      retry_loop random c AudioSourceOperation.fetch_chunk
        (λ n. inner.fetch_chunk n source_id from_chunk_index) (suc c.max_retry_attempts) 0 0
