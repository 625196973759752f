-- ===== src/Model/Error.antt =====
-- rust/engine/crates/app_core/src/model/error.rs: the errors that the engine reports as values.
use media_app.Prelude.{ℕ, String, Bool, true, false, Option, none, some, ◌≡◌, ◌⊎◌, inl, inr, refl}

pub data EngineErrorType : Type 0 where
  invalid_input not_found login_required auth_expired forbidden already_exists : EngineErrorType
  failed_precondition conflict rate_limited service_unavailable backend_fault : EngineErrorType
  transport unsafe_transport mapping_defect network_error player_error : EngineErrorType
  authentication_error session_storage media_skipped command_rejected unknown : EngineErrorType

pub record EngineError : Type 0 where
  pub error_type : EngineErrorType
  pub message : String
  pub is_fatal : Bool
  pub retry_after_millis : Option ℕ

-- `Result<T, EngineError>`.
pub data EngineResult {ℓ} (A : Type ℓ) : Type ℓ where
  ok : A → EngineResult A
  err : EngineError → EngineResult A

-- `result.ok()`.
abbrev pub answered {ℓ} : {A : Type ℓ} → EngineResult A → Option A
answered (ok a) = some a
answered (err e) = none

-- `?` on such a result.
infixl 5 ◌>>=◌
abbrev pub ◌>>=◌ {ℓ κ} :
    {A : Type ℓ} {B : Type κ} → EngineResult A → (A → EngineResult B) → EngineResult B
ok a >>= f = f a
err e >>= f = err e

-- `EngineError::new`.
abbrev pub engine_error : EngineErrorType → String → Bool → EngineError
engine_error error_type message is_fatal = record {
  error_type = error_type;
  message = message;
  is_fatal = is_fatal;
  retry_after_millis = none;
}

-- `EngineError::player_error`.
abbrev pub player_failure : String → EngineError
player_failure message = engine_error player_error message true

-- `EngineError::media_skipped`.
abbrev pub skipped_media : String → EngineError
skipped_media message = engine_error media_skipped message false

-- `EngineError::rate_limited`.
abbrev pub rate_limit : Option ℕ → EngineError
rate_limit retry_after_millis =
    record (engine_error rate_limited "backend rate limit exceeded" false) {
      retry_after_millis = retry_after_millis;
    }

pub EngineResult-cases :
    {A : Type 0} (r : EngineResult A) → ((a : A) × (r ≡ ok a)) ⊎ ((e : EngineError) × (r ≡ err e))
EngineResult-cases (ok a) = inl (a, refl)
EngineResult-cases (err e) = inr (e, refl)
