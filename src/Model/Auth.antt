-- ===== src/Model/Auth.antt =====
-- rust/engine/crates/app_core/src/model/auth.rs and data/session.rs: the credential-free
-- authentication state, and the media session.
use media_app.Prelude.{
  ℕ, String, Bool, true, false, ◌&&◌, Option, none, some, str_eq, same_bool, ◌==◌,
}

pub record Account : Type 0 where
  pub id : String
  pub primary_email : String
  pub status : String
  pub created_at_epoch_millis : ℕ

pub record AuthSession : Type 0 where
  pub id : String
  pub device_label : String
  pub created_at_epoch_millis : ℕ
  pub last_used_at_epoch_millis : ℕ
  pub expires_at_epoch_millis : ℕ
  pub current : Bool

pub data AuthState : Type 0 where
  anonymous : AuthState
  authenticated : Account → AuthSession → AuthState
  login_required : AuthState

pub record MediaSession : Type 0 where
  pub session_id : String
  pub user_id : String
  pub is_active : Bool
  pub created_at_epoch_millis : ℕ

-- `MediaSession::new`.
abbrev pub new_session : String → String → ℕ → MediaSession
new_session session_id user_id now = record {
  session_id = session_id;
  user_id = user_id;
  is_active = true;
  created_at_epoch_millis = now;
}

-- `a == b` on `Option<MediaSession>`.
abbrev pub same_session : Option MediaSession → Option MediaSession → Bool
same_session none none = true
same_session (some a) (some b) =
    str_eq a.session_id b.session_id
    && (str_eq a.user_id b.user_id
        && (same_bool a.is_active b.is_active
            && (a.created_at_epoch_millis == b.created_at_epoch_millis)))
same_session _ _ = false

abbrev same_account : Account → Account → Bool
same_account a b =
    str_eq a.id b.id
    && (str_eq a.primary_email b.primary_email
        && (str_eq a.status b.status && (a.created_at_epoch_millis == b.created_at_epoch_millis)))

abbrev same_auth_session : AuthSession → AuthSession → Bool
same_auth_session a b =
    str_eq a.id b.id
    && (str_eq a.device_label b.device_label
        && ((a.created_at_epoch_millis == b.created_at_epoch_millis)
            && ((a.last_used_at_epoch_millis == b.last_used_at_epoch_millis)
                && ((a.expires_at_epoch_millis == b.expires_at_epoch_millis)
                    && same_bool a.current b.current))))

-- `a == b` on `AuthState`.
unfoldable pub same_auth_state : AuthState → AuthState → Bool
same_auth_state anonymous anonymous = true
same_auth_state (authenticated a s) (authenticated b t) = same_account a b && same_auth_session s t
same_auth_state login_required login_required = true
same_auth_state _ _ = false
