-- ===== src/Model/Wire/Events.antt =====
-- rust/engine/crates/app_core/src/model/platform_event.rs, playback.rs and preferences.rs: the wire
-- names of the platform events, of the vehicle's states and of the themes.
use media_app.Prelude.{String, List, [], ◌∷◌, Option, none, some}
use media_app.Model.PlatformEvent.{EnginePlatformEventType}
use media_app.Model.Playback.{PlaybackState, RestrictionState, DrivingState}
use media_app.Model.Preferences.{ThemePreference}
use media_app.Model.Wire.Table.{lookup_wire}

-- `EnginePlatformEventType::as_wire`.
unfoldable pub event_as_wire : EnginePlatformEventType → String
event_as_wire EnginePlatformEventType.app_foregrounded = "app_foregrounded"
event_as_wire EnginePlatformEventType.app_backgrounded = "app_backgrounded"
event_as_wire EnginePlatformEventType.suspend_to_ram = "suspend_to_ram"
event_as_wire EnginePlatformEventType.resume_from_ram = "resume_from_ram"
event_as_wire EnginePlatformEventType.ux_restrictions_changed = "ux_restrictions_changed"
event_as_wire EnginePlatformEventType.vehicle_driving_state_changed =
    "vehicle_driving_state_changed"
event_as_wire EnginePlatformEventType.media_button_pressed = "media_button_pressed"
event_as_wire EnginePlatformEventType.media_loaded = "media_loaded"
event_as_wire EnginePlatformEventType.media_error = "media_error"
event_as_wire EnginePlatformEventType.playback_completed = "playback_completed"
event_as_wire EnginePlatformEventType.playback_position_checkpoint = "playback_position_checkpoint"
event_as_wire (EnginePlatformEventType.unknown value) = value

-- The arms of `EnginePlatformEventType::from_wire`, but for the last.
abbrev pub events : List (String × EnginePlatformEventType)
events =
    ("app_foregrounded", EnginePlatformEventType.app_foregrounded)
    ∷ ("app_backgrounded", EnginePlatformEventType.app_backgrounded)
    ∷ ("suspend_to_ram", EnginePlatformEventType.suspend_to_ram)
    ∷ ("resume_from_ram", EnginePlatformEventType.resume_from_ram)
    ∷ ("ux_restrictions_changed", EnginePlatformEventType.ux_restrictions_changed)
    ∷ ("vehicle_driving_state_changed", EnginePlatformEventType.vehicle_driving_state_changed)
    ∷ ("media_button_pressed", EnginePlatformEventType.media_button_pressed)
    ∷ ("media_loaded", EnginePlatformEventType.media_loaded)
    ∷ ("media_error", EnginePlatformEventType.media_error)
    ∷ ("playback_completed", EnginePlatformEventType.playback_completed)
    ∷ ("playback_position_checkpoint", EnginePlatformEventType.playback_position_checkpoint)
    ∷ []

-- `EnginePlatformEventType::from_wire`.
unfoldable pub event_from_wire : String → EnginePlatformEventType
event_from_wire value = lookup_wire events (EnginePlatformEventType.unknown value) value

-- `PlaybackState::as_wire`.
unfoldable pub playback_as_wire : PlaybackState → String
playback_as_wire PlaybackState.idle = "idle"
playback_as_wire PlaybackState.playing = "playing"
playback_as_wire PlaybackState.paused = "paused"
playback_as_wire PlaybackState.buffering = "buffering"
playback_as_wire PlaybackState.recovering = "recovering"
playback_as_wire PlaybackState.ended = "ended"
playback_as_wire PlaybackState.error = "error"

-- `RestrictionState::as_wire` and `RestrictionState::from_wire`.
unfoldable pub restriction_as_wire : RestrictionState → String
restriction_as_wire RestrictionState.unknown = "unknown"
restriction_as_wire RestrictionState.unrestricted = "unrestricted"
restriction_as_wire RestrictionState.restricted = "restricted"

unfoldable pub restriction_from_wire : String → RestrictionState
unfolding lookup_wire
restriction_from_wire value =
    lookup_wire
      (("unrestricted", RestrictionState.unrestricted)
        ∷ ("restricted", RestrictionState.restricted)
        ∷ [])
      RestrictionState.unknown value

-- `DrivingState::as_wire` and `DrivingState::from_wire`.
unfoldable pub driving_as_wire : DrivingState → String
driving_as_wire DrivingState.unknown = "unknown"
driving_as_wire DrivingState.parked = "parked"
driving_as_wire DrivingState.idling = "idling"
driving_as_wire DrivingState.moving = "moving"

unfoldable pub driving_from_wire : String → DrivingState
unfolding lookup_wire
driving_from_wire value =
    lookup_wire
      (("parked", DrivingState.parked)
        ∷ ("idling", DrivingState.idling)
        ∷ ("moving", DrivingState.moving)
        ∷ [])
      DrivingState.unknown value

-- `ThemePreference::as_wire` and `ThemePreference::from_wire`.
unfoldable pub theme_as_wire : ThemePreference → String
theme_as_wire ThemePreference.system_default = "system_default"
theme_as_wire ThemePreference.bamboo_grove_light = "bamboo_grove_light"
theme_as_wire ThemePreference.moonlit_bamboo_dark = "moonlit_bamboo_dark"
theme_as_wire ThemePreference.forest_tech_light = "forest_tech_light"
theme_as_wire ThemePreference.forest_tech_dark = "forest_tech_dark"

unfoldable pub theme_from_wire : String → Option ThemePreference
unfolding lookup_wire
theme_from_wire value =
    lookup_wire
      (("system_default", some ThemePreference.system_default)
        ∷ ("bamboo_grove_light", some ThemePreference.bamboo_grove_light)
        ∷ ("moonlit_bamboo_dark", some ThemePreference.moonlit_bamboo_dark)
        ∷ ("forest_tech_light", some ThemePreference.forest_tech_light)
        ∷ ("forest_tech_dark", some ThemePreference.forest_tech_dark)
        ∷ [])
      none value
