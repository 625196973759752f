-- ===== src/Model/Wire/RoundTrip.antt =====
-- model/command/types.rs, platform_event.rs, playback.rs and preferences.rs: a wire name survives
-- the way through the engine.
use media_app.Prelude.{String, ◌≡◌, ◌⊎◌, refl, some, arith, eq_iff}
use media_app.Model.Command.{EngineCommandType}
use media_app.Model.PlatformEvent.{EnginePlatformEventType}
use media_app.Model.Preferences.{ThemePreference}
use media_app.Model.Playback.{RestrictionState, DrivingState}
use media_app.Model.Wire.Table.{Names, name-lookup_wire}
use media_app.Model.Wire.Commands.{as_wire, from_wire, commands}
use media_app.Model.Wire.Events.{
  event_as_wire, event_from_wire, events, restriction_as_wire, restriction_from_wire,
  driving_as_wire, driving_from_wire, theme_as_wire, theme_from_wire,
}

commands-Names : Names as_wire commands
unfolding as_wire
commands-Names = assumption refl

-- Whatever text arrives as a command is the wire name of the command that it is read as.
pub as_wire-from_wire : (value : String) → as_wire (from_wire value) ≡ value
unfolding from_wire as_wire
as_wire-from_wire value =
    name-lookup_wire as_wire commands (EngineCommandType.unknown value) value commands-Names refl

events-Names : Names event_as_wire events
unfolding event_as_wire
events-Names = assumption refl

-- Whatever text arrives as a platform event is the wire name of the event that it is read as.
pub event_as_wire-event_from_wire : (value : String) → event_as_wire (event_from_wire value) ≡ value
unfolding event_from_wire event_as_wire
event_as_wire-event_from_wire value =
    name-lookup_wire event_as_wire events (EnginePlatformEventType.unknown value) value events-Names
      refl

theme_from_wire-theme_as_wire : (t : ThemePreference) → theme_from_wire (theme_as_wire t) ≡ some t
unfolding theme_from_wire theme_as_wire
theme_from_wire-theme_as_wire ThemePreference.system_default = refl
theme_from_wire-theme_as_wire _ = refl

restriction_from_wire-restriction_as_wire :
    (r : RestrictionState) → restriction_from_wire (restriction_as_wire r) ≡ r
unfolding restriction_from_wire restriction_as_wire
restriction_from_wire-restriction_as_wire RestrictionState.unknown = refl
restriction_from_wire-restriction_as_wire _ = refl

driving_from_wire-driving_as_wire : (d : DrivingState) → driving_from_wire (driving_as_wire d) ≡ d
unfolding driving_from_wire driving_as_wire
driving_from_wire-driving_as_wire DrivingState.unknown = refl
driving_from_wire-driving_as_wire _ = refl

-- The restriction state, the driving state and the theme survive the way to the wire and back.
pub states_round_trip :
    (r : RestrictionState) (d : DrivingState) (t : ThemePreference)
    → (restriction_from_wire (restriction_as_wire r) ≡ r)
      × (driving_from_wire (driving_as_wire d) ≡ d)
      × (theme_from_wire (theme_as_wire t) ≡ some t)
states_round_trip r d t = (
  restriction_from_wire-restriction_as_wire r,
  driving_from_wire-driving_as_wire d,
  theme_from_wire-theme_as_wire t,
)

-- A text is read as the state `unknown`, or as the state that has this text as its wire name.
pub states_parse_exactly :
    (value : String)
    → ((restriction_from_wire value ≡ RestrictionState.unknown)
        ⊎ (restriction_as_wire (restriction_from_wire value) ≡ value))
      × ((driving_from_wire value ≡ DrivingState.unknown)
          ⊎ (driving_as_wire (driving_from_wire value) ≡ value))
unfolding restriction_from_wire restriction_as_wire driving_from_wire driving_as_wire
states_parse_exactly value = ground (
  arith,
  eq_iff value "unrestricted",
  eq_iff value "restricted",
  eq_iff value "parked",
  eq_iff value "idling",
  eq_iff value "moving",
)
