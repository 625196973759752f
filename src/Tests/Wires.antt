-- ===== src/Tests/Wires.antt =====
-- Tests of the wire names.
use media_app.Prelude.{◌≡◌}
use media_app.Model.Wire.Commands.{as_wire, from_wire}
use media_app.Model.Wire.RoundTrip.{as_wire-from_wire}

as_wire-from_wire_example : as_wire (from_wire "skip_next") ≡ "skip_next"
as_wire-from_wire_example = as_wire-from_wire "skip_next"
