-- ===== src/Model/Wire.antt =====
-- The wire names of the engine's commands, events and states, and their round trips.
pub mod Table
pub mod Commands
pub mod Events
pub mod RoundTrip
