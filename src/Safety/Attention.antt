-- ===== src/Safety/Attention.antt =====
-- fieldpilot/safety/attention.py: the state machine of a worker's engagement with a hazard, and the
-- tracker that keeps one for each pair of them. Times are in milliseconds of a clock that does not go
-- back; the gaze test is the caller's and so an argument, as in the source.
pub mod Machine
pub mod Tracking
unfoldable pub use Machine.*
unfoldable pub use Tracking.*
