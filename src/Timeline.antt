-- ===== src/Timeline.antt =====
-- The actuator's timeline and the classes of the receiver's intervals:
-- scripts/experiment-harness/build-actuator-timeline.py and canonicalize-iperf-receiver.py.
pub mod Event
pub mod Clock
pub mod Build
pub mod Load
pub mod Built
pub mod Sorted
pub mod Handover
pub mod Receiver
pub mod Canonicalize
pub mod Inside
pub mod Uncrossed
pub mod Crossings
mod Tests
