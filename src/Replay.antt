-- ===== src/Replay.antt =====
-- networkmapper/observations/replay_format.py: the document of the retained observations.
-- The text of the document is json's: `loads` gives the tree with the pairs of each object before
-- `object_pairs_hook`, and `dumps` prints it with the keys of each object sorted.
pub mod Json
pub mod Timestamps
pub mod Writer
pub mod Reader
mod Records
mod RoundTrip
mod Order
mod Inversions
mod Strict
mod Tests
