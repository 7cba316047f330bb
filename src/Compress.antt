-- ===== src/Compress.antt =====
-- The parallel writer of src/internal/compress/compress.go: segments, workers and the collector.
pub mod Codec
mod Segments
mod Collector
mod Settle
mod Arrive
mod Workers
mod Counts
mod Order
mod Close
mod Progress
mod Examples
