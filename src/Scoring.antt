-- ===== src/Scoring.antt =====
-- src/scoring: the M7 scores of one metro, from its signal dict.
pub mod Config
pub mod Normalization
pub mod Competition
pub mod Market
pub mod Composite
pub mod Confidence
pub mod Strategy
pub mod Engine
pub mod Benchmarks
pub mod V2
pub mod Relative
pub mod Bounds
pub mod Monotone
pub mod Gates
pub mod Opportunity
pub mod Flags
pub mod Penalties
pub mod Profiles
pub mod Report
pub mod Batch
pub mod Directions
mod Tests
