-- ===== src/Num.antt =====
-- The floats of the scoring code, as an interface: any type with Python's operations on `float` and
-- laws that hold of IEEE doubles away from NaN and overflow. Every operation rounds monotonically,
-- so no law says that an operation is exact but those that are (`x / x`, `1.0 * x`, `0.0 + x`).
-- A literal of the source is `decimal m`, the double that is nearest to m / 10000.
pub mod Order
pub mod Fixed
