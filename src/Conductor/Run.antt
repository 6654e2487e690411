-- ===== src/Conductor/Run.antt =====
-- The loop `run` of src/conductor/conductor.ts, on fuel, and src/anti-drift/north-star.ts.
pub mod Options
pub mod Loop
pub mod Kept
pub mod Counts
pub mod Bounds
pub mod Ends
pub mod Laws
