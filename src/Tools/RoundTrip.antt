-- ===== src/Tools/RoundTrip.antt =====
-- What _export.py writes, _import.py reads.
pub mod Json
pub mod Csv
mod Tests
