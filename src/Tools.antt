-- ===== src/Tools.antt =====
-- The command line tools, rethinkdb/_import.py and rethinkdb/_export.py.
pub mod Import
pub mod Export
pub mod RoundTrip
