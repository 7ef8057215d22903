-- ===== src/Tools/Import/Writer/Again.antt =====
-- _import.py, `table_writer`: a batch that is written again after its connection broke.
use rethinkdb_python.Base.{◌≡◌, refl, true, false, some, List, ◌∷◌, ℕ}
use rethinkdb_python.Base.Exec.{ok, raised}
use rethinkdb_python.Tools.Import.Writer.{
  reql_error, type_error, Server, Rows, Writer, Task, batch, at_server, unless_there,
  write_with_key, write_rows, after_insert, write_batch, write_loop, report, table_writer,
}

module _ {D Row Key : Type 0} (rows : Rows Row Key) (server : Server D Row Key) where
  -- Without `--force`, a batch whose insertion raises a ReqlError, and whose first row the server has all
  -- the same, ends the writer with a TypeError, and no row of it is counted.
  pub written_again :
      (table : ℕ) (row existing : Row) (more : List Row) (tasks : List (Task Row)) (key : Key)
      (d e : D) (w : Writer D)
      → server.insert false (row ∷ more) w.server ≡ (raised reql_error, d)
      → rows.key row ≡ some key
      → server.get key d ≡ (ok (some existing), e)
      → rows.same existing row ≡ true
      → table_writer rows server false (batch table (row ∷ more) ∷ tasks) w
        ≡ (ok tt, record w { server = e; reported = some type_error })
  unfolding table_writer report write_loop write_batch at_server after_insert write_rows
      write_with_key unless_there
  written_again table row existing more tasks key d e w failed keyed there same =
      rw (failed, keyed, there, same) refl
