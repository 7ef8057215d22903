-- ===== src/Lib.antt =====
-- A model of the RethinkDB driver for Python: the login, the connection from the socket up,
-- the cursors, the terms of the query language with the printer that shows them in errors, and the import
-- and export of tables.
--
-- A `Connection` (rethinkdb/net.py) holds at most one `ConnectionInstance`, which holds the socket and the cache of
-- the cursors. A query is serialized and written to the socket; the reading loop takes responses off the
-- socket and gives each to the cursor that has its token, or to the query that waits. A cursor keeps the
-- items that were not read, counts the requests that are open, and asks for the next batch when it runs low.
--
-- Base: numbers, lists, bytes, and actions that return, raise or wait for ever, on a state.
-- Errors: the exception classes of rethinkdb/errors.py, as a tree with `isinstance`.
-- Net.Socket: `SocketWrapper` of net.py. What the server and the network do is a script, with an
--   entry for each call of `recv` and of `send`; a script that has run out is a call that does not return.
-- Net.Query, Net.Response: the classes of these names. JSON is a parameter, the record `Codec` of Net.World.
-- Net.World: the objects of one connection. A cursor object is named by its token.
-- Net.Cursor: what a response does to a cursor (`_extend_internal`, `_maybe_fetch_batch`).
-- Net.Fetch: the same methods with the writes to the socket; `_error`, `close`, `_continue`, `_stop`.
-- Net.Instance, Net.Connection: `ConnectionInstance` and `Connection`, after their constructors.
-- Net.Open: the constructor of `SocketWrapper`, which connects, has TLS set up, and logs in.
-- Net.Setup: the constructor of `Connection`, `reconnect` and `make_connection`.
-- Handshake: `HandshakeV1_0` of rethinkdb/handshake.py, as a state machine that is given the responses of the server. HMAC,
--   SHA-256, base64, JSON and `int` are parameters, the record `Crypto`. Texts are the bytes that are sent.
-- Handshake.Number: the numbers in a response, and how Python compares them.
-- Handshake.Exchange: the messages of a login as RFC 5802 describes them, apart from the code.
-- Handshake.Digest, Handshake.Pbkdf2: the functions that serve where `hmac` and `hashlib` have none.
-- Ast.Classes: the subclasses of `RqlQuery` in rethinkdb/ast.py that differ in base class and statement.
-- Ast.Term: terms as trees, and `_ivar_scan`.
-- Ast.Expr: `expr`, with its limit on nesting.
-- Ast.Wrap: `func_wrap`, which makes a function of an argument with `r.row` in it.
-- Ast.Methods: the methods of `RqlQuery`, `DB` and `Table`, and the functions of rethinkdb/query.py, by name.
-- Ast.Decoder: `ReQLDecoder`, the hook for the objects of a response that stand for dates, bytes and groups.
-- Ast.Zone: `RqlTzinfo`, the time zone of a date.
-- Asyncio.State, Asyncio.Cursor, Asyncio.Reader: `AsyncioCursor` and `ConnectionInstance` of
--   rethinkdb/asyncio_net/net_asyncio.py. An action is what a coroutine does down to where it waits.
-- Asyncio.Run: every order of bytes that arrive, of tasks that run and of calls of the user, as a list of events.
-- Retry: `RetryQuery` of rethinkdb/utils_common.py, in one thread and one process.
-- Tools.Import, Tools.Import.Batches: `SourceFile.batches` of rethinkdb/_import.py, on the methods of a source.
-- Tools.Import.Json, Tools.Import.Csv: `JsonSourceFile` and `CsvSourceFile`. Reading a file, Python's json
--   module and its csv module are parameters.
-- Tools.Import.Queue: `read_to_queue`, and the way of the rows from a file to the writers.
-- Tools.Import.Writer: `table_writer`, with what it finds in its queue as a list of tasks.
-- Tools.Export, Tools.Export.Table: `json_writer`, `csv_writer` and the loop of `export_table`, in
--   rethinkdb/_export.py. A broken connection is an event of that loop.
-- Tools.RoundTrip: what the one tool writes, read by the other.
-- Ast.Compose, Ast.Printer: the `compose` methods, and `T` and `QueryPrinter` of rethinkdb/errors.py.
--
-- The loops of `recvall` and `sendall` are recursion on the script, so no fuel is needed. The reading loop and
-- `_get_next` have two rounds more than the script has calls of `recv`, since a round that finds no bytes kept
-- from a timeout makes at least one call, and waits for ever when the script is used up. A login has five messages
-- at most, since each that asks for a reply adds one to a state of at most 3, and a response of it has at most one
-- character for each call of `recv`, and one more. The loop of `batches` calls `get_line` once in a round, and
-- each call gives a row or is followed by a read that takes a character from the file, or ends the loop, so the
-- rows and the characters together are rounds enough. `isinstance` looks four classes up, which is the longest chain.
--
-- Not modelled: JSON and TLS, which are libraries; a KeyboardInterrupt in `recv`, with the reconnect upon
-- it; the variants of net.py for event loops but asyncio, and of that `connect` and the timeouts; the
-- options, processes and progress of the command line tools, and the tools that only call others;
-- `term_type`, whose numbers are generated.
-- Host, port and numbers inside messages are left out.
pub mod Base
pub mod Errors
pub mod Ast
pub mod Net
pub mod Asyncio
pub mod Retry
pub mod Tools
pub mod Handshake
