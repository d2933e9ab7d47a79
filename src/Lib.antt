-- ===== src/Lib.antt =====
-- bgx runs a command in a PTY behind a per-session daemon, keeps its output, and attaches terminals
-- to it. This library models the parts that carry the program's own logic.
--
-- Vtscan (vtscan/vtscan.go): the scanner that tells where a VT byte stream may be cut. `Scanner` is
--   the struct; `step`, `advance` and `safe_cut` are its methods. Used by the daemon's output pump,
--   the scrollback store and the terminal model.
-- Daemon.Frame (daemon/frame.go): the frame protocol between daemon and client. A reader is the list
--   of the bytes that are left in the stream, a writer any state with a write that may fail.
-- Daemon.Da (daemon/da.go): the answers to Device Attributes queries.
-- Daemon.Attach (daemon/attach.go): what one attached client is owed. A turn of its writer takes one
--   frame; between turns the output pump delivers. Daemon.Terminal is the terminal emulator as a
--   parameter; its `Replays` has the two laws that the design rests on, that it does not fail and
--   that a snapshot brings a terminal in any state to the screen that it was taken of.
-- Daemon.Lifecycle (daemon/daemon.go): the end of the command and the handlers of wait and kill that
--   wait for it. A world is the command, the channel `done` and the handlers; a step is one action of
--   reap or a turn of one handler, in any order, and a timer may or may not have fired.
-- Daemon.Session (daemon/daemon.go, daemon/attach.go): the session that owns the emulator, the input
--   queue and the attached clients; each definition is what one goroutine does under the lock.
-- Daemon.Retention (daemon/retention.go): which records of ended sessions are kept; a directory is the
--   list of its entries, and the times of the records are a parameter.
-- Daemon.Protocol (daemon/protocol.go): the metadata of a session.
-- Daemon.Closed (daemon/daemon.go): what of a handler's error is recorded.
-- Errors: Go's error values as trees of wrapped and joined causes, with errors.Join and
--   fmt.Errorf as the standard library documents them. Client.Shutdown and Daemon.Closed prune them.
-- Daemon.Names (daemon/retention.go): the file names of ids and namespaces.
-- Vt (vt/vt.go): the terminal over the emulator library, which is the parameter `Engine`, with the
--   screen and the modes that it follows by itself. A round of the loop of `write` is `write_round`.
--   Vt.Snapshot has the snapshot of both screens and the modes, Vt.Switch what the write that stops at
--   a switch of the screen tells.
-- Scrollback (scrollback/): the bounded record of the output. Store has the operations of the type
--   of that name: `write`, and the background goroutine as `take_pending` and rounds of `process`
--   with any writes between them. Backend is where chunks are kept, a record of operations that may
--   fail; zstd is a parameter with the one law that its decoder undoes its encoder. `process` takes
--   the length of the chunk buffer as fuel, since every round takes a byte at least.
-- Client.CtrlKey (ctrlkey.go): the detach key in the terminal's input, across reads.
-- Client.Input (client_attach_input.go): the loop that sends what is typed; reads and the timer are
--   events.
-- Client.View (attachview.go): the painter of the isolated presentation. The user's terminal is a
--   parameter whose writes may be short or fail; a round of `paintLoop` is a step.
-- Client.Models (attachmodels.go): what an attached client knows of the session and of the user's
--   terminal, and what it writes there. Present has the snapshots, the output and the sizes, Finish
--   the end. A nil view that is used is an outcome of its own.
-- Client.Shutdown (client_attach.go): the errors that a local end of an attachment brings about.
-- Client.Sessions (sessions.go, client.go): the listing of live and ended sessions. A map is a list
--   without two entries of one id, and the order of its entries in a `range` is a parameter.
-- Client.Start (start.go, client.go): starting sessions in one namespace. A world has the daemons and
--   the records of the namespace and the one starting process that holds its lock; `turn` is a step of
--   Start under the lock, `Outside` a step of a daemon or of the retention.
-- Client.Dirs (dirs.go): the fallback chains of directories. The environment is a record.
--
-- Bytes are native numbers; theorems that need them below 256 say so. Loops over a buffer are
-- recursion on the list of the bytes that are left; the loop over alternate-key fields takes the
-- number of bytes left as fuel, each round reading one at least. The loop of applyOutput takes a round
-- for each byte of the output, since each writes one to the model at least. Decimal numbers are
-- printed with at most 20 digits, which every uint64 has. A float64 is found in at most ten
-- doublings of the distance between two of them, enough for every int64.
--
-- Not modelled: sockets, processes, goroutine scheduling other than the order of steps, JSON, the file
-- system, and the linked libraries for zstd and for the terminal emulator, which are I/O or not code
-- of the repository; and, of its own code, the connection and the wait of an attachment
-- (client_attach.go), the checks and the cleanup of a start (start.go, client.go), the typed client, the
-- options and the command line (client_api.go, command_api.go, attach.go, internal/cli), and of
-- daemon/daemon.go the other requests, the persisted record and the shutdown of the daemon.
pub mod Base
pub mod Client
pub mod Daemon
pub mod Errors
pub mod Scrollback
pub mod Vt
pub mod Vtscan
