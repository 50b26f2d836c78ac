-- ===== src/Network/Handling.antt =====
-- `Connection::new` and `set_timeouts` of src/network/connection.rs, and the worker's
-- `handle_connection` of src/network/server.rs from its first statement to its last. The two handles
-- of a connection are one socket; its options and the outcomes of the calls on it are explicit. The
-- address of the peer, which is for the log messages, is left out. The steps of the server, which
-- other threads come between, are in Network/Server.
use atlas_kv.Base.{
  Bool, Bool-cases, List, Option, arith, if◌then◌else◌, inl, inr, ltb, none, refl, some, true, ℕ,
  ◌%◌, ◌+◌, ◌-◌, ◌<◌, ◌^◌, ◌∙◌, ◌≡◌,
}
use atlas_kv.Error.{AtlasError, Result, ok, err, IoKind, io}
use atlas_kv.Exec.{Exec, pure, fail, modify, ◌>>◌}
use atlas_kv.Protocol.Stream.{Reader, Writer}
use atlas_kv.Wal.Entry.{Libraries}
use atlas_kv.Engine.{Engine}
use atlas_kv.Network.Connection.{Connection, Turn, handle}

-- The options that the program sets; a timeout in milliseconds.
pub record Socket : Type 0 where
  pub nodelay : Bool
  pub read_timeout : Option ℕ
  pub write_timeout : Option ℕ

pub record SocketEnv : Type 0 where
  pub set_nodelay : Option IoKind
  pub try_clone : Option IoKind
  pub set_read_timeout : Option IoKind
  pub set_write_timeout : Option IoKind

abbrev option_call : Option IoKind → (Socket → Socket) → Exec Socket (Unit {0})
option_call none f = modify f
option_call (some k) f = fail (io k)

-- `Connection::new` on a stream with these two ends.
unfoldable pub new_connection : SocketEnv → Reader → Writer → Engine → Exec Socket Connection
new_connection env reader writer e = do
  option_call env.set_nodelay (λ s. record s { nodelay = true })
  option_call env.try_clone (λ s. s)
  pure (record { reader = reader; writer = writer; engine = e })

-- A timeout of 0 is not set.
abbrev timeout_call : ℕ → Option IoKind → (Socket → Socket) → Exec Socket (Unit {0})
timeout_call ms fault f s = if ltb 0 ms then option_call fault f s else (ok tt, s)

unfoldable pub set_timeouts : SocketEnv → ℕ → ℕ → Exec Socket (Unit {0})
set_timeouts env read_ms write_ms = do
  timeout_call read_ms env.set_read_timeout (λ s. record s { read_timeout = some read_ms })
  timeout_call write_ms env.set_write_timeout (λ s. record s { write_timeout = some write_ms })
  pure tt

-- What a worker works on: the engine and the counter that it shares, and the stream.
pub record Work : Type 0 where
  pub engine : Engine
  pub active_connections : ℕ
  pub reader : Reader
  pub writer : Writer
  pub socket : Socket

-- The connection on the stream.
abbrev pub connection_of : Work → Connection
connection_of work = record { reader = work.reader; writer = work.writer; engine = work.engine }

-- `fetch_add(1)` and `fetch_sub(1)`.
abbrev count_up : ℕ → ℕ
count_up n = (n + 1) % 2 ^ 64

abbrev count_down : ℕ → ℕ
count_down n = (n + (2 ^ 64 - 1)) % 2 ^ 64

module _ (libs : Libraries) (display : AtlasError → List ℕ) where
  -- Behind `Connection::new`: an error of `set_timeouts` or of `handle` is logged.
  unfoldable pub serve_connection :
      SocketEnv → ℕ → ℕ → ℕ → (ℕ → Turn) → Result Connection × Socket → Work → Work
  unfolding set_timeouts
  serve_connection env read_ms write_ms rounds turns (err x, s) work = record work {
    active_connections = count_down work.active_connections;
    socket = s;
  }
  serve_connection env read_ms write_ms rounds turns (ok c, s) work =
      let (set, s') = set_timeouts env read_ms write_ms s in
      let (result, c') = handle libs display rounds turns c in
      record {
        engine = c'.engine;
        active_connections = count_down work.active_connections;
        reader = c'.reader;
        writer = c'.writer;
        socket = s';
      }

  unfoldable pub handle_connection : SocketEnv → ℕ → ℕ → ℕ → (ℕ → Turn) → Work → Work
  unfolding new_connection serve_connection
  handle_connection env read_ms write_ms rounds turns work =
      let work' = record work { active_connections = count_up work.active_connections } in
      serve_connection env read_ms write_ms rounds turns
        (new_connection env work.reader work.writer work.engine work.socket) work'

  serve_connection-active :
      (env : SocketEnv) (read_ms write_ms rounds : ℕ) (turns : ℕ → Turn)
      (opened : Result Connection × Socket) (work : Work)
      → (serve_connection env read_ms write_ms rounds turns opened work).active_connections
        ≡ count_down work.active_connections
  unfolding serve_connection
  serve_connection-active env read_ms write_ms rounds turns (ok c, s) work = refl
  serve_connection-active env read_ms write_ms rounds turns (err x, s) work = refl

  -- Whatever the socket and the client do, a worker leaves the counter of active connections as it
  -- found it.
  pub handle_connection-active :
      (env : SocketEnv) (read_ms write_ms rounds : ℕ) (turns : ℕ → Turn) (work : Work)
      → work.active_connections < 2 ^ 64
      → (handle_connection env read_ms write_ms rounds turns work).active_connections
        ≡ work.active_connections
  unfolding handle_connection
  handle_connection-active env read_ms write_ms rounds turns work small =
      let work' = record work { active_connections = count_up work.active_connections } in
      let counted : count_down (count_up work.active_connections) ≡ work.active_connections =
        omega arith in
      serve_connection-active env read_ms write_ms rounds turns
        (new_connection env work.reader work.writer work.engine work.socket) work'
      ∙ counted

  -- A connection whose socket can be set up is served as `handle` serves it, whether or not its
  -- timeouts can be set.
  pub handle_connection-served :
      (env : SocketEnv) (read_ms write_ms rounds : ℕ) (turns : ℕ → Turn) (work : Work)
      → env.set_nodelay ≡ none
      → env.try_clone ≡ none
      → (let served = (handle libs display rounds turns (connection_of work)).1 in
          let work' = handle_connection env read_ms write_ms rounds turns work in
          (work'.engine ≡ served.engine) × (work'.writer ≡ served.writer))
  unfolding handle_connection serve_connection new_connection
  handle_connection-served env read_ms write_ms rounds turns work nodelay clone =
      rw (nodelay, clone) (refl, refl)

-- Timeouts that can be set are set, unless they are 0.
pub set_timeouts_lem :
    (env : SocketEnv) (read_ms write_ms : ℕ) (s : Socket)
    → env.set_read_timeout ≡ none
    → env.set_write_timeout ≡ none
    → set_timeouts env read_ms write_ms s ≡ (
      ok tt,
      record s {
        read_timeout = if ltb 0 read_ms then some read_ms else s.read_timeout;
        write_timeout = if ltb 0 write_ms then some write_ms else s.write_timeout;
      },
    )
unfolding set_timeouts
set_timeouts_lem env read_ms write_ms s read write = elim (Bool-cases (ltb 0 read_ms)) [
  | inl r ↦ elim (Bool-cases (ltb 0 write_ms)) [
    | inl w ↦ rw (read, write, r, w) refl
    | inr w ↦ rw (read, r, w) refl
  ]
  | inr r ↦ elim (Bool-cases (ltb 0 write_ms)) [
    | inl w ↦ rw (write, r, w) refl
    | inr w ↦ rw (r, w) refl
  ]
]
