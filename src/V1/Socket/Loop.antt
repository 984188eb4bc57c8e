-- ===== src/V1/Socket/Loop.antt =====
-- `wsHandler` of pkg/route/socket/ws.go: the loop that reads the messages of a connection of version
-- 1, and what follows its end.
use spike_broker.Prelude.{
  ℕ, ◌≡◌, refl, ap, ◌≢◌, Bool, true, false, Option, none, some, List, [], ◌∷◌, ◌++◌,
}
use spike_broker.Rids.Pattern.{json}
use spike_broker.Go.{Go, Exit, value, panic, pure, continue, ◌>>=◌, ◌>>◌}
use spike_broker.Socket.Message.{WsMessage, type_error}
use spike_broker.Socket.Loop.{Read, closed, broken, message}
use spike_broker.V1.Rids.{event_socket_disconnected}
use spike_broker.V1.Request.{ErrorRequest, empty_request, internal_error}
use spike_broker.V1.Connection.{Peer, State, outside}
use spike_broker.V1.Socket.{handle}

-- `close` closes the socket, and `unsubscribe` ends a monitor.
module _ {W : Type 0} (peer : Peer W) (close : W → W) (unsubscribe : ℕ → W → W) where
  -- The message that tells a client of an error, with the id of its own.
  abbrev pub error_message : WsMessage → ErrorRequest → WsMessage
  error_message m e = record m { kind = type_error; payload = json (peer.codec.error_to_json e) }

  abbrev pub next_error : WsMessage → Option ErrorRequest → Option WsMessage
  next_error m none = none
  next_error m (some e) = some (error_message m e)

  abbrev pub write_message : WsMessage → Go (State W) (Unit {0})
  write_message m s = (value tt, record s { world = (peer.write_json m s.world).1 })

  -- The loop, over what is read: whether it returns. After the last read it waits. An error is
  -- written at the top of the next round, which returns.
  unfoldable pub read_loop : Option WsMessage → List Read → Go (State W) Bool
  read_loop (some e) rs = write_message e >> pure true
  read_loop none [] = pure false
  read_loop none (closed ∷ rs) = pure true
  read_loop none (broken m text ∷ rs) = read_loop (some (error_message m (internal_error text))) rs
  read_loop none (message m ∷ rs) = handle peer m >>= λ e. read_loop (next_error m e) rs

  unfoldable pub end_monitors : List ℕ → W → W
  end_monitors [] w = w
  end_monitors (u ∷ us) w = end_monitors us (unsubscribe u w)

  -- What the goroutines do when the connection's context is done: the monitors end, the socket
  -- closes, and the disconnected event is published.
  unfoldable pub on_done : Go (State W) (Unit {0})
  on_done s =
      (outside (peer.provider.publish (event_socket_disconnected (s.id ∷ [])) empty_request s.token)
          >>= λ e. pure tt)
        (record s { world = close (end_monitors s.monitors s.world); monitors = [] })

  -- The deferred function, which ends the context; it closes the socket after a panic.
  abbrev pub on_exit : Exit Bool × State W → Exit (Unit {0}) × State W
  on_exit (value false, s) = (value tt, s)
  on_exit (value true, s) = on_done s
  on_exit (panic p, s) = on_done (record s { world = close s.world })

  unfoldable pub ws_handler : List Read → Go (State W) (Unit {0})
  ws_handler rs s = on_exit (read_loop none rs s)

  -- The reads are answered one after the other up to the first that fails, which is the last.
  abbrev pub give_up : WsMessage → ErrorRequest → Go (State W) Bool
  give_up m e = write_message (error_message m e) >> pure true

  abbrev pub unless_failed : WsMessage → Go (State W) Bool → Option ErrorRequest → Go (State W) Bool
  unless_failed m rest none = rest
  unless_failed m rest (some e) = give_up m e

  unfoldable pub serve_reads : List Read → Go (State W) Bool
  serve_reads [] = pure false
  serve_reads (closed ∷ rs) = pure true
  serve_reads (broken m text ∷ rs) = give_up m (internal_error text)
  serve_reads (message m ∷ rs) = let rest = serve_reads rs in handle peer m >>= unless_failed m rest

  continue-serve_reads :
      (m : WsMessage) (rs : List Read) (r : Exit (Option ErrorRequest) × State W)
      → ((v : State W) → read_loop none rs v ≡ serve_reads rs v)
      → continue (λ e. read_loop (next_error m e) rs) r
        ≡ continue (unless_failed m (serve_reads rs)) r
  unfolding read_loop
  continue-serve_reads m rs (panic p, v) rest = refl
  continue-serve_reads m rs (value none, v) rest = rest v
  continue-serve_reads m rs (value (some e), v) rest = refl

  read_loop-serve_reads : (rs : List Read) (s : State W) → read_loop none rs s ≡ serve_reads rs s
  unfolding read_loop serve_reads
  read_loop-serve_reads [] s = refl
  read_loop-serve_reads (closed ∷ rs) s = refl
  read_loop-serve_reads (broken m text ∷ rs) s = refl
  read_loop-serve_reads (message m ∷ rs) s =
      continue-serve_reads m rs (handle peer m s) (read_loop-serve_reads rs)

  -- A connection behaves like one that answers its reads one after the other: an error of a handler,
  -- and a text that does not decode, are told in one message with the id of their own, and the
  -- connection ends with them.
  pub ws_handler-serve_reads :
      (rs : List Read) (s : State W) → ws_handler rs s ≡ on_exit (serve_reads rs s)
  unfolding ws_handler
  ws_handler-serve_reads rs s = ap on_exit (read_loop-serve_reads rs s)

  continue-append :
      (m : WsMessage) (xs ys : List Read) (r : Exit (Option ErrorRequest) × State W)
      → ((v : State W)
          → (read_loop none xs v).0 ≢ value false
          → read_loop none (xs ++ ys) v ≡ read_loop none xs v)
      → (continue (λ e. read_loop (next_error m e) xs) r).0 ≢ value false
      → continue (λ e. read_loop (next_error m e) (xs ++ ys)) r
        ≡ continue (λ e. read_loop (next_error m e) xs) r
  unfolding read_loop
  continue-append m xs ys (panic p, v) rest ends = refl
  continue-append m xs ys (value none, v) rest ends = rest v ends
  continue-append m xs ys (value (some e), v) rest ends = refl

  read_loop-append :
      (xs ys : List Read) (s : State W)
      → (read_loop none xs s).0 ≢ value false
      → read_loop none (xs ++ ys) s ≡ read_loop none xs s
  unfolding read_loop
  read_loop-append [] ys s ends = absurd (ends refl)
  read_loop-append (closed ∷ xs) ys s ends = refl
  read_loop-append (broken m text ∷ xs) ys s ends = refl
  read_loop-append (message m ∷ xs) ys s ends =
      continue-append m xs ys (handle peer m s) (read_loop-append xs ys) ends

  -- Once the loop has returned or panicked, what comes of the connection is the same for all further
  -- reads.
  pub ws_handler-append :
      (xs ys : List Read) (s : State W)
      → (read_loop none xs s).0 ≢ value false
      → ws_handler (xs ++ ys) s ≡ ws_handler xs s
  unfolding ws_handler
  ws_handler-append xs ys s ends = ap on_exit (read_loop-append xs ys s ends)
