-- ===== src/Socket/Loop.antt =====
-- `wsHandler` of v2/pkg/spike/socket/ws.go: the loop that reads the messages of a connection, and
-- the moment at which a client is told of an error.
use spike_broker.Prelude.{◌≡◌, refl, ap, Option, none, some, List, [], ◌∷◌, Text}
use spike_broker.Rids.Pattern.{json, nil}
use spike_broker.Rids.Base.{event_socket_disconnected}
use spike_broker.Broker.Message.{ErrorMessage, internal_error, plain}
use spike_broker.Broker.Provider
use spike_broker.Go.{
  Go, Exit, value, panic, PanicValue, recovering, continue, ◌>>=◌, ◌>>◌, pure, continue-eq, settle,
}
use spike_broker.Socket.Message.{WsMessage, State, outside, modify, type_error}
use spike_broker.Socket.Handlers.{Peer, handle}

-- How `ReadJSON` ends: the client has closed the connection, the text does not decode (with what
-- was decoded of it), or there is a message.
pub data Read : Type 0 where
  closed : Read
  broken : WsMessage → Text → Read
  message : WsMessage → Read

-- The state of a connection beside its messages: `cancel` ends its context, `close` its socket.
module _ {W : Type 0} (peer : Peer W) (cancel close : W → W) where
  -- The message that tells a client of an error, with the id of its own.
  abbrev pub error_message : WsMessage → ErrorMessage → WsMessage
  error_message m e = record m { kind = type_error; payload = json (peer.codec.error_to_json e) }

  abbrev pub next_error : WsMessage → Option ErrorMessage → Option WsMessage
  next_error m none = none
  next_error m (some e) = some (error_message m e)

  abbrev pub write_message : WsMessage → Go (State W) (Unit {0})
  write_message m s = (value tt, record s { world = (peer.write_json m s.world).1 })

  -- The top of the loop: a pending error message is written, whether that succeeds or not.
  unfoldable pub flush : Option WsMessage → Go (State W) (Unit {0})
  flush none = pure tt
  flush (some m) = write_message m

  abbrev pub cancel_context : State W → State W
  cancel_context s = record s { world = cancel s.world }

  -- What follows the end of the connection: the publication's error is not looked at.
  unfoldable pub disconnect : Go (State W) (Unit {0})
  disconnect =
      modify cancel_context
      >> (λ s.
          outside
            (Provider.publish peer.codec peer.impl (event_socket_disconnected (s.session.id ∷ []))
              nil (some s.session.token))
            s)
      >>= λ e. pure tt

  -- The loop, over what is read. After the last read it waits.
  unfoldable pub read_loop : Option WsMessage → List Read → Go (State W) (Unit {0})
  read_loop pending [] = flush pending
  read_loop pending (closed ∷ rs) = flush pending >> disconnect
  read_loop pending (broken m t ∷ rs) =
      let rest = read_loop (some (error_message m (internal_error (some (plain t))))) rs in
      flush pending >> rest
  read_loop pending (message m ∷ rs) =
      flush pending >> (handle peer m >>= λ e. read_loop (next_error m e) rs)

  abbrev pub close_connection : PanicValue → Go (State W) (Unit {0})
  close_connection r = modify (λ (s : State W). record s { world = close s.world })

  -- `wsHandler`: a panic closes the connection.
  unfoldable pub ws_handler : List Read → Go (State W) (Unit {0})
  ws_handler rs = recovering close_connection (read_loop none rs)

  -- Each read is answered before the next.
  unfoldable pub answer_reads : List Read → Go (State W) (Unit {0})
  answer_reads [] = pure tt
  answer_reads (closed ∷ rs) = disconnect
  answer_reads (broken m t ∷ rs) =
      let rest = answer_reads rs in
      write_message (error_message m (internal_error (some (plain t)))) >> rest
  answer_reads (message m ∷ rs) = handle peer m >>= λ e. flush (next_error m e) >> answer_reads rs

  continue-tt : (r : Exit (Unit {0}) × State W) → r ≡ continue (λ _. pure tt) r
  continue-tt (value a, s) = refl
  continue-tt (panic p, s) = refl

  read_loop-answer_reads :
      (pending : Option WsMessage) (rs : List Read) (s : State W)
      → read_loop pending rs s ≡ (flush pending >> answer_reads rs) s
  unfolding read_loop answer_reads flush
  read_loop-answer_reads pending [] s = continue-tt (flush pending s)
  read_loop-answer_reads pending (closed ∷ rs) s = refl
  read_loop-answer_reads pending (broken m t ∷ rs) s =
      let e = some (error_message m (internal_error (some (plain t)))) in
      continue-eq (λ _. read_loop e rs) (λ _. flush e >> answer_reads rs)
        (λ _ u. read_loop-answer_reads e rs u) (flush pending s)
  read_loop-answer_reads pending (message m ∷ rs) s =
      continue-eq (λ _. handle peer m >>= λ e. read_loop (next_error m e) rs)
        (λ _. handle peer m >>= λ e. flush (next_error m e) >> answer_reads rs)
        (λ _ u.
          continue-eq (λ e. read_loop (next_error m e) rs)
            (λ e. flush (next_error m e) >> answer_reads rs)
            (λ e v. read_loop-answer_reads (next_error m e) rs v) (handle peer m u))
        (flush pending s)

  -- The handler of a connection keeps the error of a message until the top of its loop, but it
  -- behaves as one that answers each read before the next: an error is told in one message with
  -- the id of the failed one, and nothing follows the end of the connection.
  pub ws_handler-answer_reads :
      (rs : List Read) (s : State W)
      → ws_handler rs s ≡ recovering close_connection (answer_reads rs) s
  unfolding ws_handler flush
  ws_handler-answer_reads rs s = ap (settle close_connection) (read_loop-answer_reads none rs s)
