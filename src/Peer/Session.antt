-- ===== src/Peer/Session.antt =====
-- `handle_peer` of peer.rs: the task of one connection. One round of its `select!` is a step: the
-- event is the branch that completes, and `polled` says whether the branch of the keepalive timeout
-- was polled, and left pending, before that branch completed.
use metalbond_rs.Types.{
  Ipnet, connecting, hello_sent, established, closed, ConnectionDirection, connection_state_eq,
}
use metalbond_rs.Wire.{Prost}
use metalbond_rs.Codec.{GeneratedMessage, encode}
use metalbond_rs.State.Actions.{
  done, fail, waits, deadlock, Exit, World, M, Done, pure, ◌>>=◌, ◌>>◌, or_else, change_peer,
  reading,
}
use metalbond_rs.Peer.{send_hello, send_keepalive, trigger_shutdown, set_state}
use metalbond_rs.Peer.Handlers.{
  process_hello, process_keepalive, process_subscribe, process_unsubscribe, process_update,
  is_outgoing,
}
use metalbond_rs.Common.{
  ℕ, Bool, true, false, not, ◌&&◌, Option, none, some, List, [], ◌∷◌, ◌++◌, is_empty, ◌==◌,
}

-- The variables of the task: `keepalive_interval_timer` and `keepalive_timeout_timer` are kept by
-- whether they are `Some`; `sent` are the messages written to the stream, oldest first.
pub record Session (Net : Type 0) : Type 0 where
  pub world : World Net
  pub interval_on : Bool
  pub timeout_armed : Bool
  pub finished : Bool
  pub sent : List GeneratedMessage

-- The branches of the `select!`, with what they receive.
pub data Event : Type 0 where
  shutdown : Event
  frame : GeneratedMessage → Event
  frame_error : Event
  end_of_stream : Event
  outbound : Bool → Event
  interval_tick : Event
  timeout : Event

abbrev pub S : Type 0 → Type 0
S Net = Session Net → Exit Done × Session Net

module _ {Net : Type 0} ⦃i : Ipnet Net⦄ ⦃prost : Prost⦄ where
  -- An action of the peer inside the task.
  abbrev pub run : M Net Done → S Net
  run m s = ((m s.world).0, record s { world = (m s.world).1 })

  -- Whether a branch can complete.
  unfoldable pub is_enabled : Event → Session Net → Bool
  is_enabled shutdown s = s.world.peer.shutdown_permit
  is_enabled (outbound io_ok) s = not (is_empty s.world.peer.tx_queue)
  is_enabled interval_tick s = s.interval_on
  is_enabled timeout s = s.timeout_armed
  is_enabled _ s = true

  -- `set_state(Closed)` and `trigger_shutdown`, as the loop does when a message, a read or a write fails,
  -- when the stream ends, and at the keepalive timeout.
  unfoldable pub reset : M Net Done
  reset = do set_state closed; trigger_shutdown

  unfoldable pub dispatch : GeneratedMessage → M Net Done
  dispatch (GeneratedMessage.hello hello) = process_hello hello
  dispatch GeneratedMessage.keepalive = process_keepalive
  dispatch (GeneratedMessage.subscribe sub) = process_subscribe sub
  dispatch (GeneratedMessage.unsubscribe unsub) = process_unsubscribe unsub
  dispatch (GeneratedMessage.update update) = process_update update

  unfoldable pub send_first_keepalive : ConnectionDirection → M Net Done
  send_first_keepalive ConnectionDirection.incoming = pure tt
  send_first_keepalive ConnectionDirection.outgoing = or_else send_keepalive trigger_shutdown

  unfoldable pub start_timers_if : Bool → S Net
  unfolding send_first_keepalive
  start_timers_if true s =
      run (send_first_keepalive s.world.peer.direction)
        (record s { interval_on = true; timeout_armed = true })
  start_timers_if false s = (done tt, s)

  -- After a message: the first one that leaves the connection established starts the timers.
  unfoldable pub start_timers : S Net
  unfolding start_timers_if
  start_timers s = start_timers_if (s.world.peer.state == established && not s.interval_on) s

  unfoldable pub after_message : Exit Done × Session Net → Exit Done × Session Net
  unfolding start_timers
  after_message (done _, s) = start_timers s
  after_message (fail e, s) = run reset s
  after_message (waits, s) = (waits, s)
  after_message (deadlock, s) = (deadlock, s)

  -- `framed.send(m)`: the bytes of the frame, if it has some, and whether the stream took them.
  unfoldable pub after_write : Option (List ℕ) → Bool → GeneratedMessage → S Net
  after_write none io_ok m s = run reset s
  after_write (some bytes) true m s = (done tt, record s { sent = s.sent ++ m ∷ [] })
  after_write (some bytes) false m s = run reset s

  -- The receiver takes the oldest message of the channel.
  unfoldable pub write_message : Bool → List GeneratedMessage → S Net
  unfolding after_write
  write_message io_ok [] s = (done tt, s)
  write_message io_ok (m ∷ rest) s =
      after_write (encode m []) io_ok m
        (record s { world = record (s.world) { peer = record (s.world.peer) { tx_queue = rest } } })

  unfoldable pub send_interval_keepalive : Bool → M Net Done
  send_interval_keepalive true = or_else send_keepalive trigger_shutdown
  send_interval_keepalive false = pure tt

  -- The end of the task drops the receiver of the channel.
  unfoldable pub finish : S Net
  finish s = (
    done tt,
    record s {
      finished = true;
      world = record (s.world) { peer = record (s.world.peer) { tx_open = false } };
    },
  )

  unfoldable pub after_shutdown : Exit Done × Session Net → Exit Done × Session Net
  unfolding finish
  after_shutdown (done _, s) = finish s
  after_shutdown (fail e, s) = finish s
  after_shutdown (waits, s) = (waits, s)
  after_shutdown (deadlock, s) = (deadlock, s)

  unfoldable pub branch : Event → S Net
  unfolding dispatch after_message after_shutdown write_message send_interval_keepalive
  branch shutdown s =
      after_shutdown
        (run (change_peer (λ p. record p { shutdown_permit = false }) >> set_state closed) s)
  branch (frame message) s = after_message (run (dispatch message) s)
  branch frame_error s = run reset s
  branch end_of_stream s = run reset s
  branch (outbound io_ok) s = write_message io_ok s.world.peer.tx_queue s
  branch interval_tick s =
      run
        (send_interval_keepalive
          (is_outgoing s.world.peer.direction && s.world.peer.state == established))
        s
  branch timeout s = run reset (record s { timeout_armed = false })

  -- A poll of the timeout branch takes the timer out of its variable, and drops it with the round.
  unfoldable pub step : Event → Bool → S Net
  unfolding branch
  step event polled s = branch event (record s { timeout_armed = s.timeout_armed && not polled })

  -- The task before its loop: an outgoing connection says hello first, and ends if it cannot.
  unfoldable pub say_hello : M Net Done
  say_hello = do is_server ← reading (λ mb. mb.is_server); send_hello is_server

  unfoldable pub fresh : World Net → Session Net
  fresh w = record {
    world = w;
    interval_on = false;
    timeout_armed = false;
    finished = false;
    sent = [];
  }

  unfoldable pub after_hello : Exit Done → S Net
  unfolding after_shutdown
  after_hello (done a) s = run (set_state hello_sent) s
  after_hello (fail e) s = after_shutdown (run (set_state closed) s)
  after_hello waits s = (waits, s)
  after_hello deadlock s = (deadlock, s)

  unfoldable pub open_connection : ConnectionDirection → World Net → Exit Done × Session Net
  unfolding say_hello fresh after_hello
  open_connection ConnectionDirection.incoming w = run (set_state connecting) (fresh w)
  open_connection ConnectionDirection.outgoing w =
      after_hello (say_hello w).0 (fresh (say_hello w).1)

  unfoldable pub start : World Net → Exit Done × Session Net
  unfolding open_connection
  start w = open_connection w.peer.direction w
