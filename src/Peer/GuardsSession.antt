-- ===== src/Peer/GuardsSession.antt =====
-- The guards of the shared state's lock over a round of `handle_peer`.
use metalbond_rs.Types.{ConnectionDirection, closed, Ipnet}
use metalbond_rs.Wire.{Prost}
use metalbond_rs.Codec.{GeneratedMessage, encode}
use metalbond_rs.State.Actions.{done, fail, waits, deadlock, Exit, World, Done, or_else}
use metalbond_rs.Peer.Guards.{
  Leaves, Returns, Moves-pure, Moves-change_peer, Moves-then, Returns-or_else,
}
use metalbond_rs.Peer.GuardsHandlers.{
  trigger-Returns, keepalive-Returns, state-Returns, process_hello-Returns,
  process_keepalive-Returns, process_subscribe-Returns, process_unsubscribe-Returns,
  process_update-Returns,
}
use metalbond_rs.Peer.{send_keepalive, trigger_shutdown}
use metalbond_rs.Peer.Session.{
  Session, Event, shutdown, frame, frame_error, end_of_stream, outbound, interval_tick, timeout,
  reset, dispatch, start_timers, start_timers_if, send_first_keepalive, send_interval_keepalive,
  after_write, after_shutdown, finish, after_message, write_message, branch, step,
}
use metalbond_rs.Common.{ℕ, Bool, true, false, Option, none, some, List, [], ◌∷◌, ◌≡◌}

-- The task holds no guard.
abbrev pub IsFree : {Net : Type 0} → World Net → Type 0
IsFree w = (w.readers ≡ 0) × (w.writer ≡ false)

-- The task holds no guard, or it waits and holds one.
abbrev pub IsReleased : {Net : Type 0} → Exit Done × Session Net → Type 0
IsReleased (x, s) = Leaves 0 false (x, s.world)

module _ {Net : Type 0} ⦃i : Ipnet Net⦄ ⦃prost : Prost⦄ where
  reset-Returns : Returns {Net = Net} reset
  unfolding reset
  reset-Returns = Moves-then _ _ (state-Returns closed) trigger-Returns

  beat-Returns : Returns {Net = Net} (or_else send_keepalive trigger_shutdown)
  beat-Returns = Returns-or_else _ _ keepalive-Returns trigger-Returns

  dispatch-Returns : (m : GeneratedMessage) → Returns {Net = Net} (dispatch m)
  unfolding dispatch
  dispatch-Returns (GeneratedMessage.hello h) = process_hello-Returns h
  dispatch-Returns GeneratedMessage.keepalive = process_keepalive-Returns
  dispatch-Returns (GeneratedMessage.subscribe s) = process_subscribe-Returns s
  dispatch-Returns (GeneratedMessage.unsubscribe s) = process_unsubscribe-Returns s
  dispatch-Returns (GeneratedMessage.update u) = process_update-Returns u

  first_keepalive-Returns : (d : ConnectionDirection) → Returns {Net = Net} (send_first_keepalive d)
  unfolding send_first_keepalive
  first_keepalive-Returns ConnectionDirection.incoming = Moves-pure tt
  first_keepalive-Returns ConnectionDirection.outgoing = beat-Returns

  start_timers-IsReleased :
      (b : Bool) (s : Session Net) → IsFree s.world → IsReleased (start_timers_if b s)
  unfolding start_timers_if
  start_timers-IsReleased true s h =
      (first_keepalive-Returns s.world.peer.direction).at s.world h.0 h.1
  start_timers-IsReleased false s h = h

  after_message-IsReleased :
      (x : Exit Done) (s : Session Net) → IsReleased (x, s) → IsReleased (after_message (x, s))
  unfolding after_message start_timers
  after_message-IsReleased (done _) s h = start_timers-IsReleased _ s h
  after_message-IsReleased (fail e) s h = reset-Returns.at s.world h.0 h.1
  after_message-IsReleased waits s h = h
  after_message-IsReleased deadlock s h = h

  after_write-IsReleased :
      (bytes : Option (List ℕ)) (io_ok : Bool) (m : GeneratedMessage) (s : Session Net)
      → IsFree s.world
      → IsReleased (after_write bytes io_ok m s)
  unfolding after_write
  after_write-IsReleased none io_ok m s h = reset-Returns.at s.world h.0 h.1
  after_write-IsReleased (some bytes) true m s h = h
  after_write-IsReleased (some bytes) false m s h = reset-Returns.at s.world h.0 h.1

  write_message-IsReleased :
      (io_ok : Bool) (queue : List GeneratedMessage) (s : Session Net)
      → IsFree s.world
      → IsReleased (write_message io_ok queue s)
  unfolding write_message
  write_message-IsReleased io_ok [] s h = h
  write_message-IsReleased io_ok (m ∷ rest) s h = after_write-IsReleased (encode m []) io_ok m _ h

  interval-Returns : (b : Bool) → Returns {Net = Net} (send_interval_keepalive b)
  unfolding send_interval_keepalive
  interval-Returns true = beat-Returns
  interval-Returns false = Moves-pure tt

  after_shutdown-IsReleased :
      (x : Exit Done) (s : Session Net) → IsReleased (x, s) → IsReleased (after_shutdown (x, s))
  unfolding after_shutdown finish
  after_shutdown-IsReleased (done a) s h = h
  after_shutdown-IsReleased (fail e) s h = h
  after_shutdown-IsReleased waits s h = h
  after_shutdown-IsReleased deadlock s h = h

  branch-IsReleased : (e : Event) (s : Session Net) → IsFree s.world → IsReleased (branch e s)
  unfolding branch
  branch-IsReleased shutdown s h =
      after_shutdown-IsReleased _ _
        ((Moves-then _ _ (Moves-change_peer _) (state-Returns closed)).at s.world h.0 h.1)
  branch-IsReleased (frame m) s h =
      after_message-IsReleased _ _ ((dispatch-Returns m).at s.world h.0 h.1)
  branch-IsReleased frame_error s h = reset-Returns.at s.world h.0 h.1
  branch-IsReleased end_of_stream s h = reset-Returns.at s.world h.0 h.1
  branch-IsReleased (outbound io_ok) s h = write_message-IsReleased io_ok s.world.peer.tx_queue s h
  branch-IsReleased interval_tick s h = (interval-Returns _).at s.world h.0 h.1
  branch-IsReleased timeout s h = reset-Returns.at s.world h.0 h.1

  -- From a session that holds no guard of the shared state's lock: after a round of the `select!`, the
  -- task again holds none if the round has ended, with or without an error, and it holds one if the
  -- round waits for room in the channel of route updates or for the lock that it holds itself.
  pub step-IsReleased :
      (e : Event) (polled : Bool) (s : Session Net) → IsFree s.world → IsReleased (step e polled s)
  unfolding step
  step-IsReleased e polled s h = branch-IsReleased e _ h
