-- ===== src/Peer/SoundSession.antt =====
-- Every step of `handle_peer` of peer.rs keeps the invariant of the peer's world.
use metalbond_rs.Types.{Ipnet, ConnectionState, ConnectionDirection, closed, connection_state_eq}
use metalbond_rs.Wire.{Prost}
use metalbond_rs.Codec.{GeneratedMessage, encode}
use metalbond_rs.State.{peer_tx_buffer_size}
use metalbond_rs.State.Actions.{
  done, fail, waits, deadlock, Exit, M, Done, ◌>>=◌, or_else, change_peer,
}
use metalbond_rs.Peer.{send_keepalive, trigger_shutdown, set_state, send_hello}
use metalbond_rs.Peer.Keeps.{
  Keeps, keeps_then, keeps_bind, keeps_pure, keeps_or_else, keeps_reading, keeps_gets,
}
use metalbond_rs.Peer.Stable.{
  set_state_keeps, process_hello_keeps, process_keepalive_keeps, process_subscribe_keeps,
  process_unsubscribe_keeps, process_update_keeps,
}
use metalbond_rs.Peer.Sound.{IsSound, IsSound-stable}
use metalbond_rs.Peer.Session.{
  Session, Event, shutdown, frame, frame_error, end_of_stream, outbound, interval_tick, timeout,
  reset, dispatch, start_timers, start_timers_if, send_first_keepalive, send_interval_keepalive,
  after_write, after_shutdown, finish, after_message, write_message, branch, step, say_hello,
}
use metalbond_rs.Common.{
  ℕ, ◌≤◌, Bool, true, false, Option, none, some, List, [], ◌∷◌, length, arith,
}

module _ {Net : Type 0} ⦃i : Ipnet Net⦄ ⦃prost : Prost⦄ where
  abbrev Safe : M Net Done → Type 0
  Safe m = Keeps {Net = Net} IsSound m

  to_state : (s : ConnectionState) → Safe (set_state s)
  to_state s = set_state_keeps IsSound-stable (λ _. tt) (λ _. tt) s tt

  reset_sound : Safe reset
  unfolding reset
  reset_sound = keeps_then _ _ (to_state closed) IsSound-stable.trigger

  beat_sound : Safe (or_else send_keepalive trigger_shutdown)
  unfolding send_keepalive
  beat_sound = keeps_or_else _ _ (IsSound-stable.send _ tt) IsSound-stable.trigger

  dispatch_sound : (m : GeneratedMessage) → Safe (dispatch m)
  unfolding dispatch
  dispatch_sound (GeneratedMessage.hello h) =
      process_hello_keeps IsSound-stable (λ _. tt) (λ _. tt) (λ _. tt) tt tt h
  dispatch_sound GeneratedMessage.keepalive =
      process_keepalive_keeps IsSound-stable (λ _. tt) (λ _. tt) tt tt
  dispatch_sound (GeneratedMessage.subscribe s) =
      process_subscribe_keeps IsSound-stable (λ _. tt) (λ _. tt) s
  dispatch_sound (GeneratedMessage.unsubscribe s) = process_unsubscribe_keeps IsSound-stable s
  dispatch_sound (GeneratedMessage.update u) = process_update_keeps IsSound-stable u

  abbrev pub LeavesSound : Exit Done × Session Net → Type 0
  LeavesSound r = IsSound r.1.world

  first_keepalive_sound : (d : ConnectionDirection) → Safe (send_first_keepalive d)
  unfolding send_first_keepalive
  first_keepalive_sound ConnectionDirection.incoming = keeps_pure tt
  first_keepalive_sound ConnectionDirection.outgoing = beat_sound

  start_timers_sound :
      (b : Bool) (s : Session Net) → IsSound s.world → LeavesSound (start_timers_if b s)
  unfolding start_timers_if
  start_timers_sound true s h = (first_keepalive_sound s.world.peer.direction).at s.world h
  start_timers_sound false s h = h

  after_message_sound :
      (x : Exit Done) (s : Session Net) → IsSound s.world → LeavesSound (after_message (x, s))
  unfolding after_message start_timers
  after_message_sound (done _) s h = start_timers_sound _ s h
  after_message_sound (fail e) s h = reset_sound.at s.world h
  after_message_sound waits s h = h
  after_message_sound deadlock s h = h

  after_write_sound :
      (bytes : Option (List ℕ)) (io_ok : Bool) (m : GeneratedMessage) (s : Session Net)
      → IsSound s.world
      → LeavesSound (after_write bytes io_ok m s)
  unfolding after_write
  after_write_sound none io_ok m s h = reset_sound.at s.world h
  after_write_sound (some bytes) true m s h = h
  after_write_sound (some bytes) false m s h = reset_sound.at s.world h

  write_message_sound :
      (io_ok : Bool) (queue : List GeneratedMessage) (s : Session Net)
      → length queue ≤ peer_tx_buffer_size
      → IsSound s.world
      → LeavesSound (write_message io_ok queue s)
  unfolding write_message
  write_message_sound io_ok [] s q h = h
  write_message_sound io_ok (m ∷ rest) s q h =
      after_write_sound (encode m []) io_ok m _ (h.0, h.1, omega arith, h.3)

  interval_sound : (b : Bool) → Safe (send_interval_keepalive b)
  unfolding send_interval_keepalive
  interval_sound true = beat_sound
  interval_sound false = keeps_pure tt

  pub after_shutdown_sound :
      (x : Exit Done) (s : Session Net) → IsSound s.world → LeavesSound (after_shutdown (x, s))
  unfolding after_shutdown finish
  after_shutdown_sound (done a) s h = h
  after_shutdown_sound (fail e) s h = h
  after_shutdown_sound waits s h = h
  after_shutdown_sound deadlock s h = h

  branch_sound : (e : Event) (s : Session Net) → IsSound s.world → LeavesSound (branch e s)
  unfolding branch ◌>>=◌
  branch_sound shutdown s h = after_shutdown_sound _ _ (
      (keeps_then (change_peer (λ p. record p { shutdown_permit = false })) _
          (record { at = λ w k. k }) (to_state closed)).at
        s.world h)
  branch_sound (frame m) s h = after_message_sound _ _ ((dispatch_sound m).at s.world h)
  branch_sound frame_error s h = reset_sound.at s.world h
  branch_sound end_of_stream s h = reset_sound.at s.world h
  branch_sound (outbound io_ok) s h = write_message_sound io_ok s.world.peer.tx_queue s h.2 h
  branch_sound interval_tick s h = (interval_sound _).at s.world h
  branch_sound timeout s h = reset_sound.at s.world h

  -- From a world in which both route tables are tidy and neither channel holds more than it can:
  -- whatever branch of the `select!` completes, with whatever message, and however its handler ends,
  -- that is still so.
  pub step-IsSound :
      (e : Event) (polled : Bool) (s : Session Net)
      → IsSound s.world
      → LeavesSound (step e polled s)
  unfolding step
  step-IsSound e polled s h = branch_sound e _ h

  say_hello_sound : Safe say_hello
  unfolding say_hello send_hello
  say_hello_sound =
      keeps_bind _ _ (keeps_reading _ IsSound-stable.read IsSound-stable.end_read)
        λ b. keeps_bind _ _ (keeps_gets _) λ k. IsSound-stable.send _ tt
