-- ===== src/Peer/Quiet.antt =====
-- A session of peer.rs that is not established, and has no KEEPALIVE waiting or sent, stays so until
-- it receives a KEEPALIVE.
use metalbond_rs.Types.{
  Ipnet, InternalUpdate, ConnectionState, connecting, hello_sent, hello_received, established,
  closed, connection_state_eq,
}
use metalbond_rs.Wire.{Prost}
use metalbond_rs.Codec.{GeneratedMessage, encode}
use metalbond_rs.State.{peer_tx_buffer_size, route_update_buffer_size}
use metalbond_rs.State.Actions.{
  done, fail, waits, deadlock, Exit, World, M, Done, pure, ◌>>=◌, change_peer, lock_read, drop_read,
  lock_write, drop_write, send_route_update,
}
use metalbond_rs.Peer.{
  send_message, trigger_shutdown, put_state, set_remote_server, change_remote_subs, take_routes,
  drop_subscriber, set_state,
}
use metalbond_rs.Peer.Handlers.{add_subscriber, remove_subscriber, record_route, forget_route}
use metalbond_rs.Peer.Keeps.{Keeps, keeps_then}
use metalbond_rs.Peer.Stable.{
  Stable, set_state_keeps, process_hello_keeps, process_subscribe_keeps, process_unsubscribe_keeps,
  process_update_keeps,
}
use metalbond_rs.Peer.Sound.{if_rule}
use metalbond_rs.Peer.Session.{
  Session, Event, shutdown, frame, frame_error, end_of_stream, outbound, interval_tick, timeout,
  run, reset, dispatch, start_timers, start_timers_if, send_interval_keepalive, after_message,
  after_write, after_shutdown, finish, write_message, branch, step,
}
use metalbond_rs.Common.{
  ℕ, Bool, true, false, not, ◌||◌, Option, none, some, List, [], ◌∷◌, ◌++◌, length, leb, ltb, ◌==◌,
  ◌≡◌, refl, arith, ==_false,
}

abbrev pub is_keepalive : GeneratedMessage → Bool
is_keepalive GeneratedMessage.keepalive = true
is_keepalive _ = false

-- Whether a KEEPALIVE is among the messages.
abbrev pub carries_keepalive : List GeneratedMessage → Bool
carries_keepalive [] = false
carries_keepalive (m ∷ ms) = is_keepalive m || carries_keepalive ms

pub carries-append :
    (xs ys : List GeneratedMessage)
    → carries_keepalive (xs ++ ys) ≡ (carries_keepalive xs || carries_keepalive ys)
carries-append [] ys = refl
carries-append (x ∷ xs) ys = ground (arith, carries-append xs ys)

pub not_closed : (closed == established) ≡ false
not_closed = ==_false closed established (λ p. cc)

pub not_connecting : (connecting == established) ≡ false
not_connecting = ==_false connecting established (λ p. cc)

pub not_hello_sent : (hello_sent == established) ≡ false
not_hello_sent = ==_false hello_sent established (λ p. cc)

pub not_hello_received : (hello_received == established) ≡ false
not_hello_received = ==_false hello_received established (λ p. cc)

-- Whether the event hands over a KEEPALIVE.
abbrev pub brings_keepalive : Event → Bool
brings_keepalive (frame m) = is_keepalive m
brings_keepalive _ = false

module _ {Net : Type 0} ⦃i : Ipnet Net⦄ ⦃prost : Prost⦄ where
  abbrev pub IsQuiet : World Net → Type 0
  IsQuiet w = ((w.peer.state == established) ≡ false) × (carries_keepalive w.peer.tx_queue ≡ false)

  abbrev pub Quiet : M Net Done → Type 0
  Quiet m = Keeps {Net = Net} IsQuiet m

  send-Quiet : (m : GeneratedMessage) → is_keepalive m ≡ false → Quiet (send_message m)
  unfolding send_message
  send-Quiet m q = record {
    at = λ w h.
        if_rule IsQuiet (not w.peer.tx_open) _ _ (λ _. h)
          λ _.
            if_rule IsQuiet (leb peer_tx_buffer_size (length w.peer.tx_queue)) _ _ (λ _. h)
              λ room. (h.0, ground (arith, carries-append w.peer.tx_queue (m ∷ [])));
  }

  announce-Quiet : (u : InternalUpdate Net) → Quiet (send_route_update u)
  unfolding send_route_update
  announce-Quiet u = record {
    at = λ w h.
        if_rule IsQuiet (not w.mb.route_updates_open) _ _ (λ _. h)
          λ _.
            if_rule IsQuiet (leb route_update_buffer_size (length w.mb.route_updates)) _ _ (λ _. h)
              (λ _. h);
  }

  -- Any message but a KEEPALIVE may be sent, and any state but the established one entered.
  pub IsQuiet-stable :
      Stable IsQuiet (λ m. is_keepalive m ≡ false) (λ s. (s == established) ≡ false)
  unfolding put_state trigger_shutdown set_remote_server change_remote_subs lock_read drop_read
      lock_write drop_write take_routes drop_subscriber add_subscriber remove_subscriber
      record_route forget_route ◌>>=◌
  IsQuiet-stable = record {
    send = send-Quiet;
    put = λ s q. record { at = λ w h. (q, h.1) };
    trigger = record { at = λ w h. h };
    remote_server = λ b. record { at = λ w h. h };
    remote_subs = λ f. record { at = λ w h. h };
    read = record { at = λ w h. if_rule IsQuiet w.writer _ _ (λ _. h) (λ _. h) };
    end_read = record { at = λ w h. h };
    write = record {
      at = λ w h. if_rule IsQuiet (w.writer || ltb 0 w.readers) _ _ (λ _. h) (λ _. h);
    };
    end_write = record { at = λ w h. h };
    announce = announce-Quiet;
    take = λ a. record { at = λ w h. h };
    drop = λ a v. record { at = λ w h. h };
    join = λ a v. record { at = λ w h. h };
    part = λ a v. record { at = λ w h. h };
    learned = λ a v d n. record { at = λ w h. h };
    forgot = λ a v d n. record { at = λ w h. h };
  }

  pub to_state : (s : ConnectionState) → (s == established) ≡ false → Quiet (set_state s)
  to_state s q = set_state_keeps IsQuiet-stable (λ _. refl) (λ _. refl) s q

  reset-Quiet : Quiet reset
  unfolding reset
  reset-Quiet = keeps_then _ _ (to_state closed not_closed) IsQuiet-stable.trigger

  dispatch-Quiet : (m : GeneratedMessage) → is_keepalive m ≡ false → Quiet (dispatch m)
  unfolding dispatch
  dispatch-Quiet (GeneratedMessage.hello h) q =
      process_hello_keeps IsQuiet-stable (λ _. refl) (λ _. refl) (λ _. refl) not_hello_sent
        not_hello_received h
  dispatch-Quiet GeneratedMessage.keepalive q = absurd (cc)
  dispatch-Quiet (GeneratedMessage.subscribe s) q =
      process_subscribe_keeps IsQuiet-stable (λ _. refl) (λ _. refl) s
  dispatch-Quiet (GeneratedMessage.unsubscribe s) q = process_unsubscribe_keeps IsQuiet-stable s
  dispatch-Quiet (GeneratedMessage.update u) q = process_update_keeps IsQuiet-stable u

  -- A quiet session: nor is a KEEPALIVE among the messages that it has written to its stream.
  abbrev pub IsQuietSession : Session Net → Type 0
  IsQuietSession s = IsQuiet s.world × (carries_keepalive s.sent ≡ false)

  abbrev pub LeavesQuiet : Exit Done × Session Net → Type 0
  LeavesQuiet r = IsQuietSession r.1

  after_message_quiet :
      (x : Exit Done) (s : Session Net) → IsQuietSession s → LeavesQuiet (after_message (x, s))
  unfolding after_message start_timers start_timers_if
  after_message_quiet (done _) s h = rw (h.0.0, start_timers_if) h
  after_message_quiet (fail e) s h = (reset-Quiet.at s.world h.0, h.1)
  after_message_quiet waits s h = h
  after_message_quiet deadlock s h = h

  after_write_quiet :
      (bytes : Option (List ℕ)) (io_ok : Bool) (m : GeneratedMessage) (s : Session Net)
      → is_keepalive m ≡ false
      → IsQuietSession s
      → LeavesQuiet (after_write bytes io_ok m s)
  unfolding after_write
  after_write_quiet none io_ok m s q h = (reset-Quiet.at s.world h.0, h.1)
  after_write_quiet (some bytes) true m s q h =
      (h.0, ground (arith, carries-append s.sent (m ∷ [])))
  after_write_quiet (some bytes) false m s q h = (reset-Quiet.at s.world h.0, h.1)

  write_message_quiet :
      (io_ok : Bool) (queue : List GeneratedMessage) (s : Session Net)
      → carries_keepalive queue ≡ false
      → IsQuietSession s
      → LeavesQuiet (write_message io_ok queue s)
  unfolding write_message
  write_message_quiet io_ok [] s q h = h
  write_message_quiet io_ok (m ∷ rest) s q h =
      after_write_quiet (encode m []) io_ok m _ (ground arith) ((h.0.0, ground arith), h.1)

  interval_quiet :
      (b : Bool) (s : Session Net)
      → b ≡ false
      → IsQuietSession s
      → LeavesQuiet (run (send_interval_keepalive b) s)
  unfolding send_interval_keepalive pure
  interval_quiet true s q h = absurd (cc)
  interval_quiet false s q h = h

  pub after_shutdown_quiet :
      (x : Exit Done) (s : Session Net) → IsQuietSession s → LeavesQuiet (after_shutdown (x, s))
  unfolding after_shutdown finish
  after_shutdown_quiet (done a) s h = h
  after_shutdown_quiet (fail e) s h = h
  after_shutdown_quiet waits s h = h
  after_shutdown_quiet deadlock s h = h

  branch_quiet :
      (e : Event) (s : Session Net)
      → brings_keepalive e ≡ false
      → IsQuietSession s
      → LeavesQuiet (branch e s)
  unfolding branch ◌>>=◌
  branch_quiet shutdown s q h = after_shutdown_quiet _ _ (
    (keeps_then (change_peer (λ p. record p { shutdown_permit = false })) _
          (record { at = λ w k. k }) (to_state closed not_closed)).at
        s.world h.0,
    h.1,
  )
  branch_quiet (frame m) s q h = after_message_quiet _ _ ((dispatch-Quiet m q).at s.world h.0, h.1)
  branch_quiet frame_error s q h = (reset-Quiet.at s.world h.0, h.1)
  branch_quiet end_of_stream s q h = (reset-Quiet.at s.world h.0, h.1)
  branch_quiet (outbound io_ok) s q h = write_message_quiet io_ok s.world.peer.tx_queue s h.0.1 h
  branch_quiet interval_tick s q h = interval_quiet _ s (ground (arith, h.0.0)) h
  branch_quiet timeout s q h = (reset-Quiet.at s.world h.0, h.1)

  -- A session that is not established, and has no KEEPALIVE in its channel or on its stream, is left
  -- so by every round that does not receive a KEEPALIVE.
  pub step-IsQuietSession :
      (e : Event) (polled : Bool) (s : Session Net)
      → brings_keepalive e ≡ false
      → IsQuietSession s
      → LeavesQuiet (step e polled s)
  unfolding step
  step-IsQuietSession e polled s q h = branch_quiet e _ q h
