-- ===== src/MetalBond/Shutdown.antt =====
-- `start` and `shutdown` of metalbond.rs: the tasks that an instance spawns, and the waits of its end.
-- `notify_waiters` wakes the tasks that wait for the signal at this moment and no other; each task
-- asks for the signal anew in every round of its `select!`. `shutdown` waits where it needs the lock of
-- the shared state and other tasks leave it no room; this changes at any time, or never. What a round of
-- a task needs is left out, so a round may end at any time.
use metalbond_rs.Common.{◌≡◌, ◌≢◌, sym, subst, ◌⊎◌, inl, inr}

-- A task that was not spawned, waits in its `select!`, is in a branch of it (or has not reached it
-- yet), or has returned.
pub data Task : Type 0 where
  absent waiting busy ended : Task

-- Where `shutdown` is.
pub data Phase : Type 0 where
  running notified joining_listener joining_manager : Phase
  aborting_peers signalling_peers waiting_for_peers : Phase
  joining_distributor complete : Phase

-- What the other tasks leave of the lock of the shared state: every guard, a read guard, or none.
pub data Room : Type 0 where
  for_writer for_reader no_room : Room

-- The tasks behind the handles, `shutdown`, and the lock. The guard of `shutdown` itself is told by its
-- phase: the write guard of the listener's handle lives until the listener is joined.
pub record Instance : Type 0 where
  pub listener : Task
  pub manager : Task
  pub distributor : Task
  pub phase : Phase
  pub room : Room

-- What `notify_waiters` does to a task.
abbrev pub woken : Task → Task
woken waiting = ended
woken task = task

-- The instance right after the notification.
abbrev pub after_notify : Instance → Instance
after_notify s = record {
  listener = woken s.listener;
  manager = woken s.manager;
  distributor = woken s.distributor;
  phase = notified;
  room = s.room;
}

-- A handle that is `None` or whose task has returned.
abbrev pub IsJoined : Task → Type 0
IsJoined absent = Unit
IsJoined ended = Unit
IsJoined task = ⊥

-- After `start`: the distributor and the connection manager are spawned.
abbrev pub started : Task → Instance
started listener = record {
  listener = listener;
  manager = busy;
  distributor = busy;
  phase = running;
  room = for_writer;
}

-- Whether `state.read()` and `state.write()` give their guard.
abbrev pub IsReadable : Room → Type 0
IsReadable no_room = ⊥
IsReadable room = Unit

abbrev pub IsWritable : Room → Type 0
IsWritable for_writer = Unit
IsWritable room = ⊥

-- The calls and awaits of `shutdown` one after the other, and the rounds of the tasks.
pub data Step : Instance → Instance → Type 0 where
  notify : (s : Instance) → s.phase ≡ running → IsReadable s.room → Step s (after_notify s)
  take_listener :
      (s : Instance)
      → s.phase ≡ notified
      → IsWritable s.room
      → Step s (record s { phase = joining_listener })
  join_listener :
      (s : Instance)
      → s.phase ≡ joining_listener
      → IsJoined s.listener
      → Step s (record s { phase = joining_manager })
  join_manager :
      (s : Instance)
      → s.phase ≡ joining_manager
      → IsJoined s.manager
      → Step s (record s { phase = aborting_peers })
  -- The tasks of the peers end when they are aborted.
  abort_peers :
      (s : Instance)
      → s.phase ≡ aborting_peers
      → IsWritable s.room
      → Step s (record s { phase = signalling_peers })
  signal_peers :
      (s : Instance)
      → s.phase ≡ signalling_peers
      → IsReadable s.room
      → Step s (record s { phase = waiting_for_peers })
  -- Peers are left and the deadline is not over.
  wait_for_peers : (s : Instance) → s.phase ≡ waiting_for_peers → IsReadable s.room → Step s s
  -- The peers are gone or the deadline has passed.
  leave_peers :
      (s : Instance)
      → s.phase ≡ waiting_for_peers
      → IsReadable s.room
      → Step s (record s { phase = joining_distributor })
  join_distributor :
      (s : Instance)
      → s.phase ≡ joining_distributor
      → IsJoined s.distributor
      → Step s (record s { phase = complete })
  listener_busy : (s : Instance) → s.listener ≡ waiting → Step s (record s { listener = busy })
  listener_waits : (s : Instance) → s.listener ≡ busy → Step s (record s { listener = waiting })
  manager_busy : (s : Instance) → s.manager ≡ waiting → Step s (record s { manager = busy })
  manager_waits : (s : Instance) → s.manager ≡ busy → Step s (record s { manager = waiting })
  distributor_busy :
      (s : Instance) → s.distributor ≡ waiting → Step s (record s { distributor = busy })
  distributor_waits :
      (s : Instance) → s.distributor ≡ busy → Step s (record s { distributor = waiting })
  -- Other tasks take guards and drop them, unless `shutdown` has the write guard.
  others_lock :
      (s : Instance) (r : Room) → s.phase ≢ joining_listener → Step s (record s { room = r })

-- Any number of steps.
pub data Reaches : Instance → Instance → Type 0 where
  here : (s : Instance) → Reaches s s
  step : (s t u : Instance) → Step s t → Reaches t u → Reaches s u

-- A task that lives, whether it waits or not.
abbrev pub IsAlive : Task → Type 0
IsAlive waiting = Unit
IsAlive busy = Unit
IsAlive task = ⊥

-- Behind the notification and not yet past the wait for the listener.
abbrev BeforeJoin : Phase → Type 0
BeforeJoin notified = Unit
BeforeJoin joining_listener = Unit
BeforeJoin phase = ⊥

-- Behind the notification and not complete.
abbrev IsPending : Phase → Type 0
IsPending running = ⊥
IsPending complete = ⊥
IsPending phase = Unit

-- The notification is past, and a task that `shutdown` is still to join lives.
abbrev pub IsMissed : Instance → Type 0
IsMissed s = (IsAlive s.listener × BeforeJoin s.phase) ⊎ (IsAlive s.distributor × IsPending s.phase)

alive_not_joined : (task : Task) → IsAlive task → IsJoined task → ⊥
alive_not_joined waiting a j = j
alive_not_joined busy a j = j
alive_not_joined absent a j = a
alive_not_joined ended a j = a

-- No step ends a task behind the notification.
step-IsMissed : (s t : Instance) → Step s t → IsMissed s → IsMissed t
step-IsMissed _ _ (notify s e l) (inl (a, b)) = absurd (subst BeforeJoin e b)
step-IsMissed _ _ (notify s e l) (inr (a, b)) = absurd (subst IsPending e b)
step-IsMissed _ _ (take_listener s e l) (inl (a, b)) = inl (a, tt)
step-IsMissed _ _ (take_listener s e l) (inr (a, b)) = inr (a, tt)
step-IsMissed _ _ (join_listener s e j) (inl (a, b)) = absurd (alive_not_joined s.listener a j)
step-IsMissed _ _ (join_listener s e j) (inr (a, b)) = inr (a, tt)
step-IsMissed _ _ (join_manager s e j) (inl (a, b)) = absurd (subst BeforeJoin e b)
step-IsMissed _ _ (join_manager s e j) (inr (a, b)) = inr (a, tt)
step-IsMissed _ _ (abort_peers s e l) (inl (a, b)) = absurd (subst BeforeJoin e b)
step-IsMissed _ _ (abort_peers s e l) (inr (a, b)) = inr (a, tt)
step-IsMissed _ _ (signal_peers s e l) (inl (a, b)) = absurd (subst BeforeJoin e b)
step-IsMissed _ _ (signal_peers s e l) (inr (a, b)) = inr (a, tt)
step-IsMissed _ _ (leave_peers s e l) (inl (a, b)) = absurd (subst BeforeJoin e b)
step-IsMissed _ _ (leave_peers s e l) (inr (a, b)) = inr (a, tt)
step-IsMissed _ _ (wait_for_peers s e l) m = m
step-IsMissed _ _ (join_distributor s e j) (inl (a, b)) = absurd (subst BeforeJoin e b)
step-IsMissed _ _ (join_distributor s e j) (inr (a, b)) =
    absurd (alive_not_joined s.distributor a j)
step-IsMissed _ _ (listener_busy s e) (inl (a, b)) = inl (tt, b)
step-IsMissed _ _ (listener_busy s e) (inr m) = inr m
step-IsMissed _ _ (listener_waits s e) (inl (a, b)) = inl (tt, b)
step-IsMissed _ _ (listener_waits s e) (inr m) = inr m
step-IsMissed _ _ (manager_busy s e) m = m
step-IsMissed _ _ (manager_waits s e) m = m
step-IsMissed _ _ (distributor_busy s e) (inl m) = inl m
step-IsMissed _ _ (distributor_busy s e) (inr (a, b)) = inr (tt, b)
step-IsMissed _ _ (distributor_waits s e) (inl m) = inl m
step-IsMissed _ _ (distributor_waits s e) (inr (a, b)) = inr (tt, b)
step-IsMissed _ _ (others_lock s r free) m = m

reaches-IsMissed : (s t : Instance) → Reaches s t → IsMissed s → IsMissed t
reaches-IsMissed _ _ (here s) m = m
reaches-IsMissed _ _ (step s t u now later) m = reaches-IsMissed t u later (step-IsMissed s t now m)

missed_not_complete : (s : Instance) → IsMissed s → s.phase ≢ complete
missed_not_complete s (inl (a, b)) e = subst BeforeJoin e b
missed_not_complete s (inr (a, b)) e = subst IsPending e b

-- If the listener or the distributor is in a branch of its `select!` when `shutdown` sends its
-- notification, `shutdown` never completes, whatever happens afterwards: the task misses the only
-- notification, and `shutdown` waits for its end.
pub shutdown_never_completes :
    (s t : Instance)
    → (s.listener ≡ busy) ⊎ (s.distributor ≡ busy)
    → Reaches (after_notify s) t
    → t.phase ≢ complete
shutdown_never_completes s t (inl e) r = missed_not_complete t (
    reaches-IsMissed (after_notify s) t r
      (inl (subst (λ task. IsAlive (woken task)) (sym e) tt, tt)))
shutdown_never_completes s t (inr e) r = missed_not_complete t (
    reaches-IsMissed (after_notify s) t r
      (inr (subst (λ task. IsAlive (woken task)) (sym e) tt, tt)))
