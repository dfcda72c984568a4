-- ===== src/Service/Agree.antt =====
-- Each event on the server beside the same event on the hall that the server keeps.
use multithreaded_chat_appli.Base.{
  Bool-cases, List, Option-cases, [], arith, inl, inr, length, ltb, none, pick, refl, some, sym, ℕ,
  ◌++◌, ◌+◌, ◌<◌, ◌∙◌, ◌≡◌,
}
use mathlib.Core.Path.{subst}
use multithreaded_chat_appli.Queue.{Addr, q_append, q_pop}
use multithreaded_chat_appli.Queue.Inv.{contents}
use multithreaded_chat_appli.Queue.Inv.{IsValid as IsQueue}
use multithreaded_chat_appli.Queue.Refine.{
  put_entry, get_entry, received, q_append_refines, q_pop_refines, q_append-IsValid, q_pop-IsValid,
}
use multithreaded_chat_appli.Cmd.{Command, command_handler}
use multithreaded_chat_appli.ClientList.Chain.{Item}
use multithreaded_chat_appli.Server.{Packet, execute}
use multithreaded_chat_appli.Server.Valid.{IsValid}
use multithreaded_chat_appli.Room.{respond, look_round}
use multithreaded_chat_appli.Room.Handlers.{room_of, Shows, execute_shown}
use multithreaded_chat_appli.Queue.{Queue, queue_max}
use multithreaded_chat_appli.ClientList.Refine.{no_clients-Represents}
use multithreaded_chat_appli.Queue.Inv.{queue_init-IsValid}
use multithreaded_chat_appli.Service.{
  boot, Service, Turn, blocked, crashed, done, client_request, listener, queue_manager, run_thread,
  check_round, started, Event, listens, manages, runs, checks, turn,
}
use multithreaded_chat_appli.Service.Hall.{
  Hall, HallTurn, hears, takes_up, answers, looks, hall_turn,
}
use multithreaded_chat_appli.Pool.{max_threads, worker_thread_checkin, worker_thread_checkout}
use multithreaded_chat_appli.Service.Rounds.{mark_shown, look_shown}

-- What the parts keep between events.
pub record IsReady (v : Service) (xs : List Item) : Type 0 where
  pub queue : IsQueue v.task_queue
  pub pool : v.active_worker < max_threads
  pub server : IsValid v.server xs

-- A booted server is in order.
pub boot-IsReady : (memory : Queue) → length memory.cells ≡ queue_max → IsReady (boot memory) []
boot-IsReady memory h = record {
  queue = queue_init-IsValid memory h;
  pool = omega arith;
  server = record { linked = no_clients-Represents; room = omega arith };
}

-- The hall that a server keeps.
abbrev pub hall_of : Service → List Item → Hall
hall_of v xs = record {
  waiting = contents v.task_queue;
  threads = v.threads;
  room = room_of v.server xs;
}

abbrev pub Agrees : Turn → HallTurn → Type 0
Agrees t HallTurn.blocked = t ≡ blocked
Agrees t HallTurn.crashed = t ≡ crashed
Agrees t (HallTurn.done h packets) =
    (v' : Service) × (xs' : List Item) × (t ≡ done v' packets)
    × IsReady v' xs'
    × (hall_of v' xs' ≡ h)

Agrees-blocked : (t : Turn) (h : HallTurn) → t ≡ blocked → h ≡ HallTurn.blocked → Agrees t h
Agrees-blocked t h e e' = subst (Agrees t) (sym e') e

Agrees-crashed : (t : Turn) (h : HallTurn) → t ≡ crashed → h ≡ HallTurn.crashed → Agrees t h
Agrees-crashed t h e e' = subst (Agrees t) (sym e') e

Agrees-done :
    (t : Turn) (h : HallTurn) (v' : Service) (xs' : List Item) (packets : List Packet)
    → t ≡ done v' packets
    → IsReady v' xs'
    → h ≡ HallTurn.done (hall_of v' xs') packets
    → Agrees t h
Agrees-done t h v' xs' packets e r e' = subst (Agrees t) (sym e') (v', xs', e, r, refl)

checks_in : (a : ℕ) → a < max_threads → worker_thread_checkin a ≡ some (a + 1)
unfolding worker_thread_checkin
checks_in a h = ground arith

checks_out : (a : ℕ) → a < max_threads → worker_thread_checkout (a + 1) < max_threads
unfolding worker_thread_checkout
checks_out a h = omega (arith, h)

module _ (v : Service) (xs : List Item) (r : IsReady v xs) where
  listener-Agrees :
      (datagram stack : List ℕ) (addr : Addr)
      → Agrees (listener v datagram stack addr) (hears (hall_of v xs) datagram stack addr)
  unfolding listener
  listener-Agrees datagram stack addr =
      let turned = listener v datagram stack addr in
      let heard = hears (hall_of v xs) datagram stack addr in
      let request = client_request datagram stack in
      elim (Bool-cases (ltb 0 (length datagram))) [
        | inr empty ↦ Agrees-done turned heard v xs [] (rw (empty, listener)) r (rw (empty, hears))
        | inl some_bytes ↦ elim (Option-cases (q_append v.task_queue request (some addr))) [
          | inl e ↦
              let e' : put_entry (contents v.task_queue) request (some addr) ≡ none =
                sym (q_append_refines v.task_queue request (some addr) r.queue) ∙ rw e in
              Agrees-blocked turned heard (rw (some_bytes, listener) (rw e))
                (rw (some_bytes, hears) (rw e'))
          | inr (q, e) ↦
              let e' : put_entry (contents v.task_queue) request (some addr) ≡ some (contents q) =
                sym (q_append_refines v.task_queue request (some addr) r.queue) ∙ rw e in
              Agrees-done turned heard (record v { task_queue = q }) xs []
                (rw (some_bytes, listener) (rw e))
                (record {
                  queue = q_append-IsValid v.task_queue request (some addr) r.queue e;
                  pool = r.pool;
                  server = r.server;
                })
                (rw (some_bytes, hears) (rw e'))
        ]
      ]

  queue_manager-Agrees :
      (uninitialised : Command) (now : ℕ)
      → Agrees (queue_manager v uninitialised now) (takes_up (hall_of v xs) uninitialised now)
  unfolding queue_manager
  queue_manager-Agrees uninitialised now =
      let turned = queue_manager v uninitialised now in
      let taken = takes_up (hall_of v xs) uninitialised now in
      elim (Option-cases (q_pop v.task_queue)) [
        | inl e ↦
            let e' : get_entry (contents v.task_queue) ≡ none =
              sym (q_pop_refines v.task_queue r.queue) ∙ rw e in
            Agrees-blocked turned taken (rw (e, queue_manager)) (rw (e', takes_up))
        | inr (p, e) ↦
            let e' : get_entry (contents v.task_queue) ≡ some (received p) =
              sym (q_pop_refines v.task_queue r.queue) ∙ rw e in
            let command = command_handler uninitialised (received p).0 in
            let (s', xs', marked, v', shown) =
              mark_shown v.server xs command p.sender now r.server in
            Agrees-done turned taken
              (record {
                task_queue = p.queue;
                active_worker = worker_thread_checkout (v.active_worker + 1);
                threads = v.threads ++ started command p.sender;
                server = s';
              })
              xs' [] (rw (e, queue_manager) (rw (checks_in v.active_worker r.pool) (rw marked)))
              (record {
                queue = q_pop-IsValid v.task_queue r.queue e;
                pool = checks_out v.active_worker r.pool;
                server = v';
              })
              (rw (e', takes_up) (rw shown))
      ]

  run_thread-Agrees : (i now : ℕ) → Agrees (run_thread v i now) (answers (hall_of v xs) i now)
  unfolding run_thread
  run_thread-Agrees i now =
      let turned = run_thread v i now in
      let answered = answers (hall_of v xs) i now in
      elim (Option-cases (pick i v.threads)) [
        | inl e ↦ Agrees-blocked turned answered (rw (e, run_thread)) (rw (e, answers))
        | inr ((t, others), e) ↦
            let shown = execute_shown v.server xs r.server t.0 t.1 t.0.kind now in
            elim (Option-cases (respond (room_of v.server xs) t.0 t.0.kind t.1 now)) [
              | inl e' ↦
                  let crash_too : execute v.server t.0 t.0.kind t.1 now ≡ none =
                    subst (Shows (execute v.server t.0 t.0.kind t.1 now)) e' shown in
                  Agrees-crashed turned answered (rw (e, run_thread) (rw crash_too))
                    (rw (e, answers) (rw e'))
              | inr ((room, packets), e') ↦
                  let (s', xs', ran, v', same_room) =
                    subst (Shows (execute v.server t.0 t.0.kind t.1 now)) e' shown in
                  Agrees-done turned answered (record v { threads = others; server = s' }) xs'
                    packets (rw (e, run_thread) (rw ran))
                    (record { queue = r.queue; pool = r.pool; server = v' })
                    (rw (e, answers) (rw e' (rw same_room)))
            ]
      ]

  check_round-Agrees : (now : ℕ) → Agrees (check_round v now) (looks (hall_of v xs) now)
  unfolding check_round
  check_round-Agrees now =
      let (l', xs', looked, v', shown) = look_shown v.server xs now r.server in
      Agrees-done (check_round v now) (looks (hall_of v xs) now)
        (record v { server = record v.server { clients = l' } }) xs'
        (look_round (room_of v.server xs) now).1 (rw (looked, check_round))
        (record { queue = r.queue; pool = r.pool; server = v' }) (rw (← shown) refl)

  pub turn-Agrees : (e : Event) → Agrees (turn v e) (hall_turn (hall_of v xs) e)
  unfolding turn hall_turn
  turn-Agrees (listens datagram stack addr) = listener-Agrees datagram stack addr
  turn-Agrees (manages uninitialised now) = queue_manager-Agrees uninitialised now
  turn-Agrees (runs i now) = run_thread-Agrees i now
  turn-Agrees (checks now) = check_round-Agrees now
