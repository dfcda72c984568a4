-- ===== src/Service.antt =====
-- server_interface.c, the server as a whole: its listener, its queue manager, the threads of the
-- commands and its connection manager, as the events of a schedule. An event is one round of a
-- thread's loop, or the run of a command's thread; any order of events may come.
pub mod Hall
pub mod Rounds
pub mod Agree
pub mod Refine
pub mod Crashes
pub mod Reached
pub mod Fine
pub mod Orderly
pub mod Booted
use multithreaded_chat_appli.Base.{
  Bool, List, [], drop, false, if◌then◌else◌, length, ltb, map, none, pick, some, take, true, ℕ,
  ◌++◌, ◌∷◌, ◌≡◌,
}
use multithreaded_chat_appli.Queue.{Addr, Queue, queue_init, deref, q_append, q_pop}
use multithreaded_chat_appli.ClientList.{no_clients}
use multithreaded_chat_appli.Cmd.{
  Kind, conn, say, sayto, mute, unmute, rename, disconn, kick, unknown, Command, command_handler,
}
use multithreaded_chat_appli.Server.{Server, Packet, mark_active, execute}
use multithreaded_chat_appli.Pool.{worker_thread_checkin, worker_thread_checkout}
use multithreaded_chat_appli.Activity.{connection_manager}
use multithreaded_chat_appli.Client.Input.{buffer_size}

-- The queue, the counter of the worker pool, the threads that are created and have not run yet,
-- and what the handlers share.
pub record Service : Type 0 where
  pub task_queue : Queue
  pub active_worker : ℕ
  pub threads : List (Command × Addr)
  pub server : Server

-- How a round ends: it sleeps and changes nothing, the server crashes, the queue manager sleeps at
-- its check-in, where no other thread would wake it, or the round is done.
pub data Turn : Type 0 where
  blocked crashed hung : Turn
  done : Service → List Packet → Turn

-- The buffer of the listener behind a read: the datagram over what the stack held before.
unfoldable pub client_request : List ℕ → List ℕ → List ℕ
client_request datagram stack =
    let received = take buffer_size datagram in received ++ drop (length received) stack

-- One round of `listener`; an empty datagram is passed over.
unfoldable pub listener : Service → List ℕ → List ℕ → Addr → Turn
listener v datagram stack from =
    if ltb 0 (length datagram)
    then elim (q_append v.task_queue (client_request datagram stack) (some from)) [
      | none ↦ blocked
      | some q ↦ done (record v { task_queue = q }) []
    ]
    else done v []

-- The kinds for which `spawn_execute_command_threads` creates a thread.
abbrev pub has_thread : Kind → Bool
has_thread conn = true
has_thread say = true
has_thread sayto = true
has_thread disconn = true
has_thread mute = true
has_thread unmute = true
has_thread rename = true
has_thread kick = true
has_thread unknown = true
has_thread _ = false

-- The thread that the dispatch creates.
abbrev pub started : Command → Addr → List (Command × Addr)
started command from = if has_thread command.kind then (command, from) ∷ [] else []

-- One round of `queue_manager`; `malloc` gives the `uninitialised` command.
unfoldable pub queue_manager : Service → Command → ℕ → Turn
queue_manager v uninitialised now = elim (q_pop v.task_queue) [
  | none ↦ blocked
  | some r ↦
      let command = command_handler uninitialised (map (deref r.queue) r.out) in
      elim (worker_thread_checkin v.active_worker) [
        | none ↦ hung
        | some active ↦ elim (mark_active v.server command r.sender now) [
          | none ↦ crashed
          | some marked ↦
              done
                (record {
                  task_queue = r.queue;
                  active_worker = worker_thread_checkout active;
                  threads = v.threads ++ started command r.sender;
                  server = marked;
                })
                []
        ]
      ]
]

-- A thread that `spawn_execute_command_threads` created runs.
unfoldable pub run_thread : Service → ℕ → ℕ → Turn
run_thread v i now = elim (pick i v.threads) [
  | none ↦ blocked
  | some (t, others) ↦ elim (execute v.server t.0 t.0.kind t.1 now) [
    | none ↦ crashed
    | some (server, packets) ↦ done (record v { threads = others; server = server }) packets
  ]
]

-- One round of `connection_manager`.
unfoldable pub check_round : Service → ℕ → Turn
check_round v now = elim (connection_manager v.server.clients now) [
  | none ↦ crashed
  | some (l, packets) ↦ done (record v { server = record v.server { clients = l } }) packets
]

pub data Event : Type 0 where
  listens : List ℕ → List ℕ → Addr → Event
  manages : Command → ℕ → Event
  runs : ℕ → ℕ → Event
  checks : ℕ → Event

unfoldable pub turn : Service → Event → Turn
turn v (listens datagram stack from) = listener v datagram stack from
turn v (manages uninitialised now) = queue_manager v uninitialised now
turn v (runs i now) = run_thread v i now
turn v (checks now) = check_round v now

-- What the network sees of a schedule: each event's packets, up to a crash or the queue manager's
-- last sleep.
pub data Seen : Type 0 where
  slept crash hang : Seen
  sent : List Packet → Seen

unfoldable pub trace : Service → List Event → List Seen
trace v [] = []
trace v (e ∷ es) = elim (turn v e) [
  | blocked ↦ slept ∷ trace v es
  | crashed ↦ crash ∷ []
  | hung ↦ hang ∷ []
  | done v' packets ↦ sent packets ∷ trace v' es
]

-- `main` and `setup`: the queue is empty, and nobody is there.
abbrev pub boot : Queue → Service
boot memory = record {
  task_queue = queue_init memory;
  active_worker = 0;
  threads = [];
  server = record { clients = no_clients; chat_history = [] };
}

-- The states that a schedule leads to.
pub data Runs (v : Service) : Service → Type 0 where
  stay : Runs v v
  go :
      {u w : Service} {packets : List Packet}
      → Runs v u
      → (e : Event) → turn u e ≡ done w packets
      → Runs v w
