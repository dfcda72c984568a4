-- ===== src/Client/Node.antt =====
-- client_interface.c: the client's listener and its queue manager, with the threads of the
-- commands that wait to run, as the events of a schedule. A thread runs whole, in any order.
pub mod Safe
pub mod Heard
pub mod Full
use multithreaded_chat_appli.Base.{
  List, Text, [], if◌then◌else◌, length, ltb, map, none, pick, some, ℕ, ◌++◌, ◌∷◌,
}
use multithreaded_chat_appli.Queue.{Queue, deref, q_append, q_pop, queue_init}
use multithreaded_chat_appli.Cmd.{Command}
use multithreaded_chat_appli.Client.{ChatClient, handle_cli_side_cmd, setup_client}
use multithreaded_chat_appli.Service.{client_request}

-- The queue, the copied tokens of each thread that is created and has not run yet, and the client.
pub record ClientNode : Type 0 where
  pub task_queue : Queue
  pub threads : List (List Text)
  pub client : ChatClient

pub data Turn : Type 0 where
  blocked crashed : Turn
  done : ClientNode → Turn

-- One round of `cli_listener`: the datagram lies over what the stack held before.
unfoldable pub cli_listener : ClientNode → List ℕ → List ℕ → Turn
cli_listener n datagram stack =
    if ltb 0 (length datagram)
    then elim (q_append n.task_queue (client_request datagram stack) none) [
      | none ↦ blocked
      | some q ↦ done (record n { task_queue = q })
    ]
    else done n

-- One round of `cli_queue_manager`: the tokens are copied before the next pop.
unfoldable pub cli_queue_manager : ClientNode → Turn
cli_queue_manager n = elim (q_pop n.task_queue) [
  | none ↦ blocked
  | some r ↦
      let tokenised_command = map (deref r.queue) r.out in
      done (record n { task_queue = r.queue; threads = n.threads ++ (tokenised_command ∷ []) })
]

-- A thread runs; `cmd` is its local variable before the parser fills it.
unfoldable pub run_thread : ClientNode → ℕ → Command → Turn
run_thread n i cmd = elim (pick i n.threads) [
  | none ↦ blocked
  | some (tokens, others) ↦ elim (handle_cli_side_cmd n.client cmd tokens) [
    | none ↦ crashed
    | some client ↦ done (record n { threads = others; client = client })
  ]
]

pub data Event : Type 0 where
  listens : List ℕ → List ℕ → Event
  manages : Event
  runs : ℕ → Command → Event

unfoldable pub turn : ClientNode → Event → Turn
turn n (listens datagram stack) = cli_listener n datagram stack
turn n manages = cli_queue_manager n
turn n (runs i cmd) = run_thread n i cmd

-- `main`: `name` is what the memory of the client's name holds.
abbrev pub boot : Queue → Text → ClientNode
boot memory name = record {
  task_queue = queue_init memory;
  threads = [];
  client = setup_client name;
}
