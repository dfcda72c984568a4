-- ===== src/Startup.antt =====
-- server_types.h, server_interface.c: what the server's `main` and its threads hand to the threads
-- that they start. A pointer is an address; what stands at it is in the other modules' states. A
-- record comes from `malloc`, so a setup gets what its memory held.
pub mod Client
use multithreaded_chat_appli.Base.{List, [], ℕ, ◌∷◌}
use multithreaded_chat_appli.Sockets.{ℤ}

abbrev pub Ptr : Type 0
Ptr = ℕ

-- `execute_command_args_t`
pub record CommandArgs : Type 0 where
  pub sd : ℤ
  pub command : Ptr
  pub from_addr : Ptr
  pub head : Ptr
  pub tail : Ptr
  pub client_list : Ptr
  pub chat_history : Ptr
  pub chat_historyc : Ptr

unfoldable pub setup_command_args :
    CommandArgs → ℤ → Ptr → Ptr → Ptr → Ptr → Ptr → Ptr → Ptr → CommandArgs
setup_command_args args sd command from_addr head tail client_list chat_history chat_historyc =
    record args {
      sd = sd;
      command = command;
      from_addr = from_addr;
      head = head;
      tail = tail;
      client_list = client_list;
      chat_history = chat_history;
      chat_historyc = chat_historyc;
    }

-- `listener_args_t`
pub record ListenerArgs : Type 0 where
  pub sd : ℤ
  pub task_queue : Ptr

unfoldable pub setup_listener_args : ListenerArgs → ℤ → Ptr → ListenerArgs
setup_listener_args args sd q = record args { sd = sd; task_queue = q }

-- `queue_manager_args_t`, without the lock and the condition variable of the pool, which are its own
pub record QueueManagerArgs : Type 0 where
  pub task_queue : Ptr
  pub sd : ℤ
  pub head : Ptr
  pub tail : Ptr
  pub client_list : Ptr
  pub active_worker : ℕ

unfoldable pub setup_queue_manager_args :
    QueueManagerArgs → Ptr → ℤ → Ptr → Ptr → Ptr → QueueManagerArgs
setup_queue_manager_args args q sd head tail client_list = record args {
  task_queue = q;
  sd = sd;
  head = head;
  tail = tail;
  client_list = client_list;
  active_worker = 0;
}

-- `connection_manager_args_t`, likewise
pub record ConnectionManagerArgs : Type 0 where
  pub sd : ℤ
  pub head : Ptr
  pub tail : Ptr
  pub client_list : Ptr
  pub active_worker : ℕ

unfoldable pub setup_connection_manager_args :
    ConnectionManagerArgs → ℤ → Ptr → Ptr → Ptr → ConnectionManagerArgs
setup_connection_manager_args args sd head tail client_list = record args {
  sd = sd;
  head = head;
  tail = tail;
  client_list = client_list;
  active_worker = 0;
}

-- The variables of `main`: `sd`, and the addresses of the others; `client_list` is the lock's.
pub record Frame : Type 0 where
  pub sd : ℤ
  pub head : Ptr
  pub tail : Ptr
  pub task_queue : Ptr
  pub client_list : Ptr

-- A thread that runs, with what it was given.
pub data Thread : Type 0 where
  listens : ListenerArgs → Thread
  manages : QueueManagerArgs → Thread
  checks : ConnectionManagerArgs → Thread
  executes : CommandArgs → Thread

-- The memory that `malloc` gives for the records of `main`.
pub record Memory : Type 0 where
  pub for_listener : ListenerArgs
  pub for_manager : QueueManagerArgs
  pub for_checks : ConnectionManagerArgs

-- The threads that `main` starts, in order.
unfoldable pub main_threads : Frame → Memory → List Thread
unfolding setup_listener_args setup_queue_manager_args setup_connection_manager_args
main_threads f m =
    listens (setup_listener_args m.for_listener f.sd f.task_queue)
    ∷ manages (setup_queue_manager_args m.for_manager f.task_queue f.sd f.head f.tail f.client_list)
    ∷ checks (setup_connection_manager_args m.for_checks f.sd f.head f.tail f.client_list)
    ∷ []

-- The history of a queue manager: its array and the count.
pub record History : Type 0 where
  pub chat_history : Ptr
  pub chat_historyc : Ptr

-- The record of a command's thread, as `queue_manager` calls `spawn_execute_command_threads`.
unfoldable pub command_thread : QueueManagerArgs → History → CommandArgs → Ptr → Ptr → Thread
unfolding setup_command_args
command_thread qm h memory command from_addr = executes (
    setup_command_args memory qm.sd command from_addr qm.head qm.tail qm.client_list h.chat_history
      h.chat_historyc)
