-- ===== src/Startup/Client.antt =====
-- client_types.h, client_interface.c: what the client's `main` and its queue manager hand to the
-- threads that they start.
use multithreaded_chat_appli.Base.{List, [], ◌∷◌}
use multithreaded_chat_appli.Startup.{Ptr}

-- `cli_listener_args_t`
pub record CliListenerArgs : Type 0 where
  pub client : Ptr
  pub task_queue : Ptr

unfoldable pub setup_cli_listner_args : CliListenerArgs → Ptr → Ptr → CliListenerArgs
setup_cli_listner_args args client task_queue = record args {
  client = client;
  task_queue = task_queue;
}

-- `chat_display_args_t`
pub record ChatDisplayArgs : Type 0 where
  pub client : Ptr
  pub messages : Ptr
  pub message_count : Ptr
  pub messages_mutex : Ptr
  pub messages_cond : Ptr

unfoldable pub setup_chat_display_args :
    ChatDisplayArgs → Ptr → Ptr → Ptr → Ptr → Ptr → ChatDisplayArgs
setup_chat_display_args args client messages message_count message_mutex message_update_cond =
    record args {
      client = client;
      messages = messages;
      message_count = message_count;
      messages_mutex = message_mutex;
      messages_cond = message_update_cond;
    }

-- `user_input_args_t`
pub record UserInputArgs : Type 0 where
  pub client : Ptr

unfoldable pub setup_user_input_args : UserInputArgs → Ptr → UserInputArgs
setup_user_input_args args client = record args { client = client }

-- `cli_queue_manager_args_t`
pub record CliQueueManagerArgs : Type 0 where
  pub client : Ptr
  pub task_queue : Ptr
  pub messages : Ptr
  pub message_count : Ptr
  pub messages_mutex : Ptr
  pub messages_cond : Ptr

unfoldable pub setup_cli_queue_manager_args :
    CliQueueManagerArgs → Ptr → Ptr → Ptr → Ptr → Ptr → Ptr → CliQueueManagerArgs
setup_cli_queue_manager_args args client task_queue messages message_count message_mutex
      message_update_cond =
    record args {
      client = client;
      task_queue = task_queue;
      messages = messages;
      message_count = message_count;
      messages_mutex = message_mutex;
      messages_cond = message_update_cond;
    }

-- `handle_cli_side_cmd_args_t`
pub record HandleCliSideCmdArgs : Type 0 where
  pub client : Ptr
  pub messages : Ptr
  pub message_count : Ptr
  pub messages_mutex : Ptr
  pub messages_cond : Ptr
  pub tokenised_command : Ptr

unfoldable pub setup_handle_cli_side_cmd_args :
    HandleCliSideCmdArgs → Ptr → Ptr → Ptr → Ptr → Ptr → Ptr → HandleCliSideCmdArgs
setup_handle_cli_side_cmd_args args client messages message_count messages_mutex messages_cond
      tokenised_command =
    record args {
      client = client;
      messages = messages;
      message_count = message_count;
      messages_mutex = messages_mutex;
      messages_cond = messages_cond;
      tokenised_command = tokenised_command;
    }

-- The addresses of the variables of `main`.
pub record Frame : Type 0 where
  pub client : Ptr
  pub task_queue : Ptr
  pub messages : Ptr
  pub message_count : Ptr
  pub messages_mutex : Ptr
  pub messages_cond : Ptr

-- A thread that runs, with what it was given.
pub data Thread : Type 0 where
  displays : ChatDisplayArgs → Thread
  reads_before reads_after : UserInputArgs → Thread
  listens : CliListenerArgs → Thread
  manages : CliQueueManagerArgs → Thread
  handles : HandleCliSideCmdArgs → Thread

-- The memory that `malloc` gives for the records of `main`.
pub record Memory : Type 0 where
  pub for_display : ChatDisplayArgs
  pub for_before : UserInputArgs
  pub for_after : UserInputArgs
  pub for_listener : CliListenerArgs
  pub for_manager : CliQueueManagerArgs

-- The threads that `main` starts, in order.
unfoldable pub main_threads : Frame → Memory → List Thread
unfolding setup_chat_display_args setup_user_input_args setup_cli_listner_args
    setup_cli_queue_manager_args
main_threads f m =
    displays (
      setup_chat_display_args m.for_display f.client f.messages f.message_count f.messages_mutex
        f.messages_cond)
    ∷ reads_before (setup_user_input_args m.for_before f.client)
    ∷ reads_after (setup_user_input_args m.for_after f.client)
    ∷ listens (setup_cli_listner_args m.for_listener f.client f.task_queue)
    ∷ manages (
        setup_cli_queue_manager_args m.for_manager f.client f.task_queue f.messages f.message_count
          f.messages_mutex f.messages_cond)
    ∷ []

-- The record of a command's thread, as `cli_queue_manager` fills it; the tokens are its own copy.
unfoldable pub command_thread : CliQueueManagerArgs → HandleCliSideCmdArgs → Ptr → Thread
unfolding setup_handle_cli_side_cmd_args
command_thread qm memory tokenised_command = handles (
    setup_handle_cli_side_cmd_args memory qm.client qm.messages qm.message_count qm.messages_mutex
      qm.messages_cond tokenised_command)
