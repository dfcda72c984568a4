-- ===== src/Client.antt =====
-- client_types.h, client_interface.c: the state of a chat client, what it does with a command from
-- the server, the lines that it shows, and what it does with a line of input. The command handlers
-- run under `messages_mutex`: each is one step.
pub mod Valid
pub mod Display
pub mod Screen
pub mod Sender
pub mod Input
pub mod Node
pub mod Program
use multithreaded_chat_appli.Base.{
  Bool, List, Option, Text, [], false, if◌then◌else◌, length, ltb, none, some, text, true, ℕ, ◌++◌,
  ◌>>=◌, ◌∷◌,
}
use multithreaded_chat_appli.Cmd.{
  Kind, conn_success, conn_failed, say, mute, unmute, rename, disconn_response, error, ping,
  Command, name_size,
}
use multithreaded_chat_appli.Cmd.{command_handler}
use multithreaded_chat_appli.HashTable.{
  Table, insert, contains, remove_key, extract_username, empty_table,
}
use multithreaded_chat_appli.Join.{join}
use multithreaded_chat_appli.Server.{max_msgs, arg, snprintf}

-- `client_t`, with the texts that stand in `messages[0]` to `messages[*message_count - 1]`.
pub record ChatClient : Type 0 where
  pub name : Text
  pub connected : Bool
  pub mute_table : Table
  pub messages : List Text

-- `setup_client` leaves the name as it is in memory.
abbrev pub setup_client : Text → ChatClient
setup_client name = record {
  name = name;
  connected = false;
  mute_table = empty_table;
  messages = [];
}

-- `strcpy` into a buffer of that size: `none` for a write past its end.
unfoldable pub strcpy : ℕ → Text → Option Text
strcpy size s = if ltb (length s) size then some s else none

-- `messages` has `max_msgs` slots, and there is no test on `*message_count`: `none` for a write
-- behind the last one.
unfoldable pub say_exec : ChatClient → Command → Option ChatClient
say_exec client command = do
  result ← join command.args
  let stored = λ (c : ChatClient). if ltb (length client.messages) max_msgs then some c else none
  stored (record client { messages = client.messages ++ (result ∷ []) })

unfoldable pub mute_exec : ChatClient → Command → Option ChatClient
mute_exec client command =
    some (record client { mute_table = insert client.mute_table (arg command 0) })

unfoldable pub unmute_exec : ChatClient → Command → Option ChatClient
unmute_exec client command =
    some (record client { mute_table = remove_key client.mute_table (arg command 0) })

unfoldable pub rename_exec : ChatClient → Command → Option ChatClient
rename_exec client command = do
  new_name ← strcpy name_size (arg command 0)
  some (record client { name = new_name })

unfoldable pub execute_connect_response : ChatClient → Command → Option ChatClient
execute_connect_response client command = do
  username ← strcpy name_size (arg command 0)
  some (record client { connected = true; name = username })

unfoldable pub execute_connect_failed : ChatClient → Command → Option ChatClient
execute_connect_failed client command = do error_message ← join command.args; some client

unfoldable pub execute_error_response : ChatClient → Command → Option ChatClient
execute_error_response client command = do error_message ← join command.args; some client

unfoldable pub execute_disconnect_response : ChatClient → ChatClient
execute_disconnect_response client = record client { connected = false; messages = [] }

unfoldable pub execute_server_command : ChatClient → Command → Kind → Option ChatClient
execute_server_command client command conn_success = execute_connect_response client command
execute_server_command client command conn_failed = execute_connect_failed client command
execute_server_command client command disconn_response = some (execute_disconnect_response client)
execute_server_command client command error = execute_error_response client command
execute_server_command client command say = say_exec client command
execute_server_command client command mute = mute_exec client command
execute_server_command client command unmute = unmute_exec client command
execute_server_command client command rename = rename_exec client command
execute_server_command client command _ = some client

-- The thread that a command of the server gets. `uninitialised` is the local `cmd` before the call
-- of `command_handler`.
unfoldable pub handle_cli_side_cmd : ChatClient → Command → List Text → Option ChatClient
handle_cli_side_cmd client uninitialised tokenised_command =
    let cmd = command_handler uninitialised tokenised_command in
    execute_server_command client cmd cmd.kind

-- The loop of `chat_display` over the messages: the lines that it prints.
unfoldable pub lines_shown : Table → List Text → List Text
lines_shown mute_table [] = []
lines_shown mute_table (m ∷ messages) =
    let rest = lines_shown mute_table messages in
    let username = extract_username m name_size in
    if contains mute_table username then rest else m ∷ rest

-- The prompt below them.
unfoldable pub prompt : ChatClient → Text
prompt client =
    if client.connected then text "[" ++ (client.name ++ text "] > ") else text "[Not connected] > "
