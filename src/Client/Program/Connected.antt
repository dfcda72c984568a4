-- ===== src/Client/Program/Connected.antt =====
-- Which rounds of the client's node change `connected`.
use multithreaded_chat_appli.Base.{
  Bool, Bool-cases, List, Option-cases, Text, ap, false, inl, inr, length, ltb, none, pick, refl,
  some, sym, ◌∙◌, ◌≡◌,
}
use multithreaded_chat_appli.Cmd.{
  Kind, conn_success, disconn_response, Command, command_handler, conn_failed, say, mute, unmute,
  rename, error, ping, conn, sayto, disconn, kick, retping, unknown,
}
use multithreaded_chat_appli.Client.{
  ChatClient, execute_server_command, handle_cli_side_cmd, strcpy, say_exec, mute_exec, unmute_exec,
  rename_exec, execute_connect_failed, execute_error_response,
}
use multithreaded_chat_appli.Join.{join}
use multithreaded_chat_appli.Server.{arg, max_msgs}
use multithreaded_chat_appli.Cmd.{name_size}
use multithreaded_chat_appli.Queue.{q_append, q_pop}
use multithreaded_chat_appli.Service.{client_request}
use multithreaded_chat_appli.Client.Node.{ClientNode}
use multithreaded_chat_appli.Client.Node as Node
use multithreaded_chat_appli.Client.Program.{wakes, signals}

-- A command that signals nothing leaves `connected` as it is.
execute_server_command-connected :
    (client client' : ChatClient) (command : Command) (kind : Kind)
    → wakes kind ≡ false
    → execute_server_command client command kind ≡ some client'
    → client'.connected ≡ client.connected
unfolding execute_server_command mute_exec unmute_exec rename_exec execute_connect_failed
    execute_error_response say_exec
execute_server_command-connected client client' command conn_success k e = cc
execute_server_command-connected client client' command disconn_response k e = cc
execute_server_command-connected client client' command say k e =
    elim (Option-cases (join command.args)) [
      | inl q ↦ absurd cc
      | inr (r, q) ↦ elim (Bool-cases (ltb (length client.messages) max_msgs)) [
        | inl y ↦ cc
        | inr n ↦ absurd cc
      ]
    ]
execute_server_command-connected client client' command mute k e = cc
execute_server_command-connected client client' command unmute k e = cc
execute_server_command-connected client client' command rename k e =
    elim (Option-cases (strcpy name_size (arg command 0))) [ inl q ↦ absurd cc | inr (r, q) ↦ cc ]
execute_server_command-connected client client' command conn_failed k e =
    elim (Option-cases (join command.args)) [ inl q ↦ absurd cc | inr (r, q) ↦ cc ]
execute_server_command-connected client client' command error k e =
    elim (Option-cases (join command.args)) [ inl q ↦ absurd cc | inr (r, q) ↦ cc ]
execute_server_command-connected client client' command ping k e = cc
execute_server_command-connected client client' command conn k e = cc
execute_server_command-connected client client' command sayto k e = cc
execute_server_command-connected client client' command disconn k e = cc
execute_server_command-connected client client' command kick k e = cc
execute_server_command-connected client client' command retping k e = cc
execute_server_command-connected client client' command unknown k e = cc

handle_cli_side_cmd-connected :
    (client client' : ChatClient) (cmd : Command) (tokens : List Text)
    → wakes (command_handler cmd tokens).kind ≡ false
    → handle_cli_side_cmd client cmd tokens ≡ some client'
    → client'.connected ≡ client.connected
unfolding handle_cli_side_cmd
handle_cli_side_cmd-connected client client' cmd tokens =
    execute_server_command-connected client client' (command_handler cmd tokens)
      (command_handler cmd tokens).kind

abbrev is_online : ClientNode → Bool
is_online n = n.client.connected

pub node_turn-connected :
    (n n' : ClientNode) (e : Node.Event)
    → signals n e ≡ false
    → Node.turn n e ≡ Node.done n'
    → n'.client.connected ≡ n.client.connected
unfolding Node.turn Node.cli_listener Node.cli_queue_manager Node.run_thread
node_turn-connected n n' (Node.listens datagram stack) k e =
    elim (Bool-cases (ltb 0 (length datagram))) [
      | inl y ↦ elim (Option-cases (q_append n.task_queue (client_request datagram stack) none)) [
        | inl q ↦ absurd cc
        | inr (r, q) ↦ cc
      ]
      | inr y ↦ cc
    ]
node_turn-connected n n' Node.manages k e = elim (Option-cases (q_pop n.task_queue)) [
  | inl q ↦ absurd cc
  | inr (r, q) ↦ cc
]
node_turn-connected n n' (Node.runs i cmd) k e = elim (Option-cases (pick i n.threads)) [
  | inl q ↦ absurd cc
  | inr ((tokens, others), q) ↦ elim (Option-cases (handle_cli_side_cmd n.client cmd tokens)) [
    | inl z ↦ absurd cc
    | inr (client, z) ↦
        let quiet : wakes (command_handler cmd tokens).kind ≡ false = cc in
        let ran : Node.run_thread n i cmd
            ≡ Node.done (record n { threads = others; client = client }) =
          rw (q, Node.run_thread) (rw z refl) in
        let left : record n { threads = others; client = client } ≡ n' = cc in
        sym (ap (λ m. is_online m) left)
        ∙ handle_cli_side_cmd-connected n.client client cmd tokens quiet z
  ]
]
