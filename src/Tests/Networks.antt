-- ===== src/Tests/Networks.antt =====
-- Tests of the network: a user connects, from the typed line to the answer.
use multithreaded_chat_appli.Base.{
  List, [], ap, arith, length, refl, replicate, same, text, true, ◌∷◌, ◌≡◌, ◌≢◌,
}
use multithreaded_chat_appli.Sockets.{
  init_client_socket, udp_socket_open, udp_socket_write, set_socket_addr, ℤ,
}
use multithreaded_chat_appli.CString.{cstring}
use multithreaded_chat_appli.Client.Input.{
  before_newline, user_input_pre_connection, asks_connection, send_connect_request,
}
use multithreaded_chat_appli.Server.{snprintf}
use multithreaded_chat_appli.Client.Program.{
  Program, turn, pre_step, act_pre, fgets, get_line, boot, init_socket, reopen, write, sends_from,
  types_pre,
}
use multithreaded_chat_appli.Network.Booted.{reached-IsSafe, never_crashed}
use multithreaded_chat_appli.Network.Safe.{IsSafeNetwork}
use multithreaded_chat_appli.Client.Program.{types_post, crashed}
use multithreaded_chat_appli.Network.{Network, Step, Reach, here, next, works, Install, install}
use multithreaded_chat_appli.Network as Network
use multithreaded_chat_appli.Queue.{
  q_append, is_full, queue_init, fill_node, q_pop, get_and_tokenise, remove_dollar_sign,
  take_tokens, close_gap, sender_of, deref,
}
use multithreaded_chat_appli.Cmd.{
  Command, unknown, max_message, command_handler, kind_of, fill_args,
}
use multithreaded_chat_appli.Pool.{worker_thread_checkin, worker_thread_checkout}
use multithreaded_chat_appli.ClientList.{add_client_to_list}
use multithreaded_chat_appli.Server.{
  Packet, packet, mark_active, execute, connect_to_server, recent_history,
}
use multithreaded_chat_appli.CString.{strncpy, strtok}
use multithreaded_chat_appli.Service as Service
use multithreaded_chat_appli.Network.Safe.{AreSane}
use multithreaded_chat_appli.Tests.Data.{unread}
use multithreaded_chat_appli.Tests.Programs.{os, nowhere, typed, started, request}
use multithreaded_chat_appli.Client.Program.{acts}
use multithreaded_chat_appli.Client.Node as Node
use multithreaded_chat_appli.Network.{asked, serves, told}
use multithreaded_chat_appli.Client.Program.{node_step, signal}
use multithreaded_chat_appli.Client.{
  handle_cli_side_cmd, execute_server_command, execute_connect_response, strcpy,
}

-- A network of the server and this client, whose first thread looks around.
abbrev bobs : Install (List ℤ)
bobs = record {
  address = 22;
  memory = unread;
  name = text "";
  server_addr = nowhere;
  stdin = typed;
  world = [];
}

abbrev at_start : Network (List ℤ)
at_start = Network.boot os unread (bobs ∷ [])

abbrev any_command : Command
any_command = record { kind = unknown; args = [] }

abbrev welcome : Packet
welcome = packet max_message (text "connsuccess$ bob") 22

-- The client behind the answer, and the network then.
talk :
    (n : Network (List ℤ)) × (p : Program (List ℤ)) × (reach : Reach os at_start n) × AreSane reach
    × (n.clients ≡ (22, p) ∷ [])
    × (p.node.client.connected ≡ true)
    × (p.node.client.messages ≡ [])
unfolding Service.turn Service.listener Service.queue_manager Service.run_thread q_append is_full
    fill_node q_pop queue_init cstring strncpy strtok get_and_tokenise remove_dollar_sign
    take_tokens close_gap sender_of deref worker_thread_checkin worker_thread_checkout mark_active
    execute connect_to_server recent_history add_client_to_list command_handler kind_of fill_args
    same Service.client_request turn pre_step act_pre reopen init_socket boot write sends_from
    udp_socket_write user_input_pre_connection before_newline asks_connection send_connect_request
    init_client_socket udp_socket_open set_socket_addr snprintf fgets get_line node_step signal
    Node.turn Node.cli_listener Node.cli_queue_manager Node.run_thread handle_cli_side_cmd
    execute_server_command execute_connect_response strcpy
talk = (
  _,
  _,
  next
      (next
        (next
          (next
            (next
              (next
                (next
                  (next
                    (next (next here (works {sent = []} 22 started [] [] refl types_pre refl refl))
                      (works {sent = []} 22 _ [] [] refl types_pre refl refl))
                    (works {sent = []} 22 _ [] [] refl types_pre refl refl))
                  (works {sent = request ∷ []} 22 _ [] [] refl types_pre refl refl))
                (asked {sent = []} 22 request.bytes [] [] refl [] refl))
              (serves {sent = []} (Service.manages any_command 5) refl refl))
            (serves {sent = welcome ∷ []} (Service.runs 0 5) refl refl))
          (told welcome _ [] [] refl [] [] refl (replicate 239 7) [] refl true refl))
        (works {sent = []} 22 _ [] [] refl (acts Node.manages true) refl refl))
      (works {sent = []} 22 _ [] [] refl (acts (Node.runs 0 any_command) true) refl refl),
  (((((((((((tt, tt), tt), tt), tt), tt), tt), tt), tt), tt), tt)),
  refl,
  refl,
  refl,
)

reached-IsSafe_example : IsSafeNetwork talk.0
reached-IsSafe_example =
    reached-IsSafe os unread (bobs ∷ []) refl ((refl, omega arith), tt) talk.2 talk.3

never_crashed_example : turn os talk.1 types_post ≢ crashed
never_crashed_example =
    never_crashed os unread (bobs ∷ []) refl ((refl, omega arith), tt) talk.2 talk.3 22 talk.1 [] []
      talk.4 (omega (arith, ap length talk.6)) types_post
