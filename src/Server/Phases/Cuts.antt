-- ===== src/Server/Phases/Cuts.antt =====
-- server_interface.c: `disconnect`, `sayto`, `kick` and `connect_to_server`, cut where they leave
-- the list's lock, so that other threads may run in between. A pointer into the list that a
-- handler keeps is read when it is used: `none` if its node is freed by then.
use multithreaded_chat_appli.Base.{
  List, Option, Text, [], false, map, none, some, text, true, ℕ, ◌++◌, ◌>>=◌, ◌∷◌,
}
use multithreaded_chat_appli.Queue.{Addr}
use multithreaded_chat_appli.Cmd.{Command, max_message, response_buffer_size}
use multithreaded_chat_appli.ClientList.{
  find_client, find_client_by_address, client_at, remove_client_from_list, add_client_to_list,
}
use multithreaded_chat_appli.Join.{join_args}
use multithreaded_chat_appli.Server.{
  Server, fits, answer_size, Packet, packet, arg, snprintf, recent_history, broadcast,
}

-- `node`, whose name `disconnect` goes by.
unfoldable pub disconnect_begin : Server → Addr → Option (Option ℕ)
disconnect_begin s from = find_client_by_address s.clients from

-- `name` points into the node that was found: the comparisons read it there, if there are any.
unfoldable pub disconnect_remove : Server → ℕ → Option (Option Addr × Server)
disconnect_remove s node = elim s.clients.head [
  | none ↦ some (none, s)
  | some h ↦ do
    client ← client_at s.clients (some node)
    removed ← remove_client_from_list s.clients client.client_name
    some (removed.0, record s { clients = removed.1 })
]

abbrev pub disconnect_answer : Option Addr → List Packet
disconnect_answer none = []
disconnect_answer (some addr) = packet max_message (text "disconnresponse$") addr ∷ []

-- The pointers that `sayto` keeps.
pub record Private : Type 0 where
  pub client : Option ℕ
  pub from_who : Option ℕ

unfoldable pub sayto_begin : Server → Command → Addr → Option Private
sayto_begin s command from = do
  client ← find_client s.clients (arg command 0)
  from_who ← find_client_by_address s.clients from
  some (record { client = client; from_who = from_who })

unfoldable pub sayto_send : Server → Private → Command → Option (List Packet)
sayto_send s kept command = do
  let to_who = arg command 0
  let message = join_args command.args 1 max_message
  elim kept.client [
    | some p ↦ do
      sender ← client_at s.clients kept.from_who
      receiver ← client_at s.clients (some p)
      let for_receiver =
          text "say$ " ++ (sender.client_name ++ (text ":(private message) " ++ message))
      let for_sender = text "say$ you to " ++ (to_who ++ (text ":(private message) " ++ message))
      let told =
          packet response_buffer_size (snprintf response_buffer_size for_receiver)
            receiver.client_address
      let copy =
          packet response_buffer_size (snprintf response_buffer_size for_sender)
            sender.client_address
      some (told ∷ copy ∷ [])
    | none ↦ elim kept.from_who [
      | none ↦ some []
      | some p ↦ do
        sender ← client_at s.clients (some p)
        let answer = text "error$ User not found. (" ++ (to_who ++ text ")")
        let told =
            packet response_buffer_size (snprintf response_buffer_size answer) sender.client_address
        some (told ∷ [])
    ]
  ]

unfoldable pub kick_remove : Server → Command → Option (Option Addr × Server)
kick_remove s command = do
  removed ← remove_client_from_list s.clients (arg command 0)
  some (removed.0, record s { clients = removed.1 })

-- The walk for the news goes through the list as it stands by then.
unfoldable pub kick_tell : Server → Command → Option Addr → Option (List Packet)
kick_tell s command none = some []
kick_tell s command (some addr) = do
  packets ← broadcast s.clients response_buffer_size (
      snprintf response_buffer_size
        (text "say$ SERVER: " ++ (arg command 0 ++ text " has been kicked")))
  some (packet max_message (text "disconnresponse$") addr ∷ packets)

unfoldable pub connect_add : Server → Command → Addr → ℕ → Option Server
connect_add s command from now = do
  clients ← add_client_to_list s.clients from (arg command 0) now
  some (record s { clients = clients })

-- The history is read without a lock, as it stands by then.
unfoldable pub connect_greet : Server → Command → Addr → Option (List Packet)
unfolding recent_history
connect_greet s command from =
    let hello = packet max_message (text "connsuccess$ " ++ arg command 0) from in
    let line = λ (h : Text).
      packet response_buffer_size (snprintf response_buffer_size (text "say$ " ++ h)) from in
    elim (fits answer_size (text "connsuccess$ " ++ arg command 0)) [
      | true ↦ some (hello ∷ map line (recent_history s.chat_history))
      | false ↦ none
    ]
