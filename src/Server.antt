-- ===== src/Server.antt =====
-- server_interface.c: the command handlers of the server, each run whole (its threads are taken
-- one after the other), and the dispatch to them. A handler gives the new state and the packets
-- that it sends, or `none` where it reads through a NULL or freed pointer, or writes past the end
-- of an array.
pub mod View
pub mod Handlers
pub mod Members
pub mod Valid
pub mod Execute
pub mod Dispatch
pub mod History
pub mod Race
pub mod Phases
use multithreaded_chat_appli.Base.{
  Bool, List, Option, Text, [], drop, false, get_or, if◌then◌else◌, length, ltb, map, none, not,
  some, suc, take, text, true, zero, ℕ, ◌++◌, ◌+◌, ◌-◌, ◌==◌, ◌>>=◌, ◌∷◌,
}
use multithreaded_chat_appli.Queue.{Addr}
use multithreaded_chat_appli.Cmd.{name_size}
use multithreaded_chat_appli.Cmd.{
  Kind, conn, say, sayto, mute, unmute, rename, disconn, kick, retping, unknown, Command,
  max_message, response_buffer_size,
}
use multithreaded_chat_appli.ClientList.{
  ClientNode, ClientList, find_client, find_client_by_address, client_at, add_client_to_list,
  update_at, update_client_activity, remove_client_from_list,
}
use multithreaded_chat_appli.Join.{join_args}

abbrev pub max_msgs : ℕ
max_msgs = 100

abbrev pub chat_history_size : ℕ
chat_history_size = 15

-- `BUFFER_SIZE` of udp.h: what `connect_to_server` prints its answer into.
abbrev pub answer_size : ℕ
answer_size = 1024

abbrev pub max_name_len : ℕ
max_name_len = 30

-- What all handlers share: the list of clients, and the `*chat_historyc` texts that stand at the
-- start of `chat_history`.
pub record Server : Type 0 where
  pub clients : ClientList
  pub chat_history : List Text

-- `udp_socket_write(sd, to, body, bytes)`: `bytes` of a buffer that starts with `body`.
pub record Packet : Type 0 where
  pub to : Addr
  pub body : Text
  pub bytes : ℕ

abbrev pub Outcome : Type 0
Outcome = Option (Server × List Packet)

abbrev pub arg : Command → ℕ → Text
arg command i = get_or command.args i []

-- `snprintf(buffer, size, ...)`
unfoldable pub snprintf : ℕ → Text → Text
snprintf size s = take (size - 1) s

abbrev pub packet : ℕ → Text → Addr → Packet
packet bytes body to = record { to = to; body = body; bytes = bytes }

-- Whether an array of `size` bytes takes the string and its end, for `sprintf` and `strcpy`.
abbrev pub fits : ℕ → Text → Bool
fits size s = ltb (length s) size

-- The lines of the history that a new client gets.
unfoldable pub recent_history : List Text → List Text
recent_history history =
    let start =
      if ltb chat_history_size (length history) then length history - chat_history_size else 0 in
    drop start history

unfoldable pub connect_to_server : Server → Command → Addr → ℕ → Outcome
unfolding recent_history
connect_to_server s command from now = do
  let name = arg command 0
  clients ← add_client_to_list s.clients from name now
  let hello = packet max_message (text "connsuccess$ " ++ name) from
  let line = λ (h : Text).
      packet response_buffer_size (snprintf response_buffer_size (text "say$ " ++ h)) from
  elim (fits answer_size (text "connsuccess$ " ++ name)) [
    | true ↦ some (record s { clients = clients }, hello ∷ map line (recent_history s.chat_history))
    | false ↦ none
  ]

-- Where nobody has the name and the sender is not in the list, the answer's address is that of a
-- field of NULL, which is only computed: `sendto` refuses it, and nothing is sent.
unfoldable pub execute_sayto : Server → Command → Addr → Outcome
execute_sayto s command from = do
  let to_who = arg command 0
  let message = join_args command.args 1 max_message
  client ← find_client s.clients to_who
  from_who ← find_client_by_address s.clients from
  elim client [
    | some p ↦ do
      sender ← client_at s.clients from_who
      receiver ← client_at s.clients (some p)
      let for_receiver =
          text "say$ " ++ (sender.client_name ++ (text ":(private message) " ++ message))
      let for_sender = text "say$ you to " ++ (to_who ++ (text ":(private message) " ++ message))
      some (
        s,
        packet response_buffer_size (snprintf response_buffer_size for_receiver)
              receiver.client_address
            ∷ packet response_buffer_size (snprintf response_buffer_size for_sender)
                sender.client_address
            ∷ [],
      )
    | none ↦ elim from_who [
      | none ↦ some (s, [])
      | some p ↦ do
        sender ← client_at s.clients (some p)
        let answer = text "error$ User not found. (" ++ (to_who ++ text ")")
        some (
          s,
          packet response_buffer_size (snprintf response_buffer_size answer) sender.client_address
              ∷ [],
        )
    ]
  ]

-- The addresses that a broadcast walks through.
unfoldable pub broadcast_from : (ℕ → Option ClientNode) → ℕ → Option ℕ → Option (List Addr)
broadcast_from nodes fuel none = some []
broadcast_from nodes zero (some p) = none
broadcast_from nodes (suc fuel) (some p) = elim (nodes p) [
  | none ↦ none
  | some n ↦ broadcast_from nodes fuel n.next >>= λ rest. some (n.client.client_address ∷ rest)
]

unfoldable pub broadcast : ClientList → ℕ → Text → Option (List Packet)
broadcast l bytes body = do
  to ← broadcast_from l.nodes l.fresh l.head
  some (map (packet bytes body) to)

-- The history takes a message while it has a free slot.
unfoldable pub remember : List Text → Text → List Text
remember history message =
    if ltb (length history) max_msgs then history ++ (message ∷ []) else history

unfoldable pub execute_say : Server → Command → Addr → Outcome
execute_say s command from = do
  let message = join_args command.args 0 max_message
  from_who ← find_client_by_address s.clients from
  sender ← client_at s.clients from_who
  let full_message =
      snprintf (max_message + max_name_len + 2) (sender.client_name ++ (text ": " ++ message))
  packets ←
      broadcast s.clients response_buffer_size
        (snprintf response_buffer_size (text "say$ " ++ full_message))
  some (record s { chat_history = remember s.chat_history full_message }, packets)

unfoldable pub disconnect : Server → Addr → Outcome
disconnect s from = do
  node ← find_client_by_address s.clients from
  elim node [
    | none ↦ some (s, [])
    | some p ↦ do
      client ← client_at s.clients (some p)
      removed ← remove_client_from_list s.clients client.client_name
      let packets : List Packet = elim removed.0 [
        | none ↦ []
        | some addr ↦ packet max_message (text "disconnresponse$") addr ∷ []
      ]
      some (record s { clients = removed.1 }, packets)
  ]

-- `mute` and `unmute` send the command back: the client keeps the table.
unfoldable pub relay_mute : Server → Command → Addr → Outcome
relay_mute s command from =
    some (s, packet max_message (snprintf max_message (text "mute$ " ++ arg command 0)) from ∷ [])

unfoldable pub relay_unmute : Server → Command → Addr → Outcome
relay_unmute s command from =
    some (s, packet max_message (snprintf max_message (text "unmute$ " ++ arg command 0)) from ∷ [])

unfoldable pub rename_client : Server → Command → Addr → Outcome
rename_client s command from = do
  let new_name = arg command 0
  client ← find_client_by_address s.clients from
  clients ← elim (fits name_size new_name) [
    | true ↦ update_at s.clients client (λ c. record c { client_name = new_name })
    | false ↦ none
  ]
  some (
    record s { clients = clients },
    packet max_message (snprintf max_message (text "rename$ " ++ new_name)) from ∷ [],
  )

-- `is_admin`: the requester is the head of the list.
unfoldable pub is_admin : ClientList → Addr → Option Bool
is_admin l from = elim l.head [
  | none ↦ some false
  | some p ↦ do c ← client_at l (some p); some (c.client_address == from)
]

unfoldable pub execute_kick : Server → Command → Addr → Outcome
execute_kick s command from = do
  let name = arg command 0
  admin ← is_admin s.clients from
  elim admin [
    | false ↦ some (
      s,
      packet max_message
            (snprintf max_message (text "error$ Permission denied. Only admin can kick users."))
            from
          ∷ [],
    )
    | true ↦ do
      removed ← remove_client_from_list s.clients name
      elim removed.0 [
        | none ↦ some (record s { clients = removed.1 }, [])
        | some addr ↦ do
          packets ← broadcast removed.1 response_buffer_size (
              snprintf response_buffer_size
                (text "say$ SERVER: " ++ (name ++ text " has been kicked")))
          some (
            record s { clients = removed.1 },
            packet max_message (text "disconnresponse$") addr ∷ packets,
          )
      ]
  ]

unfoldable pub handle_unknown_command : Server → Addr → Outcome
handle_unknown_command s from =
    some (s, packet max_message (text "error$ Unknown command") from ∷ [])

-- The `switch` of `spawn_execute_command_threads`.
unfoldable pub execute : Server → Command → Kind → Addr → ℕ → Outcome
execute s command conn from now = connect_to_server s command from now
execute s command say from now = execute_say s command from
execute s command sayto from now = execute_sayto s command from
execute s command disconn from now = disconnect s from
execute s command mute from now = relay_mute s command from
execute s command unmute from now = relay_unmute s command from
execute s command rename from now = rename_client s command from
execute s command kick from now = execute_kick s command from
execute s command retping from now = some (s, [])
execute s command unknown from now = handle_unknown_command s from
execute s command other from now = some (s, [])

-- A command other than `conn` marks its sender as active.
unfoldable pub mark_active : Server → Command → Addr → ℕ → Option Server
mark_active s command from now = do
  clients ← elim command.kind [
    | conn ↦ some s.clients
    | _ ↦ update_client_activity s.clients from now
  ]
  some (record s { clients = clients })

-- The mark, and then the thread of the command.
unfoldable pub spawn_execute_command_threads : Server → Command → Addr → ℕ → Outcome
unfolding mark_active
spawn_execute_command_threads s command from now = do
  marked ← mark_active s command from now
  execute marked command command.kind from now
