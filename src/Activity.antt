-- ===== src/Activity.antt =====
-- server_interface.c: one round of `connection_manager`, which pings a client that has been silent
-- for too long and removes it when the ping stays without an answer. The time is an argument.
pub mod Laws
use multithreaded_chat_appli.Base.{
  Bool, List, Option, [], false, ltb, none, some, text, true, ℕ, ◌&&◌, ◌-◌, ◌==◌, ◌>>=◌, ◌||◌, ◌∷◌,
}
use multithreaded_chat_appli.Cmd.{max_message}
use multithreaded_chat_appli.ClientList.{
  Client, ClientList, walk, client_at, update_at, remove_client_from_list,
}
use multithreaded_chat_appli.Server.{Packet, packet, snprintf}

abbrev pub inactivity_threshold : ℕ
inactivity_threshold = 180

abbrev pub ping_timeout : ℕ
ping_timeout = 10

-- The tests at which the loop stops. A difference of times below 0 is not above a limit either.
unfoldable pub is_late : ℕ → Client → Bool
is_late current_time c =
    ltb inactivity_threshold (current_time - c.last_active)
    && (c.ping_sent == 0 || ltb ping_timeout (current_time - c.ping_sent))

-- The list behind a round and the packets sent.
abbrev pub Round : Type 0
Round = Option (ClientList × List Packet)

-- `to_ping`: the node `p` that holds `client` is pinged.
unfoldable pub send_ping : ClientList → ℕ → Client → ℕ → Round
send_ping l p client current_time = do
  l' ← update_at l (some p) (λ c. record c { ping_sent = current_time })
  some (l', packet max_message (snprintf max_message (text "ping$")) client.client_address ∷ [])

-- `to_kick`: the client is told and then removed by its name.
unfoldable pub kick_silent : ClientList → Client → Round
kick_silent l client = do
  removed ← remove_client_from_list l client.client_name
  some (
    removed.1,
    packet max_message (snprintf max_message (text "disconnresponse$")) client.client_address ∷ [],
  )

unfoldable pub connection_manager : ClientList → ℕ → Round
connection_manager l current_time = do
  node ← walk l.nodes (is_late current_time) l.fresh l.head
  elim node [
    | none ↦ some (l, [])
    | some p ↦ do
      client ← client_at l (some p)
      elim (client.ping_sent == 0) [
        | true ↦ send_ping l p client current_time
        | false ↦ kick_silent l client
      ]
  ]
