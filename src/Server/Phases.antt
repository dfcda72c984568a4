-- ===== src/Server/Phases.antt =====
-- server_interface.c, `say` in the phases between which other threads may run: it takes `head`, it
-- looks up its sender, it puts its line together, and it walks the list. What it does to the
-- history in between is in Server/Race.
pub mod Interleaved
pub mod Cuts
pub mod Twice
pub mod System
use multithreaded_chat_appli.Base.{List, Option, Text, map, some, text, ℕ, ◌++◌, ◌+◌, ◌>>=◌}
use multithreaded_chat_appli.Queue.{Addr}
use multithreaded_chat_appli.Cmd.{Command, max_message, response_buffer_size}
use multithreaded_chat_appli.ClientList.{find_client_by_address, client_at}
use multithreaded_chat_appli.Join.{join_args}
use multithreaded_chat_appli.Server.{
  Server, Packet, packet, snprintf, remember, broadcast_from, max_name_len,
}

-- The pointers that `say` keeps: `node` and `from_who`.
pub record Saying : Type 0 where
  pub node : Option ℕ
  pub from_who : Option ℕ

-- The search, behind the read of `head`, which is not under the lock.
unfoldable pub say_begin : Server → Option ℕ → Addr → Option Saying
say_begin s node from = do
  from_who ← find_client_by_address s.clients from
  some (record { node = node; from_who = from_who })

-- The full message: `none` where `from_who` is NULL or freed.
unfoldable pub say_line : Server → Saying → Command → Option Text
say_line s saying command = do
  let message = join_args command.args 0 max_message
  sender ← client_at s.clients saying.from_who
  some (snprintf (max_message + max_name_len + 2) (sender.client_name ++ (text ": " ++ message)))

-- The walk from `node`, through the list as it stands by then: `none` at a freed node.
unfoldable pub say_send : Server → Saying → Text → Option (List Packet)
say_send s saying full_message = do
  to ← broadcast_from s.clients.nodes s.clients.fresh saying.node
  let body = snprintf response_buffer_size (text "say$ " ++ full_message)
  some (map (packet response_buffer_size body) to)
