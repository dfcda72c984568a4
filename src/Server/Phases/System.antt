-- ===== src/Server/Phases/System.antt =====
-- server_interface.c: the threads of the commands with their critical sections as steps, in any
-- order, with the dispatch, which walks the list and marks a sender as active without a lock, and
-- the rounds of connection_manager. A thread keeps between its steps what the handler keeps: the
-- pointers into the list too. Each read through such a pointer is in a step of its own; the rest of
-- what a handler does without the lock goes with the step in front of it. What the threads of `say`
-- make of the history, again without a lock, is left open here: it may hold any lines at any time.
-- Server/Race says how it comes about.
pub mod Sound
pub mod Reached
pub mod Held
use multithreaded_chat_appli.Base.{
  List, Option, Text, [], false, none, some, suc, text, true, zero, ℕ, ◌++◌, ◌==◌, ◌>>=◌, ◌∷◌, ◌≡◌,
}
use multithreaded_chat_appli.Queue.{Addr}
use multithreaded_chat_appli.Cmd.{Kind, conn, say, sayto, disconn, kick, Command, max_message}
use multithreaded_chat_appli.Server.{
  Outcome, Server, Packet, packet, snprintf, is_admin, execute, mark_active,
}
use multithreaded_chat_appli.ClientList.{ClientList, no_clients, find_client_by_address, update_at}
use multithreaded_chat_appli.Activity.{connection_manager}
use multithreaded_chat_appli.Server.Phases.{Saying, say_begin, say_line, say_send}
use multithreaded_chat_appli.Server.Phases.Cuts.{
  disconnect_begin, disconnect_remove, disconnect_answer, Private, sayto_begin, sayto_send,
  kick_remove, kick_tell, connect_add, connect_greet,
}

-- Where a command stands: it arrives at the dispatch, which walks, and then has its sender's node
-- to mark; its thread is at its beginning; a `say` with the head, with its pointers, and with its
-- line; a `disconn` with the node it found; a `sayto` with its pointers; a `kick` that is allowed,
-- and with the address it removed; a `conn` that is in the list.
pub data Phase : Type 0 where
  arrives begins is_admitted has_added : Phase
  walks has_head : Option ℕ → Phase
  has_client : ℕ → Phase
  has_pointers : Saying → Phase
  has_line : Saying → Text → Phase
  has_node : ℕ → Phase
  has_private : Private → Phase
  has_removed : Option Addr → Phase

pub record Running : Type 0 where
  pub command : Command
  pub from_addr : Addr
  pub phase : Phase

-- The server, the packets, and where the thread stands then, if it has not ended.
abbrev pub After : Type 0
After = Option (Server × List Packet × Option Phase)

unfoldable pub begin_phase : Server → Command → Kind → Addr → ℕ → After
begin_phase s command conn from now = do
  added ← connect_add s command from now
  some (added, [], some has_added)
begin_phase s command say from now = some (s, [], some (has_head s.clients.head))
begin_phase s command sayto from now = do
  kept ← sayto_begin s command from
  some (s, [], some (has_private kept))
begin_phase s command disconn from now = do
  node ← disconnect_begin s from
  some (s, [], elim node [ none ↦ none | some p ↦ some (has_node p) ])
begin_phase s command kick from now = do
  admin ← is_admin s.clients from
  let refusal =
      packet max_message
        (snprintf max_message (text "error$ Permission denied. Only admin can kick users.")) from
  elim admin [ true ↦ some (s, [], some is_admitted) | false ↦ some (s, refusal ∷ [], none) ]
begin_phase s command kind from now = do
  answered ← execute s command kind from now
  some (answered.0, answered.1, none)

-- `spawn_execute_command_threads` in front of its switch: `update_client_activity` takes no lock, so
-- the read of the head, the look at each node and the write are steps. That one queue manager does
-- the dispatches, one after the other, is left out: two of them may also overlap here.
unfoldable pub arrive_phase : Server → Kind → Addr → After
arrive_phase s conn from = some (s, [], some begins)
arrive_phase s kind from = some (s, [], some (walks s.clients.head))

unfoldable pub walk_phase : Server → Addr → Option ℕ → After
walk_phase s from none = some (s, [], some begins)
walk_phase s from (some p) = elim (s.clients.nodes p) [
  | none ↦ none
  | some n ↦ elim (n.client.client_address == from) [
    | true ↦ some (s, [], some (has_client p))
    | false ↦ some (s, [], some (walks n.next))
  ]
]

unfoldable pub mark_phase : Server → ℕ → ℕ → After
mark_phase s p now = do
  clients ← update_at s.clients (some p) (λ c. record c { last_active = now; ping_sent = 0 })
  some (record s { clients = clients }, [], some begins)

unfoldable pub step_phase : Server → Command → Addr → ℕ → Phase → After
step_phase s command from now arrives = arrive_phase s command.kind from
step_phase s command from now (walks q) = walk_phase s from q
step_phase s command from now (has_client p) = mark_phase s p now
step_phase s command from now (has_head q) = do
  saying ← say_begin s q from
  some (s, [], some (has_pointers saying))
step_phase s command from now begins = begin_phase s command command.kind from now
step_phase s command from now is_admitted = do
  removed ← kick_remove s command
  some (removed.1, [], some (has_removed removed.0))
step_phase s command from now has_added = do
  packets ← connect_greet s command from
  some (s, packets, none)
step_phase s command from now (has_pointers saying) = do
  full_message ← say_line s saying command
  some (s, [], some (has_line saying full_message))
step_phase s command from now (has_line saying full_message) = do
  packets ← say_send s saying full_message
  some (s, packets, none)
step_phase s command from now (has_node p) = do
  removed ← disconnect_remove s p
  some (removed.1, disconnect_answer removed.0, none)
step_phase s command from now (has_private kept) = do
  packets ← sayto_send s kept command
  some (s, packets, none)
step_phase s command from now (has_removed addr) = do
  packets ← kick_tell s command addr
  some (s, packets, none)

pub record Threads : Type 0 where
  pub server : Server
  pub running : List Running

-- The arrival of a command, a step of a thread that goes on, one of a thread that ends, a round of
-- the inactivity check, and a change of the history.
pub data Step (t : Threads) : Threads → Type 0 where
  spawns :
      (command : Command) (from_addr : Addr)
      → Step t (record t {
        running =
            t.running
            ++ (record { command = command; from_addr = from_addr; phase = arrives } ∷ []);
      })
  goes_on :
      {s : Server} {packets : List Packet} {phase : Phase} (before after : List Running)
      (r : Running)
      → t.running ≡ before ++ (r ∷ after)
      → (now : ℕ)
      → step_phase t.server r.command r.from_addr now r.phase ≡ some (s, packets, some phase)
      → Step t (record { server = s; running = before ++ (record r { phase = phase } ∷ after) })
  ends :
      {s : Server} {packets : List Packet} (before after : List Running) (r : Running)
      → t.running ≡ before ++ (r ∷ after)
      → (now : ℕ) → step_phase t.server r.command r.from_addr now r.phase ≡ some (s, packets, none)
      → Step t (record { server = s; running = before ++ after })
  checks :
      {l : ClientList} {packets : List Packet} (now : ℕ)
      → connection_manager t.server.clients now ≡ some (l, packets)
      → Step t (record t { server = record t.server { clients = l } })
  stores :
      (history : List Text)
      → Step t (record t { server = record t.server { chat_history = history } })

pub data Reach (t : Threads) : Threads → Type 0 where
  here : Reach t t
  next : {u v : Threads} → Reach t u → Step u v → Reach t v

-- The server before its first command.
abbrev pub start : Threads
start = record { server = record { clients = no_clients; chat_history = [] }; running = [] }
