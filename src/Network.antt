-- ===== src/Network.antt =====
-- The server of server_interface.c and any number of clients of client_interface.c, with the
-- datagrams between them. A datagram may come late, twice, out of order or never. What the parts
-- do is their own modules' turn; a step is one turn of one part.
pub mod Safe
pub mod Booted
use multithreaded_chat_appli.Base.{
  Bool, List, Text, [], false, length, map, true, ℕ, ◌++◌, ◌∷◌, ◌≡◌,
}
use multithreaded_chat_appli.Queue.{Addr, Queue}
use multithreaded_chat_appli.Sockets.{Os, SockaddrIn}
use multithreaded_chat_appli.Server.{Packet}
use multithreaded_chat_appli.Service.{Service}
use multithreaded_chat_appli.Service as Service
use multithreaded_chat_appli.Client.Node as Node
use multithreaded_chat_appli.Client.Program.{Program, Datagram}
use multithreaded_chat_appli.Client.Program as Program

-- The clients with their addresses, the server's packets and the clients' datagrams, which carry
-- their sender's address.
pub record Network (W : Type 0) : Type 0 where
  pub service : Service
  pub clients : List (Addr × Program W)
  pub packets : List Packet
  pub requests : List (Addr × List ℕ)

-- The rounds that take a datagram in.
abbrev pub is_listener : Service.Event → Bool
is_listener (Service.listens datagram stack from) = true
is_listener _ = false

abbrev pub is_cli_listener : Program.Event → Bool
is_cli_listener (Program.acts (Node.listens datagram stack) first) = true
is_cli_listener _ = false

abbrev pub datagram_of : Addr → Datagram → Addr × List ℕ
datagram_of a d = (a, d.bytes)

module _ {W : Type 0} (os : Os W) where
  -- A round of the server, a request that reaches it, a step of a client, and a packet that reaches
  -- a client with whatever bytes the server's buffer holds behind its text.
  pub data Step (n : Network W) : Network W → Type 0 where
    serves :
        {v : Service} {sent : List Packet} (e : Service.Event)
        → is_listener e ≡ false
        → Service.turn n.service e ≡ Service.done v sent
        → Step n (record n { service = v; packets = n.packets ++ sent })
    asked :
        {v : Service} {sent : List Packet} (from : Addr) (datagram : List ℕ)
        (before after : List (Addr × List ℕ))
        → n.requests ≡ before ++ ((from, datagram) ∷ after)
        → (stack : List ℕ)
        → Service.turn n.service (Service.listens datagram stack from) ≡ Service.done v sent
        → Step n (record n { service = v; packets = n.packets ++ sent })
    works :
        {q : Program W} {sent : List Datagram} (addr : Addr) (p : Program W)
        (before after : List (Addr × Program W))
        → n.clients ≡ before ++ ((addr, p) ∷ after)
        → (e : Program.Event) → is_cli_listener e ≡ false
        → Program.turn os p e ≡ Program.done q sent
        → Step n (record n {
          clients = before ++ ((addr, q) ∷ after);
          requests = n.requests ++ map (datagram_of addr) sent;
        })
    told :
        {q : Program W} (packet : Packet) (p : Program W) (before after : List (Addr × Program W))
        → n.clients ≡ before ++ ((packet.to, p) ∷ after)
        → (earlier later : List Packet) → n.packets ≡ earlier ++ (packet ∷ later)
        → (rest stack : List ℕ) → length (packet.body ++ (0 ∷ rest)) ≡ packet.bytes
        → (first : Bool)
        → Program.turn os p (Program.acts (Node.listens (packet.body ++ (0 ∷ rest)) stack) first)
          ≡ Program.done q []
        → Step n (record n { clients = before ++ ((packet.to, q) ∷ after) })

  -- The networks that steps lead to.
  pub data Reach (n : Network W) : Network W → Type 0 where
    here : Reach n n
    next : {m l : Network W} → Reach n m → Step m l → Reach n l

-- What a client finds in memory when its `main` begins, and its input.
pub record Install (W : Type 0) : Type 0 where
  pub address : Addr
  pub memory : Queue
  pub name : Text
  pub server_addr : SockaddrIn
  pub stdin : Text
  pub world : W

abbrev pub install : {W : Type 0} → Os W → Install W → Addr × Program W
install os i = (i.address, Program.boot os i.memory i.name i.server_addr i.stdin i.world)

-- Every `main` has just begun.
abbrev pub boot : {W : Type 0} → Os W → Queue → List (Install W) → Network W
boot os memory installs = record {
  service = Service.boot memory;
  clients = map (install os) installs;
  packets = [];
  requests = [];
}
