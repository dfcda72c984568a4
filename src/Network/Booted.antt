-- ===== src/Network/Booted.antt =====
-- The states of the network that steps lead to, from the start of every program.
use multithreaded_chat_appli.Base.{
  All, All_right, List, [], arith, length, map, ◌++◌, ◌<◌, ◌∷◌, ◌≡◌, ◌≢◌,
}
use mathlib.Core.Path.{subst}
use multithreaded_chat_appli.Queue.{Addr, Queue, queue_max, queue_init}
use multithreaded_chat_appli.Queue.Inv.{queue_init-IsValid}
use multithreaded_chat_appli.Cmd.{name_size}
use multithreaded_chat_appli.HashTable.Laws.{empty_table-IsValid}
use multithreaded_chat_appli.Sockets.{Os}
use multithreaded_chat_appli.Server.{max_msgs}
use multithreaded_chat_appli.Service.Agree.{boot-IsReady}
use multithreaded_chat_appli.Service.Booted.{boot-IsOrderly}
use multithreaded_chat_appli.Client.Program.{Program, Datagram}
use multithreaded_chat_appli.Client.Program as Program
use multithreaded_chat_appli.Network.{Network, Reach, here, next, Install, install, boot}
use multithreaded_chat_appli.Network.Safe.{
  IsSafeClient, IsSafeNetwork, AreSane, Step-IsSafe, crash_full,
}

module _ {W : Type 0} (os : Os W) where
  -- The array of the queue is whole, and the name is terminated inside its array.
  abbrev pub IsWhole : Install W → Type 0
  IsWhole i = (length i.memory.cells ≡ queue_max) × (length i.name < name_size)

  install-IsSafe : (i : Install W) → IsWhole i → IsSafeClient (install os i)
  unfolding Program.boot Program.init_socket queue_init
  install-IsSafe i (cells, name) = record {
    queue = queue_init-IsValid i.memory cells;
    waiting = tt;
    threads = tt;
    client = record {
      name_fits = name;
      muted = empty_table-IsValid;
      count = omega arith;
      lines = tt;
    };
  }

  installed-IsSafe :
      (is : List (Install W)) → All IsWhole is → All IsSafeClient (map (install os) is)
  installed-IsSafe [] h = tt
  installed-IsSafe (i ∷ is) h = (install-IsSafe i h.0, installed-IsSafe is h.1)

  module _ (memory : Queue) (installs : List (Install W)) (cells : length memory.cells ≡ queue_max)
      (whole : All IsWhole installs) where
    -- In every network that a booted server and any number of booted clients reach, the server's
    -- parts are in order and within their bounds, every client's queue is valid and its node
    -- within its bounds, every packet on its way fits a cell of a queue and has words that a
    -- client's join has room for, where the queues' arrays are whole, the memory of each client's
    -- name is terminated inside its array, and so are the commands that the server's parser may
    -- leave uninitialised.
    pub reached-IsSafe :
        {n : Network W} (reach : Reach os (boot os memory installs) n)
        → AreSane reach
        → IsSafeNetwork n
    reached-IsSafe here sane = record {
      items = [];
      ready = boot-IsReady memory cells;
      orderly = boot-IsOrderly memory;
      clients = installed-IsSafe installs whole;
      packets = tt;
    }
    reached-IsSafe (next {m} reach t) sane = Step-IsSafe os m (reached-IsSafe reach sane.0) t sane.1

    -- In every network that a booted server and any number of booted clients reach, by any of
    -- their rounds and whatever the users type, with datagrams lost, repeated and delayed, a
    -- client in which a slot for a line of chat is free is not crashed by any step, where the
    -- queues' arrays are whole, the memory of each client's name is terminated inside its array,
    -- and so are the commands that the server's parser may leave uninitialised.
    pub never_crashed :
        {n : Network W} (reach : Reach os (boot os memory installs) n)
        → AreSane reach
        → (addr : Addr) (p : Program W) (before after : List (Addr × Program W))
        → n.clients ≡ before ++ ((addr, p) ∷ after)
        → length p.node.client.messages < max_msgs
        → (e : Program.Event) → Program.turn os p e ≢ Program.crashed
    never_crashed reach sane addr p before after at room e q =
        let others = subst (All IsSafeClient) at (reached-IsSafe reach sane).clients in
        let full = crash_full os p (All_right IsSafeClient before _ others).0 e q in
        omega (arith, room, full)
