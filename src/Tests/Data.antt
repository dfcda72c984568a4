-- ===== src/Tests/Data.antt =====
-- The inputs of the tests: two clients in a linked list, a server over it, a queue and a client.
use multithreaded_chat_appli.Base.{
  List, Text, [], arith, none, refl, replicate, some, text, true, ℕ, ◌++◌, ◌∷◌,
}
use multithreaded_chat_appli.Queue.{Queue, blank_node, queue_max, queue_init}
use multithreaded_chat_appli.Queue.Inv.{IsValid, queue_init-IsValid}
use multithreaded_chat_appli.Cmd.{Command, say}
use multithreaded_chat_appli.ClientList.{Client, ClientList, write}
use multithreaded_chat_appli.ClientList.Chain.{Item}
use multithreaded_chat_appli.ClientList.Refine.{Represents}
use multithreaded_chat_appli.HashTable.{empty_table}
use multithreaded_chat_appli.HashTable.Laws.{empty_table-IsValid}
use multithreaded_chat_appli.Server.{Server}
use multithreaded_chat_appli.Server.Valid.{IsValid as IsServer}
use multithreaded_chat_appli.Client.{ChatClient}
use multithreaded_chat_appli.Client.Valid.{IsSound}

abbrev pub unread : Queue
unread = record { cells = replicate queue_max blank_node; head = 7; tail = 9; size = 2 }

abbrev pub empty_queue : Queue
empty_queue = queue_init unread

pub empty_queue-IsValid : IsValid empty_queue
empty_queue-IsValid = queue_init-IsValid unread refl

-- The memory behind the pointer of a listener: a text and its NUL.
abbrev pub buffer : Text → List ℕ
buffer t = t ++ (0 ∷ [])

abbrev pub ada : Client
ada = record { client_address = 11; client_name = text "ada"; last_active = 5; ping_sent = 0 }

abbrev pub bob : Client
bob = record { client_address = 22; client_name = text "bob"; last_active = 6; ping_sent = 9 }

abbrev pub two_clients : ClientList
two_clients = record {
  nodes =
      write (write (λ _. none) 0 (some (record { next = some 1; client = ada }))) 1
        (some (record { next = none; client = bob }));
  fresh = 2;
  head = some 0;
  tail = some 1;
}

abbrev pub two_items : List Item
two_items = (0, ada) ∷ (1, bob) ∷ []

pub two_clients-Represents : Represents two_clients two_items
two_clients-Represents = record {
  linked = (refl, (refl, tt));
  head = refl;
  tail = refl;
  distinct = ((omega arith, tt), (tt, tt));
  below = (omega arith, (omega arith, tt));
  enough = omega arith;
}

abbrev pub chat_room : Server
chat_room = record { clients = two_clients; chat_history = [] }

pub chat_room-IsServer : IsServer chat_room two_items
chat_room-IsServer = record { linked = two_clients-Represents; room = omega arith }

-- A command of two words.
abbrev pub command_with : Text → Text → Command
command_with first second = record { kind = say; args = first ∷ second ∷ [] ∷ [] }

abbrev pub viewer : ChatClient
viewer = record {
  name = text "ada";
  connected = true;
  mute_table = empty_table;
  messages = text "bob: hi" ∷ text "eve: buy now" ∷ [];
}

pub viewer-IsSound : IsSound viewer
viewer-IsSound = record {
  name_fits = omega arith;
  muted = empty_table-IsValid;
  count = omega arith;
  lines = (omega arith, (omega arith, tt));
}
