-- ===== src/Tests/Systems.antt =====
-- Tests of the threads of commands, step by step.
use multithreaded_chat_appli.Base.{[], none, refl, some, text, ◌∷◌}
use multithreaded_chat_appli.Cmd.{Command, conn, disconn}
use multithreaded_chat_appli.ClientList.{ClientList, add_client_to_list, new_client, write}
use multithreaded_chat_appli.Server.Phases.Cuts.{connect_add}
use multithreaded_chat_appli.Server.Phases.System.{
  Phase, has_node, begins, has_added, has_pointers, Threads, begin_phase, step_phase, arrives,
  arrive_phase, Running, spawns, goes_on, Reach, here, next, start,
}
use multithreaded_chat_appli.Server.Phases.System.Sound.{IsWell, GoesWell}
use multithreaded_chat_appli.Server.Phases.System.Held.{held-GoesWell}
use multithreaded_chat_appli.Server.Phases.System.Reached.{reached-IsWell}
use multithreaded_chat_appli.Tests.Data.{chat_room, two_clients-Represents, two_items, ada, bob}

abbrev joins_ada : Command
joins_ada = record { kind = conn; args = text "ada" ∷ [] }

abbrev leaves : Command
leaves = record { kind = disconn; args = [] }

-- Ada's thread has put her into the list, and has not answered yet.
abbrev one_client : ClientList
one_client = record {
  nodes =
      write (λ _. none) 0 (some (record { next = none; client = new_client 11 (text "ada") 7 }));
  fresh = 1;
  head = some 0;
  tail = some 0;
}

abbrev added : Threads
added = record {
  server = record { clients = one_client; chat_history = [] };
  running = record { command = joins_ada; from_addr = 11; phase = has_added } ∷ [];
}

ada_added : Reach start added
unfolding arrive_phase step_phase begin_phase connect_add add_client_to_list
ada_added =
    next
      (next (next here (spawns joins_ada 11))
        (goes_on {packets = []} [] [] (at arrives) refl 6 refl))
      (goes_on {packets = []} [] [] (at begins) refl 7 refl)
  where
    at : Phase → Running
    at phase = record { command = joins_ada; from_addr = 11; phase = phase }

reached-IsWell_example : IsWell added.server
reached-IsWell_example = reached-IsWell ada_added

-- A `say` whose sender was not found.
abbrev stray : Phase
stray = has_pointers (record { node = some 0; from_who = none })

-- Bob's `disconn` holds his node, and ada is in front of him.
held-GoesWell_example : GoesWell (step_phase chat_room leaves 22 9 (has_node 1))
held-GoesWell_example =
    held-GoesWell chat_room two_items two_clients-Represents leaves 22 9 (has_node 1)
      ((0, ada) ∷ [], bob, [], refl)
