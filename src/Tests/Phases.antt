-- ===== src/Tests/Phases.antt =====
-- Tests of `say` between the phases of other threads.
use multithreaded_chat_appli.Base.{[], none, refl, some, text, ◌∷◌, ◌≡◌}
use multithreaded_chat_appli.Cmd.{Command}
use multithreaded_chat_appli.ClientList.{ClientList, remove_client_from_list}
use multithreaded_chat_appli.Server.{Server}
use multithreaded_chat_appli.Server.Phases.Cuts.{disconnect_begin, disconnect_remove}
use multithreaded_chat_appli.Server.Phases.Twice.{disconnect_twice}
use multithreaded_chat_appli.Server.Phases.{Saying, say_send}
use multithreaded_chat_appli.Server.Phases.Interleaved.{say_send_freed}
use multithreaded_chat_appli.Tests.Data.{
  ada, bob, two_clients, two_clients-Represents, chat_room, command_with,
}

abbrev hello_all : Command
hello_all = command_with (text "hello") (text "all")

-- Bob speaks, while ada is the first of the list.
abbrev bob_speaks : Saying
bob_speaks = record { node = some 0; from_who = some 1 }

disconnect_twice_example :
    (disconnect_begin chat_room 11 ≡ some (some 0))
    × ((s' : Server) × (disconnect_remove chat_room 0 ≡ some (some 11, s'))
        × (disconnect_remove s' 0 ≡ none))
disconnect_twice_example = disconnect_twice chat_room (0, ada) (1, bob) [] two_clients-Represents

say_send_freed_example :
    (l' : ClientList) × (remove_client_from_list two_clients (text "ada") ≡ some (some 11, l'))
    × (say_send (record chat_room { clients = l' }) bob_speaks (text "bob: hello all") ≡ none)
say_send_freed_example =
    say_send_freed chat_room (0, ada) ((1, bob) ∷ []) bob_speaks (text "bob: hello all")
      two_clients-Represents refl
