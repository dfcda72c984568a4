-- ===== src/Tests/Rights.antt =====
-- Tests of who may change the room, and of whom a private line is for.
use multithreaded_chat_appli.Base.{All, List, [], same, some, text, ◌++◌, ◌≡◌}
use multithreaded_chat_appli.Cmd.{Command, say}
use multithreaded_chat_appli.ClientList.Chain.{Item}
use multithreaded_chat_appli.Server.{Server, remember, execute, execute_sayto}
use multithreaded_chat_appli.Server.Handlers.{
  said, to_all, whispered, execute_say_lem, execute_sayto_lem,
}
use multithreaded_chat_appli.Server.Valid.{IsValid}
use multithreaded_chat_appli.Room.Handlers.{room_of}
use multithreaded_chat_appli.Room.Authority.{IsLawful, IsFor, execute-IsLawful, execute_sayto-IsFor}
use multithreaded_chat_appli.Tests.Data.{
  ada, bob, two_clients-Represents, two_items, chat_room, chat_room-IsServer, command_with,
}

abbrev hi_bob : Command
hi_bob = command_with (text "bob") (text "hi")

abbrev said_hi : Server
said_hi = record chat_room { chat_history = remember [] (said hi_bob ada) }

ada_says :
    execute chat_room hi_bob say 11 9
    ≡ some (said_hi, to_all (text "say$ " ++ said hi_bob ada) two_items)
unfolding execute
ada_says = execute_say_lem chat_room two_items two_clients-Represents hi_bob 11

execute-IsLawful_example :
    (xs' : List Item) × IsValid said_hi xs'
    × IsLawful (room_of chat_room two_items) say 11 (room_of said_hi xs')
execute-IsLawful_example =
    execute-IsLawful chat_room two_items hi_bob say 11 9 chat_room-IsServer ada_says

ada_whispers : execute_sayto chat_room hi_bob 11 ≡ some (chat_room, whispered hi_bob ada (some bob))
unfolding same
ada_whispers = execute_sayto_lem chat_room two_items two_clients-Represents hi_bob 11

execute_sayto-IsFor_example :
    (chat_room ≡ chat_room)
    × All (IsFor two_items (text "bob") 11) (whispered hi_bob ada (some bob))
execute_sayto-IsFor_example =
    execute_sayto-IsFor chat_room two_items hi_bob 11 chat_room-IsServer ada_whispers
