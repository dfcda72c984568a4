-- ===== src/Tests/Servers.antt =====
-- Tests of the server's handlers and the dispatch.
use multithreaded_chat_appli.Base.{[], drop, inl, inr, none, refl, take, text, ◌-◌, ◌∷◌, ◌≡◌}
use multithreaded_chat_appli.Cmd.{Command}
use multithreaded_chat_appli.Server.{
  recent_history, chat_history_size, max_msgs, spawn_execute_command_threads,
}
use multithreaded_chat_appli.Server.Valid.{Survives}
use multithreaded_chat_appli.Server.Dispatch.{
  spawn_execute_command_threads-none, spawn_execute_command_threads-Survives,
}
use multithreaded_chat_appli.Server.History.{remember_all, recent_history-remember_all}
use multithreaded_chat_appli.Tests.Data.{
  bob, two_items, chat_room, chat_room-IsServer, command_with,
}

abbrev greeting : Command
greeting = command_with (text "hello") (text "there")

abbrev to_bob : Command
to_bob = command_with (text "bob") (text "hi")

spawn_execute_command_threads-none_example :
    spawn_execute_command_threads chat_room greeting 33 7 ≡ none
spawn_execute_command_threads-none_example =
    spawn_execute_command_threads-none chat_room two_items chat_room-IsServer greeting 33 7 refl
      refl (inl (λ k. cc))

spawn_execute_command_threads-Survives_example :
    Survives (spawn_execute_command_threads chat_room greeting 22 7)
spawn_execute_command_threads-Survives_example =
    spawn_execute_command_threads-Survives chat_room two_items chat_room-IsServer greeting 22 7 refl
      (inr (bob, refl))

recent_history-remember_all_example :
    (remember_all [] (text "a" ∷ text "b" ∷ []) ≡ take max_msgs (text "a" ∷ text "b" ∷ []))
    × (recent_history (remember_all [] (text "a" ∷ text "b" ∷ []))
        ≡ drop (2 - chat_history_size) (text "a" ∷ text "b" ∷ []))
recent_history-remember_all_example = recent_history-remember_all (text "a" ∷ text "b" ∷ [])
