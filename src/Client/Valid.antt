-- ===== src/Client/Valid.antt =====
-- What holds of a client at any time, and which commands of the server it survives.
use multithreaded_chat_appli.Base.{
  All, All-append, All-get_or, List, Option-cases, Text, [], arith, inl, inr, length, length-append,
  none, refl, some, true, ℕ, ◌++◌, ◌<◌, ◌∷◌, ◌≡◌, ◌≤◌,
}
use multithreaded_chat_appli.Cmd.{
  Kind, conn_success, conn_failed, say, mute, unmute, rename, disconn_response, error, ping,
  Command, name_size, conn, sayto, disconn, kick, retping, unknown,
}
use multithreaded_chat_appli.HashTable.Laws.{IsValid, insert-IsValid, remove_key-IsValid}
use multithreaded_chat_appli.Join.{join, join_size}
use multithreaded_chat_appli.Join.Unwords.{unwords, filled}
use multithreaded_chat_appli.Join.Laws.{HasEmpty, join-unwords}
use multithreaded_chat_appli.Server.{max_msgs, arg}
use multithreaded_chat_appli.Client.{
  ChatClient, strcpy, say_exec, mute_exec, unmute_exec, rename_exec, execute_connect_response,
  execute_connect_failed, execute_error_response, execute_disconnect_response,
  execute_server_command,
}

-- Each text is within its array, and the table is a set.
pub record IsSound (client : ChatClient) : Type 0 where
  pub name_fits : length client.name < name_size
  pub muted : IsValid client.mute_table
  pub count : length client.messages ≤ max_msgs
  pub lines : All (λ m. length m < join_size) client.messages

-- The words of a command as `command_handler` leaves them, with room for `join`.
pub record Fits (args : List Text) : Type 0 where
  pub words : All (λ w. length w < name_size) args
  pub empty : HasEmpty args
  pub short : length (unwords (filled args)) < join_size

strcpy-some : (size : ℕ) (s : Text) → length s < size → strcpy size s ≡ some s
unfolding strcpy
strcpy-some size s h = ground arith

module _ (client : ChatClient) (command : Command) where
  -- With a hundred messages stored, the next line of chat is written past the array.
  pub say_exec_full : length client.messages ≡ max_msgs → say_exec client command ≡ none
  unfolding say_exec
  say_exec_full h = elim (Option-cases (join command.args)) [
    | inl e ↦ rw e
    | inr (r, e) ↦ rw e (ground arith)
  ]

  module _ (s : IsSound client) (f : Fits command.args) where
    first_fits : length (arg command 0) < name_size
    first_fits = All-get_or (λ w. length w < name_size) command.args 0 [] (omega arith) f.words

    -- The line that a `say` stores.
    pub say_exec_survives :
        length client.messages < max_msgs
        → say_exec client command
          ≡ some
              (record client { messages = client.messages ++ (unwords (filled command.args) ∷ []) })
    unfolding say_exec
    say_exec_survives h = rw (join-unwords command.args f.empty f.short) (ground arith)

    -- A client within its bounds survives every command whose words fit, and stays within them;
    -- for a line of chat it needs a free slot.
    pub execute_server_command_survives :
        (kind : Kind)
        → (kind ≡ say → length client.messages < max_msgs)
        → (client' : ChatClient) × (execute_server_command client command kind ≡ some client')
          × IsSound client'
    unfolding execute_server_command mute_exec unmute_exec rename_exec execute_connect_response
        execute_connect_failed execute_error_response execute_disconnect_response
    execute_server_command_survives say h = (
      _,
      say_exec_survives (h refl),
      record {
        name_fits = s.name_fits;
        muted = s.muted;
        count =
            omega
              (arith, h refl, length-append client.messages (unwords (filled command.args) ∷ []));
        lines = All-append _ client.messages _ s.lines (f.short, tt);
      },
    )
    execute_server_command_survives mute h = (
      _,
      refl,
      record {
        name_fits = s.name_fits;
        muted = insert-IsValid client.mute_table (arg command 0) s.muted;
        count = s.count;
        lines = s.lines;
      },
    )
    execute_server_command_survives unmute h = (
      _,
      refl,
      record {
        name_fits = s.name_fits;
        muted = remove_key-IsValid client.mute_table (arg command 0) s.muted;
        count = s.count;
        lines = s.lines;
      },
    )
    execute_server_command_survives rename h = (
      record client { name = arg command 0 },
      rw (strcpy-some name_size (arg command 0) first_fits),
      record { name_fits = first_fits; muted = s.muted; count = s.count; lines = s.lines },
    )
    execute_server_command_survives conn_success h = (
      record client { connected = true; name = arg command 0 },
      rw (strcpy-some name_size (arg command 0) first_fits),
      record { name_fits = first_fits; muted = s.muted; count = s.count; lines = s.lines },
    )
    execute_server_command_survives conn_failed h =
        (client, rw (join-unwords command.args f.empty f.short), s)
    execute_server_command_survives error h =
        (client, rw (join-unwords command.args f.empty f.short), s)
    execute_server_command_survives disconn_response h = (
      _,
      refl,
      record { name_fits = s.name_fits; muted = s.muted; count = omega arith; lines = tt },
    )
    execute_server_command_survives conn h = (client, refl, s)
    execute_server_command_survives sayto h = (client, refl, s)
    execute_server_command_survives disconn h = (client, refl, s)
    execute_server_command_survives kick h = (client, refl, s)
    execute_server_command_survives ping h = (client, refl, s)
    execute_server_command_survives retping h = (client, refl, s)
    execute_server_command_survives unknown h = (client, refl, s)
