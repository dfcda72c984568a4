-- ===== src/Client/Sender.antt =====
-- The line that the server makes of a `say`, as a client reads its sender.
use multithreaded_chat_appli.Base.{
  ap, arith, length-append, take_self, text, ◌++◌, ◌+◌, ◌-◌, ◌∙◌, ◌∷◌, ◌≡◌,
}
use multithreaded_chat_appli.Cmd.{Command, name_size, max_message}
use multithreaded_chat_appli.ClientList.{Client}
use multithreaded_chat_appli.HashTable.{extract_username}
use multithreaded_chat_appli.HashTable.Username.{IsSender, extract_username-append}
use multithreaded_chat_appli.Join.{join_args}
use multithreaded_chat_appli.Join.Laws.{join_args-lt}
use multithreaded_chat_appli.Server.{snprintf, max_name_len}
use multithreaded_chat_appli.Server.Handlers.{said}

-- The line of a `say` is never cut, and `extract_username` reads its sender back, where the
-- sender's name is not empty, has no `:` and has less than twenty bytes.
pub extract_username-said :
    (command : Command) (sender : Client)
    → IsSender sender.client_name name_size
    → (said command sender
        ≡ sender.client_name ++ (text ": " ++ join_args command.args 0 max_message))
      × (extract_username (said command sender) name_size ≡ sender.client_name)
unfolding snprintf
extract_username-said command sender h = (
  whole,
  ap (λ m. extract_username m name_size) whole
      ∙ extract_username-append sender.client_name (b' ' ∷ join_args command.args 0 max_message)
          name_size h,
)
  where
    whole :
        said command sender
        ≡ sender.client_name ++ (text ": " ++ join_args command.args 0 max_message)
    whole =
        take_self (max_message + max_name_len + 2 - 1)
          (sender.client_name ++ (text ": " ++ join_args command.args 0 max_message))
          (omega (
            arith,
            h.fits,
            join_args-lt command.args 0 max_message (omega arith),
            length-append sender.client_name (text ": " ++ join_args command.args 0 max_message),
          ))
