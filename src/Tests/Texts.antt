-- ===== src/Tests/Texts.antt =====
-- Tests of the texts: parsing, joins, the set of names.
use multithreaded_chat_appli.Base.{List, Text, [], arith, refl, text, ◌++◌, ◌∷◌, ◌≡◌}
use multithreaded_chat_appli.Cmd.{name_size, max_message, fill_args}
use multithreaded_chat_appli.Join.{join_args, join_args_from}
use multithreaded_chat_appli.HashTable.{contains, empty_table, extract_username}
use multithreaded_chat_appli.HashTable.Laws.{
  IsValid, empty_table-IsValid, Change, add, drop_name, apply_all, change_set_all,
  apply_all_refines,
}
use multithreaded_chat_appli.Server.Handlers.{said}
use multithreaded_chat_appli.Client.Sender.{extract_username-said}
use multithreaded_chat_appli.Tests.Data.{ada, command_with}

abbrev long_words : List Text
long_words = text "a" ∷ text "abcdefghijklmnopqrstuvwxyz" ∷ []

-- The second word is cut to nineteen bytes.
cut_word : fill_args 3 long_words ≡ text "a" ∷ text "abcdefghijklmnopqrs" ∷ [] ∷ []
unfolding fill_args
cut_word = refl

abbrev slots : List Text
slots = text "to" ∷ text "hello" ∷ text "there" ∷ [] ∷ text "old" ∷ []

-- With eight bytes there is no room for the second word, and its space stays.
no_room : join_args slots 1 9 ≡ text "hello "
unfolding join_args join_args_from
no_room = refl

abbrev changes : List Change
changes = add (text "eve") ∷ add (text "bob") ∷ drop_name (text "eve") ∷ []

apply_all_refines_example :
    IsValid (apply_all empty_table changes)
    × (contains (apply_all empty_table changes) ≡ change_set_all (contains empty_table) changes)
apply_all_refines_example = apply_all_refines changes empty_table empty_table-IsValid

extract_username-said_example :
    (said (command_with (text "hi") []) ada
      ≡ text "ada" ++ (text ": " ++ join_args (text "hi" ∷ [] ∷ [] ∷ []) 0 max_message))
    × (extract_username (said (command_with (text "hi") []) ada) name_size ≡ text "ada")
extract_username-said_example = extract_username-said (command_with (text "hi") []) ada (record {
  letters = (omega arith, (omega arith, (omega arith, tt)));
  some_letter = omega arith;
  fits = omega arith;
})
