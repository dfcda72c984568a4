-- ===== src/Tests/Lists.antt =====
-- Tests of the linked list of clients.
use multithreaded_chat_appli.Base.{none, refl, same, some, text, ◌≡◌}
use multithreaded_chat_appli.ClientList.{
  walk, ClientList, find_client, find_client_by_address, remove_client_from_list,
}
use multithreaded_chat_appli.ClientList.Refine.{Represents}
use multithreaded_chat_appli.ClientList.Remove.{
  address_of, remove_first, remove_client_from_list_refines,
}
use multithreaded_chat_appli.Tests.Data.{two_clients, two_items, two_clients-Represents}

remove_client_from_list_refines_example :
    (l' : ClientList) × (remove_client_from_list two_clients (text "bob")
      ≡ some (address_of (text "bob") two_items, l'))
    × Represents l' (remove_first (text "bob") two_items)
remove_client_from_list_refines_example =
    remove_client_from_list_refines two_clients two_items (text "bob") two_clients-Represents

-- The two names and addresses that are there are found, others are not.
find_bob : find_client two_clients (text "bob") ≡ some (some 1)
unfolding find_client walk same
find_bob = refl

find_nobody : find_client_by_address two_clients 33 ≡ some none
unfolding find_client_by_address walk
find_nobody = refl
