-- ===== src/Room/Members.antt =====
-- The list of the nodes' clients: what the searches and changes of the linked list are on it.
use multithreaded_chat_appli.Base.{
  Bool, List, Text, [], ap, arith, false, none, refl, some, ◌++◌, ◌==◌, ◌∷◌, ◌≡◌,
}
use multithreaded_chat_appli.ClientList.{Client}
use multithreaded_chat_appli.ClientList.Chain.{Item, update_first}
use multithreaded_chat_appli.ClientList.Remove.{remove_first}
use multithreaded_chat_appli.Cmd.{response_buffer_size}
use multithreaded_chat_appli.Queue.{Addr}
use multithreaded_chat_appli.Server.{packet, snprintf}
use multithreaded_chat_appli.Server.View.{found, admin_address}
use multithreaded_chat_appli.Server.Handlers.{to_all}
use multithreaded_chat_appli.Room.{find, change, expel, announce, rules}

abbrev pub clients_of : List Item → List Client
clients_of [] = []
clients_of (x ∷ xs) = x.1 ∷ clients_of xs

pub clients_of-append : (xs ys : List Item) → clients_of (xs ++ ys) ≡ clients_of xs ++ clients_of ys
clients_of-append [] ys = refl
clients_of-append (x ∷ xs) ys = ap (λ r. x.1 ∷ r) (clients_of-append xs ys)

pub found-clients_of :
    (test : Client → Bool) (xs : List Item) → found test xs ≡ find test (clients_of xs)
found-clients_of test [] = refl
found-clients_of test (x ∷ xs) = ground (arith, found-clients_of test xs)

pub change-clients_of :
    (test : Client → Bool) (f : Client → Client) (xs : List Item)
    → clients_of (update_first test f xs) ≡ change test f (clients_of xs)
change-clients_of test f [] = refl
change-clients_of test f (x ∷ xs) = ground (arith, change-clients_of test f xs)

pub expel-clients_of :
    (name : Text) (xs : List Item) → clients_of (remove_first name xs) ≡ expel name (clients_of xs)
expel-clients_of name [] = refl
expel-clients_of name (x ∷ xs) = ground (arith, expel-clients_of name xs)

pub rules-clients_of :
    (xs : List Item) (addr : Addr)
    → rules (clients_of xs) addr ≡ elim (admin_address xs) [ none ↦ false | some a ↦ a == addr ]
rules-clients_of [] addr = refl
rules-clients_of (x ∷ xs) addr = refl

pub announce-clients_of :
    (body : Text) (xs : List Item) → to_all body xs ≡ announce body (clients_of xs)
announce-clients_of body [] = refl
announce-clients_of body (x ∷ xs) =
    ap
      (λ r. packet response_buffer_size (snprintf response_buffer_size body) x.1.client_address ∷ r)
      (announce-clients_of body xs)
