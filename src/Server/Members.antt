-- ===== src/Server/Members.antt =====
-- The handlers that change the list of clients: their exact outcome on every branch.
use multithreaded_chat_appli.Base.{
  ==_iff, Bool-cases, List, Option, Option-cases, Text, [], ap, arith, false, inl, inr, map, none,
  refl, some, sym, text, true, ℕ, ◌++◌, ◌==◌, ◌∙◌, ◌∷◌, ◌≡◌, ◌≢◌,
}
use multithreaded_chat_appli.Queue.{Addr}
use multithreaded_chat_appli.Cmd.{Command, max_message, response_buffer_size}
use multithreaded_chat_appli.ClientList.{Client, ClientList, new_client, client_at, update_at}
use multithreaded_chat_appli.ClientList.Chain.{Item, update_first}
use multithreaded_chat_appli.ClientList.Refine.{
  Represents, named, from, find_client_by_address-find_item, add_client_to_list_refines,
}
use multithreaded_chat_appli.ClientList.Update.{update_at_refines}
use multithreaded_chat_appli.ClientList.Remove.{
  remove_first, address_of, remove_client_from_list_refines,
}
use multithreaded_chat_appli.Cmd.{name_size}
use multithreaded_chat_appli.Server.{
  fits, answer_size, Server, Packet, packet, arg, snprintf, recent_history, connect_to_server,
  disconnect, rename_client, execute_kick,
}
use multithreaded_chat_appli.Server.View.{
  found, admin_address, client_at-find_item, found-find_item, find_item-none, broadcast-addresses,
  is_admin_lem,
}
use multithreaded_chat_appli.Server.Handlers.{to_all}

abbrev pub farewell : Addr → Packet
farewell = packet max_message (text "disconnresponse$")

update_at_null : (l : ClientList) (f : Client → Client) → update_at l none f ≡ none
unfolding update_at
update_at_null l f = refl

pub address_of-found :
    (name : Text) (xs : List Item)
    → address_of name xs
      ≡ elim (found (named name) xs) [ none ↦ none | some d ↦ some d.client_address ]
address_of-found name [] = refl
address_of-found name (x ∷ xs) = elim (Bool-cases (named name x.1)) [
  | inl e ↦ ground arith
  | inr e ↦ ground (arith, address_of-found name xs)
]

-- What `is_admin` answers, by the address of the first client.
pub refuses :
    (admin : Option Addr) (addr : Addr)
    → admin ≢ some addr
    → elim admin [ none ↦ false | some a ↦ a == addr ] ≡ false
refuses none addr h = refl
refuses (some a) addr h = elim (Bool-cases (a == addr)) [
  | inl e ↦ absurd (h (ap some ((==_iff a addr).0 e)))
  | inr e ↦ e
]

pub admits :
    (admin : Option Addr) (addr : Addr)
    → admin ≡ some addr
    → elim admin [ none ↦ false | some a ↦ a == addr ] ≡ true
admits admin addr h = rw h ((==_iff addr addr).1 refl)

module _ (s : Server) (xs : List Item) (r : Represents s.clients xs) (command : Command)
    (addr : Addr) where
  -- On a well-linked list a `conn` adds its sender behind all others, whoever is there already,
  -- and answers with the name, which fits into the answer, and the last lines of the history.
  pub connect_to_server_lem :
      (now : ℕ)
      → fits answer_size (text "connsuccess$ " ++ arg command 0) ≡ true
      → (l' : ClientList) × (connect_to_server s command addr now
          ≡ some (
            record s { clients = l' },
            packet max_message (text "connsuccess$ " ++ arg command 0) addr
                ∷ map
                    (λ (h : Text).
                      packet response_buffer_size
                        (snprintf response_buffer_size (text "say$ " ++ h))
                        addr)
                    (recent_history s.chat_history),
          ))
        × Represents l' (xs ++ ((s.clients.fresh, new_client addr (arg command 0) now) ∷ []))
  unfolding connect_to_server
  connect_to_server_lem now h =
      let (l', e, r') = add_client_to_list_refines s.clients xs addr (arg command 0) now r in
      (l', rw e (rw h), r')

  -- A `conn` with a longer name writes past its answer.
  pub connect_to_server-long :
      (now : ℕ)
      → fits answer_size (text "connsuccess$ " ++ arg command 0) ≡ false
      → connect_to_server s command addr now ≡ none
  unfolding connect_to_server
  connect_to_server-long now h =
      let (l', e, r') = add_client_to_list_refines s.clients xs addr (arg command 0) now r in
      rw e (rw h)

  -- A `rename` from a stranger faults.
  pub rename_client-none : found (from addr) xs ≡ none → rename_client s command addr ≡ none
  unfolding rename_client
  rename_client-none e =
      rw (find_client_by_address-find_item s.clients xs r addr)
        (elim (Bool-cases (fits name_size (arg command 0))) [
          | inl h ↦
              rw h
                (rw (find_item-none s.clients xs r (from addr) e) (rw (update_at_null s.clients _)))
          | inr h ↦ rw h
        ])

  -- A `rename` to a name that does not fit into the node writes past it, or faults before.
  pub rename_client-long :
      fits name_size (arg command 0) ≡ false → rename_client s command addr ≡ none
  unfolding rename_client
  rename_client-long h = rw (find_client_by_address-find_item s.clients xs r addr) (rw h)

  -- On a well-linked list a `rename` from a client gives the first client with the sender's
  -- address the new name, which fits into the node, and answers the sender; the list stays well linked.
  pub rename_client-some :
      (c : Client)
      → found (from addr) xs ≡ some c
      → fits name_size (arg command 0) ≡ true
      → (l' : ClientList) × (rename_client s command addr
          ≡ some (
            record s { clients = l' },
            packet max_message (snprintf max_message (text "rename$ " ++ arg command 0)) addr ∷ [],
          ))
        × Represents l'
            (update_first (from addr) (λ d. record d { client_name = arg command 0 }) xs)
  unfolding rename_client
  rename_client-some c e h =
      let (p, at) = found-find_item s.clients xs r (from addr) c e in
      let (l', e', r') =
        update_at_refines (from addr) (λ d. record d { client_name = arg command 0 }) s.clients xs p
          r at in
      (l', rw (find_client_by_address-find_item s.clients xs r addr) (rw h (rw at (rw e'))), r')

  -- A `disconn` from a stranger does nothing.
  pub disconnect-none : found (from addr) xs ≡ none → disconnect s addr ≡ some (s, [])
  unfolding disconnect
  disconnect-none e =
      rw (find_client_by_address-find_item s.clients xs r addr)
        (rw (find_item-none s.clients xs r (from addr) e))

  -- On a well-linked list a `disconn` from a client removes the first client with the sender's
  -- name, which gets the answer, and the list stays well linked.
  pub disconnect-some :
      (c d : Client)
      → found (from addr) xs ≡ some c
      → found (named c.client_name) xs ≡ some d
      → (l' : ClientList) × (disconnect s addr
          ≡ some (record s { clients = l' }, farewell d.client_address ∷ []))
        × Represents l' (remove_first c.client_name xs)
  unfolding disconnect
  disconnect-some c d e e' =
      let (p, at) = found-find_item s.clients xs r (from addr) c e in
      let (l', removed, r') = remove_client_from_list_refines s.clients xs c.client_name r in
      let gone : address_of c.client_name xs ≡ some d.client_address =
        address_of-found c.client_name xs ∙ rw e' in
      let reads =
        ap (client_at s.clients) (sym at) ∙ client_at-find_item s.clients xs r (from addr) ∙ e in
      (
        l',
        rw (find_client_by_address-find_item s.clients xs r addr)
            (rw at (rw reads (rw removed (rw gone)))),
        r',
      )

  -- On a well-linked list a `kick` from an address that is not the first client's changes nothing
  -- and is refused.
  pub execute_kick_refused :
      admin_address xs ≢ some addr
      → execute_kick s command addr
        ≡ some (
          s,
          packet max_message
                (snprintf max_message (text "error$ Permission denied. Only admin can kick users."))
                addr
              ∷ [],
        )
  unfolding execute_kick
  execute_kick_refused h =
      rw (is_admin_lem s.clients xs addr r) (rw (refuses (admin_address xs) addr h))

  -- On a well-linked list a `kick` from the first client removes the first client of that name,
  -- who gets the answer, and tells the others; with no such client nothing is sent. The list stays
  -- well linked.
  pub execute_kick_admin :
      admin_address xs ≡ some addr
      → (l' : ClientList) × (execute_kick s command addr
          ≡ some (
            record s { clients = l' },
            elim (found (named (arg command 0)) xs) [
              | none ↦ []
              | some d ↦
                  farewell d.client_address
                  ∷ to_all
                      (text "say$ SERVER: " ++ (arg command 0 ++ text " has been kicked"))
                      (remove_first (arg command 0) xs)
            ],
          ))
        × Represents l' (remove_first (arg command 0) xs)
  unfolding execute_kick
  execute_kick_admin h =
      let (l', removed, r') = remove_client_from_list_refines s.clients xs (arg command 0) r in
      (
        l',
        rw (is_admin_lem s.clients xs addr r) (
            rw (admits (admin_address xs) addr h) (
              rw removed (
                rw (address_of-found (arg command 0) xs)
                  (elim (Option-cases (found (named (arg command 0)) xs)) [
                    | inl e ↦ rw e
                    | inr (d, e) ↦ rw e (rw (broadcast-addresses l' _ _ _ r'))
                  ])))),
        r',
      )
