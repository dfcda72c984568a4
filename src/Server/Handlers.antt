-- ===== src/Server/Handlers.antt =====
-- Each handler over a well-linked list: its exact outcome on every branch.
use multithreaded_chat_appli.Base.{
  List, Option, Option-cases, Text, [], ap, inl, inr, map, none, some, sym, text, ◌++◌, ◌+◌, ◌∙◌,
  ◌∷◌, ◌≡◌,
}
use multithreaded_chat_appli.Queue.{Addr}
use multithreaded_chat_appli.Cmd.{Command, max_message, response_buffer_size}
use multithreaded_chat_appli.ClientList.{Client}
use multithreaded_chat_appli.ClientList.Chain.{Item}
use multithreaded_chat_appli.ClientList.Refine.{
  named, find_client-find_item, Represents, from, find_client_by_address-find_item,
}
use multithreaded_chat_appli.Join.{join_args}
use multithreaded_chat_appli.Server.{
  arg, execute_sayto, Server, Packet, packet, snprintf, remember, max_name_len, execute_say,
}
use multithreaded_chat_appli.ClientList.{client_at}
use multithreaded_chat_appli.Server.View.{
  found-find_item, find_item-none, found, addresses, client_at-find_item, broadcast-addresses,
}

-- The packets of a broadcast to the clients of a list.
abbrev pub to_all : Text → List Item → List Packet
to_all body xs =
    map (packet response_buffer_size (snprintf response_buffer_size body)) (addresses xs)

-- The line that `say` makes of a command and its sender.
abbrev pub said : Command → Client → Text
said command sender =
    snprintf (max_message + max_name_len + 2)
      (sender.client_name ++ (text ": " ++ join_args command.args 0 max_message))

abbrev pub whisper : Command → Text
whisper command = join_args command.args 1 max_message

abbrev pub to_one : Text → Addr → Packet
to_one body = packet response_buffer_size (snprintf response_buffer_size body)

-- The answer of `sayto` to a sender, by the receiver that its first word names.
abbrev pub whispered : Command → Client → Option Client → List Packet
whispered command sender none =
    to_one (text "error$ User not found. (" ++ (arg command 0 ++ text ")")) sender.client_address
    ∷ []
whispered command sender (some receiver) =
    to_one (text "say$ " ++ (sender.client_name ++ (text ":(private message) " ++ whisper command)))
      receiver.client_address
    ∷ to_one
        (text "say$ you to " ++ (arg command 0 ++ (text ":(private message) " ++ whisper command)))
        sender.client_address
    ∷ []

module _ (s : Server) (xs : List Item) (r : Represents s.clients xs) (command : Command)
    (addr : Addr) where
  -- On a well-linked list `say` faults for a stranger; else every client gets the line with the
  -- sender's name, and the history takes it while it has room.
  pub execute_say_lem : execute_say s command addr ≡ elim (found (from addr) xs) [
    | none ↦ none
    | some sender ↦ some (
      record s { chat_history = remember s.chat_history (said command sender) },
      to_all (text "say$ " ++ said command sender) xs,
    )
  ]
  unfolding execute_say
  execute_say_lem = rw (find_client_by_address-find_item s.clients xs r addr) (
      rw (client_at-find_item s.clients xs r (from addr))
        (elim (Option-cases (found (from addr) xs)) [
          | inl e ↦ rw e
          | inr (c, e) ↦ rw e (rw (broadcast-addresses s.clients xs _ _ r))
        ]))

  -- On a well-linked list `sayto` faults for a stranger if the named client is there, and does
  -- nothing if not; else the named client and the sender get
  -- the line, or the sender alone the error, and the state stays.
  pub execute_sayto_lem : execute_sayto s command addr ≡ elim (found (from addr) xs) [
    | none ↦ elim (found (named (arg command 0)) xs) [ none ↦ some (s, []) | some d ↦ none ]
    | some sender ↦ some (s, whispered command sender (found (named (arg command 0)) xs))
  ]
  unfolding execute_sayto
  execute_sayto_lem =
      rw
        (
          find_client-find_item s.clients xs r (arg command 0),
          find_client_by_address-find_item s.clients xs r addr,
        )
        (elim (Option-cases (found (named (arg command 0)) xs)) [
          | inl e ↦
              rw (find_item-none s.clients xs r (named (arg command 0)) e)
                (elim (Option-cases (found (from addr) xs)) [
                  | inl e' ↦ rw (find_item-none s.clients xs r (from addr) e') (rw (e', e))
                  | inr (c, e') ↦
                      let (p, at) = found-find_item s.clients xs r (from addr) c e' in
                      let there : client_at s.clients (some p) ≡ some c =
                        ap (client_at s.clients) (sym at)
                        ∙ client_at-find_item s.clients xs r (from addr)
                        ∙ e' in
                      rw at (rw there (rw (e', e)))
                ])
          | inr (d, e) ↦
              let (p, at) = found-find_item s.clients xs r (named (arg command 0)) d e in
              let there : client_at s.clients (some p) ≡ some d =
                ap (client_at s.clients) (sym at)
                ∙ client_at-find_item s.clients xs r (named (arg command 0))
                ∙ e in
              rw at (
                rw (client_at-find_item s.clients xs r (from addr))
                  (elim (Option-cases (found (from addr) xs)) [
                    | inl e' ↦ rw (e', e)
                    | inr (c, e') ↦ rw (e', e) (rw there)
                  ]))
        ])
