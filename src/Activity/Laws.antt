-- ===== src/Activity/Laws.antt =====
-- What a round of `connection_manager` does to a well-linked list.
use multithreaded_chat_appli.Base.{
  Bool, List, Option, [], ap, arith, eq_of_some, false, none, some, sym, text, true, ℕ, ◌-◌, ◌<◌,
  ◌==◌, ◌∙◌, ◌∷◌, ◌≡◌, ◌≢◌,
}
use multithreaded_chat_appli.Queue.{Addr}
use multithreaded_chat_appli.Cmd.{max_message}
use multithreaded_chat_appli.ClientList.{
  remove_client_from_list, Client, ClientList, walk, client_at,
}
use multithreaded_chat_appli.ClientList.Chain.{Item, walk-find_item, find_item, update_first}
use multithreaded_chat_appli.ClientList.Refine.{Represents}
use multithreaded_chat_appli.ClientList.Update.{update_at_refines}
use multithreaded_chat_appli.ClientList.Remove.{remove_first, remove_client_from_list_refines}
use multithreaded_chat_appli.Server.{packet, snprintf}
use multithreaded_chat_appli.Server.View.{
  found, client_at-find_item, found-find_item, find_item-none,
}
use multithreaded_chat_appli.Activity.{
  Round, send_ping, kick_silent, inactivity_threshold, ping_timeout, is_late, connection_manager,
}

-- What the search finds passes its test.
found-test :
    (test : Client → Bool) (xs : List Item) (c : Client) → found test xs ≡ some c → test c ≡ true
found-test test [] c e = cc
found-test test (x ∷ xs) c e = ground (arith, found-test test xs c, eq_of_some x.1 c)

late_silent :
    (current_time : ℕ) (c : Client)
    → is_late current_time c ≡ true
    → inactivity_threshold < current_time - c.last_active
unfolding is_late
late_silent current_time c e = ground arith

late_unanswered :
    (current_time : ℕ) (c : Client)
    → is_late current_time c ≡ true
    → c.ping_sent ≢ 0
    → ping_timeout < current_time - c.ping_sent
unfolding is_late
late_unanswered current_time c e pinged = ground arith

module _ (l : ClientList) (xs : List Item) (r : Represents l xs) (current_time : ℕ) where
  walk_eq :
      walk l.nodes (is_late current_time) l.fresh l.head
      ≡ some (find_item (is_late current_time) xs)
  walk_eq = rw r.head (walk-find_item l.nodes (is_late current_time) l.fresh xs r.linked r.enough)

  -- On a well-linked list without a client that is silent and has no ping to wait for, a round of
  -- the inactivity check changes nothing and sends nothing.
  pub connection_manager-quiet :
      found (is_late current_time) xs ≡ none → connection_manager l current_time ≡ some (l, [])
  unfolding connection_manager
  connection_manager-quiet e = rw walk_eq (rw (find_item-none l xs r (is_late current_time) e))

  -- On a well-linked list, when the first client that is silent and has no ping to wait for was
  -- not pinged, a round of the inactivity check pings it, notes the time, and removes nobody.
  pub connection_manager-ping :
      (c : Client)
      → found (is_late current_time) xs ≡ some c
      → c.ping_sent ≡ 0
      → (l' : ClientList) × (connection_manager l current_time
          ≡ some (l', packet max_message (text "ping$") c.client_address ∷ []))
        × Represents l'
            (update_first (is_late current_time) (λ d. record d { ping_sent = current_time }) xs)
  unfolding connection_manager send_ping kick_silent snprintf
  connection_manager-ping c e unpinged =
      let (p, at) = found-find_item l xs r (is_late current_time) c e in
      let (l', updated, r') =
        update_at_refines (is_late current_time) (λ d. record d { ping_sent = current_time }) l xs p
          r at in
      let reads =
        ap (client_at l) (sym at) ∙ client_at-find_item l xs r (is_late current_time) ∙ e in
      (l', rw walk_eq (rw at (rw reads (rw unpinged (rw updated)))), r')

  kick_silent_eq :
      (c : Client) (l' : ClientList) {a : Option Addr}
      → remove_client_from_list l c.client_name ≡ some (a, l')
      → kick_silent l c
        ≡ some (l', packet max_message (text "disconnresponse$") c.client_address ∷ [])
  unfolding kick_silent snprintf
  kick_silent_eq c l' e = rw e

  pinged_before :
      (p : ℕ) (c : Client)
      → c.ping_sent ≢ 0
      → elim (c.ping_sent == 0) as (λ _. Round) [
        | true ↦ send_ping l p c current_time
        | false ↦ kick_silent l c
      ]
        ≡ kick_silent l c
  pinged_before p c pinged = let sent : c.ping_sent == 0 ≡ false = ground arith in rw sent

  -- On a well-linked list, when the first client that is silent and has no ping to wait for was
  -- pinged before, a round of the inactivity check tells it and removes the first client of its
  -- name; it has then been silent for more than 180 seconds, and its ping is without an answer for
  -- more than 10.
  pub connection_manager-kick :
      (c : Client)
      → found (is_late current_time) xs ≡ some c
      → c.ping_sent ≢ 0
      → (l' : ClientList) × (connection_manager l current_time
          ≡ some (l', packet max_message (text "disconnresponse$") c.client_address ∷ []))
        × Represents l' (remove_first c.client_name xs)
        × (inactivity_threshold < current_time - c.last_active)
        × (ping_timeout < current_time - c.ping_sent)
  unfolding connection_manager send_ping kick_silent snprintf
  connection_manager-kick c e pinged =
      let (p, at) = found-find_item l xs r (is_late current_time) c e in
      let (l', removed, r') = remove_client_from_list_refines l xs c.client_name r in
      let reads =
        ap (client_at l) (sym at) ∙ client_at-find_item l xs r (is_late current_time) ∙ e in
      let late = found-test (is_late current_time) xs c e in
      let kicked = kick_silent_eq c l' removed in
      (
        l',
        rw walk_eq (rw at (rw reads (pinged_before p c pinged ∙ kicked))),
        r',
        late_silent current_time c late,
        late_unanswered current_time c late pinged,
      )
