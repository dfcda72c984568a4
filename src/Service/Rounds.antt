-- ===== src/Service/Rounds.antt =====
-- What marking an active client and a round of the inactivity check do to the room that the
-- client list stands for.
use multithreaded_chat_appli.Base.{
  List, Option-cases, [], arith, false, inl, inr, none, refl, some, sym, text, true, ℕ, ℕ_discrete,
  ◌==◌, ◌∙◌, ◌∷◌, ◌≡◌,
}
use multithreaded_chat_appli.Queue.{Addr}
use multithreaded_chat_appli.Cmd.{max_message, Command}
use multithreaded_chat_appli.ClientList.{Client, ClientList}
use multithreaded_chat_appli.ClientList.Chain.{Item}
use multithreaded_chat_appli.ClientList.Refine.{from}
use multithreaded_chat_appli.Server.{packet, Server, mark_active}
use multithreaded_chat_appli.Server.View.{found}
use multithreaded_chat_appli.Server.Valid.{IsValid}
use multithreaded_chat_appli.Server.Dispatch.{conn_or_Marks, mark_active-Marks, mark_active_conn}
use multithreaded_chat_appli.Activity.{is_late, connection_manager}
use multithreaded_chat_appli.Activity.Laws.{
  connection_manager-quiet, connection_manager-ping, connection_manager-kick,
}
use multithreaded_chat_appli.Room.{change, expel, Room, find, note_activity, look_round}
use multithreaded_chat_appli.Room.Members.{
  clients_of, found-clients_of, change-clients_of, expel-clients_of,
}
use multithreaded_chat_appli.Room.Handlers.{room_of}

-- The mark of an active client.
pub mark_shown :
    (s : Server) (xs : List Item) (command : Command) (addr : Addr) (now : ℕ)
    → IsValid s xs
    → (s' : Server) × (xs' : List Item) × (mark_active s command addr now ≡ some s')
      × IsValid s' xs'
      × (room_of s' xs' ≡ note_activity (room_of s xs) command.kind addr now)
unfolding note_activity
mark_shown s xs command addr now v = elim (conn_or_Marks command.kind) [
  | inl c ↦ (s, xs, mark_active_conn s xs v command addr now c, v, rw c refl)
  | inr m ↦
      let (l', e, v') = mark_active-Marks s xs v command addr now m in
      (
        record s { clients = l' },
        _,
        e,
        v',
        rw (m Room (room_of s xs) _) (
            rw
              (change-clients_of (from addr) (λ c. record c { last_active = now; ping_sent = 0 })
                xs)
              refl),
      )
]

module _ (r : Room) (now : ℕ) (c : Client) (e : find (is_late now) r.members ≡ some c) where
  pub look_round_ping :
      c.ping_sent == 0 ≡ true
      → look_round r now ≡ (
        record r { members = change (is_late now) (λ d. record d { ping_sent = now }) r.members },
        packet max_message (text "ping$") c.client_address ∷ [],
      )
  unfolding look_round
  look_round_ping t = rw (e, look_round) (rw t)

  pub look_round_kick :
      c.ping_sent == 0 ≡ false
      → look_round r now ≡ (
        record r { members = expel c.client_name r.members },
        packet max_message (text "disconnresponse$") c.client_address ∷ [],
      )
  unfolding look_round
  look_round_kick t = rw (e, look_round) (rw t)

-- A round of the inactivity check.
pub look_shown :
    (s : Server) (xs : List Item) (now : ℕ)
    → IsValid s xs
    → (l' : ClientList) × (xs' : List Item) × (connection_manager s.clients now
        ≡ some (l', (look_round (room_of s xs) now).1))
      × IsValid (record s { clients = l' }) xs'
      × (room_of (record s { clients = l' }) xs' ≡ (look_round (room_of s xs) now).0)
unfolding look_round
look_shown s xs now v = elim (Option-cases (found (is_late now) xs)) [
  | inl e ↦
      let e' : find (is_late now) (clients_of xs) ≡ none =
        sym (found-clients_of (is_late now) xs) ∙ e in
      (
        s.clients,
        xs,
        connection_manager-quiet s.clients xs v.linked now e ∙ rw (e', look_round),
        v,
        rw (e', look_round),
      )
  | inr (c, e) ↦
      let e' : find (is_late now) (clients_of xs) ≡ some c =
        sym (found-clients_of (is_late now) xs) ∙ e in
      elim (ℕ_discrete c.ping_sent 0) [
        | yes unpinged ↦
            let (l', did, r') = connection_manager-ping s.clients xs v.linked now c e unpinged in
            let looked = look_round_ping (room_of s xs) now c e' (ground arith) in
            (
              l',
              _,
              did ∙ rw looked refl,
              record { linked = r'; room = v.room },
              rw looked (
                  rw (change-clients_of (is_late now) (λ d. record d { ping_sent = now }) xs) refl),
            )
        | no pinged ↦
            let (l', did, r', _, _) =
              connection_manager-kick s.clients xs v.linked now c e pinged in
            let looked = look_round_kick (room_of s xs) now c e' (ground arith) in
            (
              l',
              _,
              did ∙ rw looked refl,
              record { linked = r'; room = v.room },
              rw looked (rw (expel-clients_of c.client_name xs) refl),
            )
      ]
]
