-- ===== src/Server/Execute.antt =====
-- The `switch` of `spawn_execute_command_threads`: which handlers read through NULL for a stranger,
-- and that all others come to their end.
use multithreaded_chat_appli.Base.{
  ==_iff, Bool-cases, List, Option-cases, [], ap, arith, eq_of_some, false, inl, inr, none, refl,
  some, sym, true, ℕ, ◌==◌, ◌∙◌, ◌≡◌, ◌≢◌, ◌⊎◌,
}
use multithreaded_chat_appli.Queue.{Addr}
use multithreaded_chat_appli.Cmd.{
  conn_success, conn_failed, disconn_response, ping, error, Kind, conn, say, sayto, mute, unmute,
  rename, disconn, kick, retping, unknown, Command,
}
use multithreaded_chat_appli.ClientList.{Client}
use multithreaded_chat_appli.ClientList.Chain.{Item}
use multithreaded_chat_appli.ClientList.Refine.{from}
use multithreaded_chat_appli.Server.{
  Server, remember, disconnect, execute, execute_kick, relay_mute, relay_unmute,
  handle_unknown_command,
}
use multithreaded_chat_appli.Server.View.{found, admin_address}
use multithreaded_chat_appli.Server.Handlers.{execute_say_lem, execute_sayto_lem, said}
use multithreaded_chat_appli.Server.Members.{
  connect_to_server_lem, rename_client-none, rename_client-some, disconnect-none, disconnect-some,
  execute_kick_refused, execute_kick_admin,
}
use multithreaded_chat_appli.Server.Valid.{
  IsHeard, fits_name, IsValid, Survives, reads_sender, length-remember, found-named, taken,
}

module _ (s : Server) (xs : List Item) (v : IsValid s xs) (command : Command) (addr : Addr)
    (now : ℕ) where
  pub execute_faults :
      (kind : Kind)
      → reads_sender kind ≡ true
      → found (from addr) xs ≡ none
      → IsHeard xs command kind
      → execute s command kind addr now ≡ none
  unfolding execute
  execute_faults say t e heard = execute_say_lem s xs v.linked command addr ∙ rw e
  execute_faults sayto t e (inl other) = absurd (other refl)
  execute_faults sayto t e (inr (d, there)) =
      execute_sayto_lem s xs v.linked command addr ∙ rw (e, there)
  execute_faults rename t e heard = rename_client-none s xs v.linked command addr e
  execute_faults conn t e heard = cc
  execute_faults mute t e heard = cc
  execute_faults unmute t e heard = cc
  execute_faults disconn t e heard = cc
  execute_faults kick t e heard = cc
  execute_faults retping t e heard = cc
  execute_faults unknown t e heard = cc
  execute_faults _ t e heard = cc

  disconnect-Survives : Survives (disconnect s addr)
  disconnect-Survives = elim (Option-cases (found (from addr) xs)) [
    | inl e ↦ (s, [], xs, disconnect-none s xs v.linked command addr e, v)
    | inr (c, e) ↦
        let (d, e') = found-named (from addr) xs c e in
        let (l', done, r') = disconnect-some s xs v.linked command addr c d e e' in
        (_, _, _, done, record { linked = r'; room = v.room })
  ]

  refused : (a : Addr) → a == addr ≡ false → some a ≢ some addr
  refused a n e = ground (arith, ==_iff a addr, eq_of_some a addr e)

  kick-Survives : Survives (execute_kick s command addr)
  kick-Survives = elim (Option-cases (admin_address xs)) [
    | inl e ↦ (s, _, xs, execute_kick_refused s xs v.linked command addr (λ e'. cc), v)
    | inr (a, e) ↦ elim (Bool-cases (a == addr)) [
      | inl y ↦
          let (l', done, r') =
            execute_kick_admin s xs v.linked command addr (e ∙ ap some ((==_iff a addr).0 y)) in
          (_, _, _, done, record { linked = r'; room = v.room })
      | inr n ↦ (
        s,
        _,
        xs,
        execute_kick_refused s xs v.linked command addr (λ e'. refused a n (sym e ∙ e')),
        v,
      )
    ]
  ]

  -- Each handler but the three that read the sender's node comes to its end for any sender, if the
  -- name that it writes fits.
  pub execute-Survives :
      (kind : Kind)
      → fits_name command kind ≡ true
      → (reads_sender kind ≡ false) ⊎ (c : Client) × (found (from addr) xs ≡ some c)
      → Survives (execute s command kind addr now)
  unfolding execute relay_mute relay_unmute handle_unknown_command
  execute-Survives conn fit h =
      let (l', done, r') = connect_to_server_lem s xs v.linked command addr now fit in
      (_, _, _, done, record { linked = r'; room = v.room })
  execute-Survives say fit (inl n) = cc
  execute-Survives say fit (inr (c, e)) = (
    record s { chat_history = remember s.chat_history (said command c) },
    _,
    xs,
    execute_say_lem s xs v.linked command addr ∙ taken (found (from addr) xs) _ _ c e,
    record { linked = v.linked; room = length-remember s.chat_history (said command c) v.room },
  )
  execute-Survives sayto fit (inl n) = cc
  execute-Survives sayto fit (inr (c, e)) = (
    s,
    _,
    xs,
    execute_sayto_lem s xs v.linked command addr ∙ taken (found (from addr) xs) _ _ c e,
    v,
  )
  execute-Survives rename fit (inl n) = cc
  execute-Survives rename fit (inr (c, e)) =
      let (l', done, r') = rename_client-some s xs v.linked command addr c e fit in
      (_, _, _, done, record { linked = r'; room = v.room })
  execute-Survives disconn fit h = disconnect-Survives
  execute-Survives kick fit h = kick-Survives
  execute-Survives mute fit h = (s, _, xs, refl, v)
  execute-Survives unmute fit h = (s, _, xs, refl, v)
  execute-Survives unknown fit h = (s, _, xs, refl, v)
  execute-Survives conn_success fit h = (s, [], xs, refl, v)
  execute-Survives conn_failed fit h = (s, [], xs, refl, v)
  execute-Survives disconn_response fit h = (s, [], xs, refl, v)
  execute-Survives ping fit h = (s, [], xs, refl, v)
  execute-Survives retping fit h = (s, [], xs, refl, v)
  execute-Survives error fit h = (s, [], xs, refl, v)
