-- ===== src/Server/Dispatch.antt =====
-- `spawn_execute_command_threads`: which commands read through NULL, and that all others give a
-- well-formed server again.
use multithreaded_chat_appli.Base.{
  List, Option, ap, arith, false, inl, inr, none, refl, some, sym, true, ℕ, ◌∙◌, ◌≡◌, ◌≢◌, ◌⊎◌,
}
use multithreaded_chat_appli.Queue.{Addr}
use multithreaded_chat_appli.Cmd.{
  conn_success, conn_failed, disconn_response, ping, error, Kind, conn, say, sayto, mute, unmute,
  rename, disconn, kick, retping, unknown, Command,
}
use multithreaded_chat_appli.ClientList.{Client, ClientList}
use multithreaded_chat_appli.ClientList.Chain.{Item, update_first}
use multithreaded_chat_appli.ClientList.Refine.{from, named}
use multithreaded_chat_appli.ClientList.Update.{update_client_activity_refines}
use multithreaded_chat_appli.Server.{
  arg, mark_active, Server, execute, spawn_execute_command_threads,
}
use multithreaded_chat_appli.Server.View.{found}
use multithreaded_chat_appli.Server.Valid.{
  IsHeard, fits_name, found-changed, IsValid, Survives, reads_sender, found-update_first-none,
  found-update_first-some,
}
use multithreaded_chat_appli.Server.Execute.{execute_faults, execute-Survives}

-- The test on the kind that decides about the mark.
abbrev pub Marks : Kind → Type 1
Marks kind = (A : Type 0) (a b : A) → elim kind as (λ _. A) [ conn ↦ a | _ ↦ b ] ≡ b

pub conn_or_Marks : (kind : Kind) → (kind ≡ conn) ⊎ Marks kind
conn_or_Marks conn = inl refl
conn_or_Marks conn_success = inr (λ A a b. refl)
conn_or_Marks conn_failed = inr (λ A a b. refl)
conn_or_Marks say = inr (λ A a b. refl)
conn_or_Marks sayto = inr (λ A a b. refl)
conn_or_Marks mute = inr (λ A a b. refl)
conn_or_Marks unmute = inr (λ A a b. refl)
conn_or_Marks rename = inr (λ A a b. refl)
conn_or_Marks disconn = inr (λ A a b. refl)
conn_or_Marks disconn_response = inr (λ A a b. refl)
conn_or_Marks kick = inr (λ A a b. refl)
conn_or_Marks ping = inr (λ A a b. refl)
conn_or_Marks retping = inr (λ A a b. refl)
conn_or_Marks error = inr (λ A a b. refl)
conn_or_Marks unknown = inr (λ A a b. refl)

-- The address of a client stays when its time stamps change.
touch : ℕ → Client → Client
touch now c = record c { last_active = now; ping_sent = 0 }

module _ (s : Server) (xs : List Item) (v : IsValid s xs) (command : Command) (addr : Addr)
    (now : ℕ) where
  -- What the dispatch does with a command other than `conn`: it runs the handler over the list
  -- that has the sender marked as active.
  spawn-Marks :
      Marks command.kind
      → (l' : ClientList) × (spawn_execute_command_threads s command addr now
          ≡ execute (record s { clients = l' }) command command.kind addr now)
        × IsValid (record s { clients = l' }) (update_first (from addr) (touch now) xs)
  unfolding spawn_execute_command_threads touch
  spawn-Marks ne =
      let (l', e, r') = update_client_activity_refines s.clients xs addr now v.linked in
      (
        l',
        rw (ne (Option ClientList) (some s.clients) _) (rw e),
        record { linked = r'; room = v.room },
      )

  -- The mark alone.
  pub mark_active-Marks :
      Marks command.kind
      → (l' : ClientList) × (mark_active s command addr now ≡ some (record s { clients = l' }))
        × IsValid
            (record s { clients = l' })
            (update_first (from addr) (λ c. record c { last_active = now; ping_sent = 0 }) xs)
  unfolding mark_active
  mark_active-Marks ne =
      let (l', e, r') = update_client_activity_refines s.clients xs addr now v.linked in
      (
        l',
        rw (ne (Option ClientList) (some s.clients) _) (rw e),
        record { linked = r'; room = v.room },
      )

  pub mark_active_conn : command.kind ≡ conn → mark_active s command addr now ≡ some s
  unfolding mark_active
  mark_active_conn e = rw e

  spawn_conn :
      command.kind ≡ conn
      → spawn_execute_command_threads s command addr now ≡ execute s command conn addr now
  unfolding spawn_execute_command_threads
  spawn_conn e = rw e

  talks : reads_sender command.kind ≡ true → command.kind ≢ conn
  talks t e = ground (arith, sym (ap reads_sender e) ∙ t)

  -- A client of the list is in the marked one.
  still :
      (reads_sender command.kind ≡ false) ⊎ (c : Client) × (found (from addr) xs ≡ some c)
      → (reads_sender command.kind ≡ false)
        ⊎ (c : Client) × (found (from addr) (update_first (from addr) (touch now) xs) ≡ some c)
  unfolding touch
  still (inl n) = inl n
  still (inr (c, e)) =
      inr (touch now c, found-update_first-some (from addr) (touch now) (λ c. refl) xs c e)

  -- The client that a `sayto` names is in the marked list.
  still_heard :
      IsHeard xs command command.kind
      → IsHeard (update_first (from addr) (touch now) xs) command command.kind
  unfolding touch
  still_heard (inl other) = inl other
  still_heard (inr (d, e)) =
      inr (found-changed (from addr) (named (arg command 0)) (touch now) (λ c. refl) xs d e)

  -- In a well-formed server a `say` or a `rename` from an address that is not in the list, and a
  -- `sayto` from it to a name that is in the list, read through NULL.
  pub spawn_execute_command_threads-none :
      reads_sender command.kind ≡ true
      → found (from addr) xs ≡ none
      → IsHeard xs command command.kind
      → spawn_execute_command_threads s command addr now ≡ none
  unfolding touch
  spawn_execute_command_threads-none t e heard = elim (conn_or_Marks command.kind) [
    | inl c ↦ absurd (talks t c)
    | inr m ↦
        let (l', step, v') = spawn-Marks m in
        step
        ∙ execute_faults (record s { clients = l' }) _ v' command addr now command.kind t
            (found-update_first-none (from addr) (touch now) (λ c. refl) xs e) (still_heard heard)
  ]

  -- From a well-formed server every command other than `say`, `sayto` and `rename`, and these
  -- three from a client of the list, come to their end without a read through NULL or a write past
  -- an array, with the list well linked and the history within its array, where the name of a
  -- `conn` or `rename` fits where the handler writes it.
  pub spawn_execute_command_threads-Survives :
      fits_name command command.kind ≡ true
      → (reads_sender command.kind ≡ false) ⊎ (c : Client) × (found (from addr) xs ≡ some c)
      → Survives (spawn_execute_command_threads s command addr now)
  unfolding touch
  spawn_execute_command_threads-Survives fit h = elim (conn_or_Marks command.kind) [
    | inl c ↦
        let (s', packets, xs', e, v') =
          execute-Survives s xs v command addr now conn (sym (ap (fits_name command) c) ∙ fit)
            (inl refl) in
        (s', packets, xs', spawn_conn c ∙ e, v')
    | inr m ↦
        let (l', step, v') = spawn-Marks m in
        let (s', packets, xs', e, v'') =
          execute-Survives (record s { clients = l' }) _ v' command addr now command.kind fit
            (still h) in
        (s', packets, xs', step ∙ e, v'')
  ]
