-- ===== src/Server/Phases/System/Sound.antt =====
-- What every order of the steps keeps, and which steps come to an end.
use multithreaded_chat_appli.Base.{
  Bool-cases, List, Option, Option-cases, [], false, inl, inr, none, refl, some, sym, text, true, ℕ,
  ◌++◌, ◌==◌, ◌>>=◌, ◌≡◌, ◌≢◌, ◌⊎◌,
}
use mathlib.Core.Path.{subst}
use multithreaded_chat_appli.Queue.{Addr}
use multithreaded_chat_appli.Cmd.{
  name_size, Kind, conn, say, sayto, mute, unmute, rename, disconn, kick, response_buffer_size,
  Command,
}
use multithreaded_chat_appli.ClientList.{client_at}
use multithreaded_chat_appli.ClientList.Chain.{Item}
use multithreaded_chat_appli.ClientList.Refine.{
  from, add_client_to_list_refines, find_client-find_item, find_client_by_address-find_item,
}
use multithreaded_chat_appli.ClientList.{update_at}
use multithreaded_chat_appli.ClientList.Write.{update_at_held}
use multithreaded_chat_appli.ClientList.Remove.{remove_client_from_list_refines}
use multithreaded_chat_appli.Server.{
  fits, Packet, Server, arg, snprintf, is_admin, execute, relay_mute, relay_unmute,
  handle_unknown_command,
}
use multithreaded_chat_appli.Server.View.{found, broadcast-addresses, is_admin_lem}
use multithreaded_chat_appli.ClientList.Refine.{Represents}
use multithreaded_chat_appli.Server.Members.{
  rename_client-long, rename_client-none, rename_client-some,
}
use multithreaded_chat_appli.Server.Phases.Twice.{named_by}
use multithreaded_chat_appli.Server.Phases.{say_begin, say_line, say_send}
use multithreaded_chat_appli.Server.Phases.Cuts.{
  disconnect_begin, disconnect_remove, sayto_begin, sayto_send, kick_remove, kick_tell, connect_add,
  connect_greet,
}
use multithreaded_chat_appli.Server.Phases.System.{
  walks, has_head, walk_phase, arrives, has_client, arrive_phase, mark_phase, Phase, begins,
  is_admitted, has_added, has_pointers, has_line, has_node, has_private, has_removed, After,
  begin_phase, step_phase,
}

-- The list is well linked.
abbrev pub IsWell : Server → Type 0
IsWell s = (xs : List Item) × Represents s.clients xs

abbrev pub KeepsWell : After → Type 0
KeepsWell none = Unit
KeepsWell (some (s, _, _)) = IsWell s

-- The step is done, and leaves the list well linked.
abbrev pub GoesWell : After → Type 0
GoesWell none = ⊥
GoesWell (some (s, _, _)) = IsWell s

goes-KeepsWell : (o : After) → GoesWell o → KeepsWell o
goes-KeepsWell none g = absurd g
goes-KeepsWell (some (s, _, _)) g = g

Kind-discrete : Discrete Kind
Kind-discrete = hlevel

pub is_rename : (kind : Kind) → (kind ≡ rename) ⊎ (kind ≢ rename)
is_rename kind = elim (Kind-discrete kind rename) [ yes e ↦ inl e | no ne ↦ inr ne ]

-- Nothing is removed from an empty list.
pub nothing_removed :
    (s : Server) (p : ℕ) → s.clients.head ≡ none → disconnect_remove s p ≡ some (none, s)
unfolding disconnect_remove
nothing_removed s p e = rw e refl

module _ (s : Server) (xs : List Item) (v : Represents s.clients xs) (command : Command)
    (addr : Addr) (now : ℕ) where
  pub begin-GoesWell :
      (kind : Kind) → kind ≢ rename → GoesWell (begin_phase s command kind addr now)
  unfolding begin_phase connect_add say_begin sayto_begin disconnect_begin execute relay_mute
      relay_unmute handle_unknown_command
  begin-GoesWell conn h =
      let (l', e, r') = add_client_to_list_refines s.clients xs addr (arg command 0) now v in
      rw e (_, r')
  begin-GoesWell say h = (xs, v)
  begin-GoesWell sayto h =
      rw (find_client-find_item s.clients xs v (arg command 0))
        (rw (find_client_by_address-find_item s.clients xs v addr) (xs, v))
  begin-GoesWell disconn h = rw (find_client_by_address-find_item s.clients xs v addr) (xs, v)
  begin-GoesWell kick h = elim (Option-cases (is_admin s.clients addr)) [
    | inl e ↦ let answers = is_admin_lem s.clients xs addr v in absurd cc
    | inr (true, e) ↦ rw e (xs, v)
    | inr (false, e) ↦ rw e (xs, v)
  ]
  begin-GoesWell rename h = absurd (h refl)
  begin-GoesWell mute h = (xs, v)
  begin-GoesWell unmute h = (xs, v)
  begin-GoesWell _ h = (xs, v)

  rename-KeepsWell : KeepsWell (begin_phase s command rename addr now)
  unfolding begin_phase execute
  rename-KeepsWell = elim (Option-cases (found (from addr) xs)) [
    | inl e ↦ rw (rename_client-none s xs v command addr e) tt
    | inr (c, e) ↦ elim (Bool-cases (fits name_size (arg command 0))) [
      | inl h ↦ let (l', e', r') = rename_client-some s xs v command addr c e h in rw e' (_, r')
      | inr h ↦ rw (rename_client-long s xs v command addr h) tt
    ]
  ]

  -- The steps that use no pointer that was kept.
  pub admitted-GoesWell : GoesWell (step_phase s command addr now is_admitted)
  unfolding step_phase kick_remove
  admitted-GoesWell =
      let (l', e, r') = remove_client_from_list_refines s.clients xs (arg command 0) v in
      rw e (_, r')

  pub removed-GoesWell :
      (a : Option Addr) → GoesWell (step_phase s command addr now (has_removed a))
  unfolding step_phase kick_tell
  removed-GoesWell none = (xs, v)
  removed-GoesWell (some a) =
      rw
        (broadcast-addresses s.clients xs response_buffer_size
          (snprintf response_buffer_size
            (text "say$ SERVER: " ++ (arg command 0 ++ text " has been kicked")))
          v)
        (xs, v)

  -- The others.
  -- A step that leaves the server as it is.
  same-KeepsWell :
      {A : Type 0} (o : Option A) (packets : A → List Packet) (left : A → Option Phase)
      → KeepsWell (o >>= λ a. some (s, packets a, left a))
  same-KeepsWell none packets left = tt
  same-KeepsWell (some a) packets left = (xs, v)

  node-KeepsWell : (p : ℕ) → KeepsWell (step_phase s command addr now (has_node p))
  unfolding step_phase
  node-KeepsWell p = elim (Option-cases s.clients.head) [
    | inl e ↦ let nothing = nothing_removed s p e in rw nothing (xs, v)
    | inr (h, e) ↦
        let named = named_by s p h e in
        rw named (elim (Option-cases (client_at s.clients (some p))) [
          | inl f ↦ rw f tt
          | inr (c, f) ↦
              let (l', g, r') = remove_client_from_list_refines s.clients xs c.client_name v in
              rw f (rw g (_, r'))
        ])
  ]

  begin-KeepsWell : (kind : Kind) → KeepsWell (begin_phase s command kind addr now)
  begin-KeepsWell kind = elim (is_rename kind) [
    | inl e ↦ subst (λ k. KeepsWell (begin_phase s command k addr now)) (sym e) rename-KeepsWell
    | inr ne ↦ goes-KeepsWell (begin_phase s command kind addr now) (begin-GoesWell kind ne)
  ]

  pub arrive-GoesWell : (kind : Kind) → GoesWell (arrive_phase s kind addr)
  unfolding arrive_phase
  arrive-GoesWell conn = (xs, v)
  arrive-GoesWell _ = (xs, v)

  walk-KeepsWell : (node : Option ℕ) → KeepsWell (walk_phase s addr node)
  unfolding walk_phase
  walk-KeepsWell none = (xs, v)
  walk-KeepsWell (some p) = elim (Option-cases (s.clients.nodes p)) [
    | inl e ↦ rw (e, KeepsWell) tt
    | inr (n, e) ↦ elim (Bool-cases (n.client.client_address == addr)) [
      | inl f ↦ rw (e, KeepsWell) (rw f (xs, v))
      | inr f ↦ rw (e, KeepsWell) (rw f (xs, v))
    ]
  ]

  mark-KeepsWell : (p : ℕ) → KeepsWell (mark_phase s p now)
  unfolding mark_phase
  mark-KeepsWell p =
      elim (Option-cases
        (update_at s.clients (some p) (λ c. record c { last_active = now; ping_sent = 0 }))) [
          | inl e ↦ rw e tt
          | inr (l', e) ↦ rw e (_, update_at_held p _ s.clients l' xs v e)
        ]

  pub head-GoesWell : (q : Option ℕ) → GoesWell (step_phase s command addr now (has_head q))
  unfolding step_phase say_begin
  head-GoesWell q = rw (find_client_by_address-find_item s.clients xs v addr) (xs, v)

  pub step-KeepsWell : (phase : Phase) → KeepsWell (step_phase s command addr now phase)
  unfolding step_phase
  step-KeepsWell arrives =
      goes-KeepsWell (arrive_phase s command.kind addr) (arrive-GoesWell command.kind)
  step-KeepsWell (walks q) = walk-KeepsWell q
  step-KeepsWell (has_client p) = mark-KeepsWell p
  step-KeepsWell begins = begin-KeepsWell command.kind
  step-KeepsWell (has_head q) =
      goes-KeepsWell (step_phase s command addr now (has_head q)) (head-GoesWell q)
  step-KeepsWell is_admitted =
      goes-KeepsWell (step_phase s command addr now is_admitted) admitted-GoesWell
  step-KeepsWell has_added =
      same-KeepsWell (connect_greet s command addr) (λ packets. packets) (λ _. none)
  step-KeepsWell (has_pointers saying) =
      same-KeepsWell (say_line s saying command) (λ _. []) (λ m. some (has_line saying m))
  step-KeepsWell (has_line saying m) =
      same-KeepsWell (say_send s saying m) (λ packets. packets) (λ _. none)
  step-KeepsWell (has_node p) = node-KeepsWell p
  step-KeepsWell (has_private kept) =
      same-KeepsWell (sayto_send s kept command) (λ packets. packets) (λ _. none)
  step-KeepsWell (has_removed a) =
      goes-KeepsWell (step_phase s command addr now (has_removed a)) (removed-GoesWell a)
