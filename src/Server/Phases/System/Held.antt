-- ===== src/Server/Phases/System/Held.antt =====
-- Threads that hold pointers into the list from an earlier step.
use multithreaded_chat_appli.Base.{
  List, Bool-cases, ◌==◌, Option, Option-cases, [], ap, arith, inl, inr, length, length-append,
  none, refl, some, ℕ, ◌++◌, ◌∷◌, ◌≡◌, ◌≤◌,
}
use mathlib.Core.Path.{subst}
use multithreaded_chat_appli.Queue.{Addr}
use multithreaded_chat_appli.Cmd.{Command}
use multithreaded_chat_appli.ClientList.{Client, client_at, write}
use multithreaded_chat_appli.ClientList.Chain.{Item, Linked}
use multithreaded_chat_appli.ClientList.Unlink.{Linked-right}
use multithreaded_chat_appli.ClientList.{update_at, ClientList}
use multithreaded_chat_appli.ClientList.Write.{update_at_held}
use multithreaded_chat_appli.ClientList.Remove.{remove_client_from_list_refines}
use multithreaded_chat_appli.Server.{Server, broadcast_from}
use multithreaded_chat_appli.Server.View.{broadcast_from-addresses}
use multithreaded_chat_appli.ClientList.Refine.{Represents}
use multithreaded_chat_appli.Server.Phases.{say_line, say_send}
use multithreaded_chat_appli.Server.Phases.Cuts.{sayto_send}
use multithreaded_chat_appli.Server.Phases.Twice.{named_by}
use multithreaded_chat_appli.Server.Phases.System.{
  walks, has_head, walk_phase, arrives, has_client, mark_phase, Phase, begins, is_admitted,
  has_added, has_pointers, has_line, has_node, has_private, has_removed, step_phase,
}
use multithreaded_chat_appli.Server.Phases.System.Sound.{nothing_removed, GoesWell}

-- The node stands in the list.
abbrev pub Stands : ℕ → List Item → Type 0
Stands p xs =
    (before : List Item) × (c : Client) × (after : List Item) × (xs ≡ before ++ ((p, c) ∷ after))

-- Likewise a pointer that is not NULL, and one that is NULL or stands in the list.
abbrev pub PointsIn : Option ℕ → List Item → Type 0
PointsIn none xs = ⊥
PointsIn (some p) xs = Stands p xs

abbrev pub MayPointIn : Option ℕ → List Item → Type 0
MayPointIn none xs = Unit
MayPointIn (some p) xs = Stands p xs

-- The pointers of a `sayto`: for an answer that nobody has the name, its sender's may be NULL.
abbrev pub ReadsIn : Option ℕ → Option ℕ → List Item → Type 0
ReadsIn none from_who xs = MayPointIn from_who xs
ReadsIn (some p) from_who xs = PointsIn from_who xs × Stands p xs

-- Every pointer that the thread is going to read through stands in the list.
abbrev pub HoldsIn : Phase → List Item → Type 0
HoldsIn (walks q) xs = MayPointIn q xs
HoldsIn (has_client p) xs = Stands p xs
HoldsIn (has_pointers saying) xs = PointsIn saying.from_who xs
HoldsIn (has_line saying m) xs = MayPointIn saying.node xs
HoldsIn (has_node p) xs = Stands p xs
HoldsIn (has_private kept) xs = ReadsIn kept.client kept.from_who xs
HoldsIn _ xs = ⊥

length_right : (before xs : List Item) → length xs ≤ length (before ++ xs)
length_right before xs = omega (arith, length-append before xs)

module _ (s : Server) (xs : List Item) (v : Represents s.clients xs) where
  Stands-client_at : (p : ℕ) → Stands p xs → (c : Client) × (client_at s.clients (some p) ≡ some c)
  unfolding client_at
  Stands-client_at p (before, c, after, e) =
      let chain =
        Linked-right (p, c) after s.clients.nodes before
          (subst (Linked s.clients.nodes) e v.linked) in
      (c, rw (chain.0, client_at))

  updated_at :
      (p : ℕ) (after : Option ℕ) (c : Client) (f : Client → Client)
      → s.clients.nodes p ≡ some (record { next = after; client = c })
      → (l' : ClientList) × (update_at s.clients (some p) f ≡ some l')
  unfolding update_at
  updated_at p after c f e = (
    record s.clients {
      nodes = write s.clients.nodes p (some (record { next = after; client = f c }));
    },
    rw (e, update_at) refl,
  )

  Stands-update_at :
      (p : ℕ)
      → Stands p xs
      → (f : Client → Client) → (l' : ClientList) × (update_at s.clients (some p) f ≡ some l')
  Stands-update_at p (before, c, after, e) f =
      let chain =
        Linked-right (p, c) after s.clients.nodes before
          (subst (Linked s.clients.nodes) e v.linked) in
      updated_at p _ c f chain.0

  points-client_at :
      (q : Option ℕ) → PointsIn q xs → (c : Client) × (client_at s.clients q ≡ some c)
  points-client_at none h = absurd h
  points-client_at (some p) h = Stands-client_at p h

  broadcast_from-some :
      (q : Option ℕ)
      → MayPointIn q xs
      → (to : List Addr) × (broadcast_from s.clients.nodes s.clients.fresh q ≡ some to)
  unfolding broadcast_from
  broadcast_from-some none h = ([], refl)
  broadcast_from-some (some p) (before, c, after, e) =
      let rest = (p, c) ∷ after in
      let chain =
        Linked-right (p, c) after s.clients.nodes before
          (subst (Linked s.clients.nodes) e v.linked) in
      (
        _,
        broadcast_from-addresses s.clients.nodes s.clients.fresh rest chain
            (omega (arith, length_right before rest, ap length e, v.enough)),
      )

  module _ (command : Command) (addr : Addr) (now : ℕ) where
    mark-GoesWell : (p : ℕ) → Stands p xs → GoesWell (mark_phase s p now)
    unfolding mark_phase
    mark-GoesWell p h =
        let (l', e) = Stands-update_at p h (λ c. record c { last_active = now; ping_sent = 0 }) in
        rw e (
          _,
          update_at_held p (λ c. record c { last_active = now; ping_sent = 0 }) s.clients l' xs v e,
        )

    walk-GoesWell : (node : Option ℕ) → MayPointIn node xs → GoesWell (walk_phase s addr node)
    unfolding walk_phase
    walk-GoesWell none h = (xs, v)
    walk-GoesWell (some p) (before, c, after, e) =
        let chain =
          Linked-right (p, c) after s.clients.nodes before
            (subst (Linked s.clients.nodes) e v.linked) in
        elim (Bool-cases (c.client_address == addr)) [
          | inl f ↦ rw (chain.0, walk_phase) (rw f (xs, v))
          | inr f ↦ rw (chain.0, walk_phase) (rw f (xs, v))
        ]

    private-GoesWell :
        (client from_who : Option ℕ)
        → ReadsIn client from_who xs
        → GoesWell (
            step_phase s command addr now
              (has_private (record { client = client; from_who = from_who })))
    unfolding step_phase sayto_send
    private-GoesWell none none h = (xs, v)
    private-GoesWell none (some q) h = let (sender, e) = Stands-client_at q h in rw e (xs, v)
    private-GoesWell (some p) from_who h =
        let (sender, e) = points-client_at from_who h.0 in
        let (receiver, e') = Stands-client_at p h.1 in rw e (rw e' (xs, v))

    -- On a server whose list is well linked, whatever came in between, a look or the mark of the
    -- dispatch's walk, or a step of a `say`, `sayto` or `disconn`, whose pointers from an earlier
    -- step stand in the list is done and leaves the list well linked; the node of the walk, the
    -- node at which a `say` starts its own, and the receiver of a `sayto`, and with it the sender,
    -- may also be NULL.
    pub held-GoesWell :
        (phase : Phase) → HoldsIn phase xs → GoesWell (step_phase s command addr now phase)
    unfolding step_phase say_line say_send sayto_send
    held-GoesWell (walks q) h = walk-GoesWell q h
    held-GoesWell (has_client p) h = mark-GoesWell p h
    held-GoesWell (has_head q) h = absurd h
    held-GoesWell arrives h = absurd h
    held-GoesWell (has_pointers saying) h =
        let (c, e) = points-client_at saying.from_who h in rw e (xs, v)
    held-GoesWell (has_line saying m) h =
        let (to, e) = broadcast_from-some saying.node h in rw e (xs, v)
    held-GoesWell (has_node p) h =
        let (c, e) = Stands-client_at p h in
        let (l', removed, r') = remove_client_from_list_refines s.clients xs c.client_name v in
        elim (Option-cases s.clients.head) [
          | inl empty ↦ let nothing = nothing_removed s p empty in rw nothing (xs, v)
          | inr (first_node, some_head) ↦
              let by_name = named_by s p first_node some_head in
              rw by_name (rw e (rw removed (_, r')))
        ]
    held-GoesWell (has_private kept) h = private-GoesWell kept.client kept.from_who h
    held-GoesWell begins h = absurd h
    held-GoesWell is_admitted h = absurd h
    held-GoesWell has_added h = absurd h
    held-GoesWell (has_removed a) h = absurd h
