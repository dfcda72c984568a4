-- ===== src/Network/Safe.antt =====
-- What the server and its clients keep of each other.
use multithreaded_chat_appli.Base.{
  All, All-append, All_left, All_right, Bool, Bool-cases, List, Option-cases, arith, false, inl,
  inr, length, ltb, none, sym, ℕ, ◌++◌, ◌∷◌, ◌≡◌, ◌≢◌,
}
use mathlib.Core.Path.{subst}
use multithreaded_chat_appli.Queue.{Addr, q_append}
use multithreaded_chat_appli.ClientList.Chain.{Item}
use multithreaded_chat_appli.Sockets.{Os}
use multithreaded_chat_appli.Server.{Packet, max_msgs}
use multithreaded_chat_appli.Room.Packets.{IsGood}
use multithreaded_chat_appli.Service.{Service, client_request}
use multithreaded_chat_appli.Service as Service
use multithreaded_chat_appli.Service.Agree.{IsReady, hall_of}
use multithreaded_chat_appli.Service.Fine.{IsOrderly, IsSane}
use multithreaded_chat_appli.Service.Orderly.{turn-IsOrderly}
use multithreaded_chat_appli.Client.Node.{ClientNode}
use multithreaded_chat_appli.Client.Node as Node
use multithreaded_chat_appli.Client.Node.Safe.{IsSafe}
use multithreaded_chat_appli.Client.Program.{Program, Datagram}
use multithreaded_chat_appli.Client.Program as Program
use multithreaded_chat_appli.Client.Program.Harmless.{LeavesSafe, turn-LeavesSafe, EventBringsMild}
use multithreaded_chat_appli.Client.Node.Heard.{stored-heard}
use multithreaded_chat_appli.Delivery.Survive.{IsMildText}
use multithreaded_chat_appli.Network.{
  Network, Step, serves, asked, works, told, Reach, here, next, is_cli_listener,
}

abbrev pub IsSafeClient : {W : Type 0} → Addr × Program W → Type 0
IsSafeClient (addr, p) = IsSafe p.node

pub record IsSafeNetwork {W : Type 0} (n : Network W) : Type 0 where
  pub items : List Item
  pub ready : IsReady n.service items
  pub orderly : IsOrderly (hall_of n.service items)
  pub clients : All IsSafeClient n.clients
  pub packets : All IsGood n.packets

-- A command that the parser may leave uninitialised is terminated in its slots.
abbrev pub IsSaneStep : {W : Type 0} {os : Os W} {n m : Network W} → Step os n m → Type 0
IsSaneStep (serves e _ _) = IsSane e
IsSaneStep _ = Unit

abbrev pub AreSane : {W : Type 0} {os : Os W} {n m : Network W} → Reach os n m → Type 0
AreSane here = Unit
AreSane (next reach t) = AreSane reach × IsSaneStep t

module _ {W : Type 0} (os : Os W) where
  replaced :
      (c d : Addr × Program W) (before after : List (Addr × Program W))
      → All IsSafeClient (before ++ (c ∷ after))
      → IsSafeClient d
      → All IsSafeClient (before ++ (d ∷ after))
  replaced c d before after h safe =
      All-append IsSafeClient before (d ∷ after) (All_left IsSafeClient before (c ∷ after) h)
        (safe, (All_right IsSafeClient before (c ∷ after) h).1)

  module _ (n : Network W) (s : IsSafeNetwork n) where
    served :
        {v : Service} {sent : List Packet} (e : Service.Event)
        → IsSane e
        → Service.turn n.service e ≡ Service.done v sent
        → IsSafeNetwork (record n { service = v; packets = n.packets ++ sent })
    served e sane q =
        let (ys, r, o, good) = turn-IsOrderly n.service s.items s.ready s.orderly e sane q in
        record {
          items = ys;
          ready = r;
          orderly = o;
          clients = s.clients;
          packets = All-append IsGood n.packets _ s.packets good;
        }

    own-Mild : (e : Program.Event) → is_cli_listener e ≡ false → EventBringsMild e
    own-Mild (Program.acts (Node.listens datagram stack) first) h = absurd cc
    own-Mild (Program.acts Node.manages first) h = tt
    own-Mild (Program.acts (Node.runs i cmd) first) h = tt
    own-Mild Program.types_pre h = tt
    own-Mild Program.types_post h = tt
    own-Mild Program.stirs_pre h = tt
    own-Mild Program.stirs_post h = tt

    pub Step-IsSafe : {m : Network W} (t : Step os n m) → IsSaneStep t → IsSafeNetwork m
    Step-IsSafe (serves e _ q) sane = served e sane q
    Step-IsSafe (asked from datagram before after at stack q) sane =
        served (Service.listens datagram stack from) tt q
    Step-IsSafe (works {q} addr p before after at e own h) sane =
        let here_safe = subst (All IsSafeClient) at s.clients in
        let safe : IsSafe p.node = (All_right IsSafeClient before _ here_safe).0 in
        record {
          items = s.items;
          ready = s.ready;
          orderly = s.orderly;
          packets = s.packets;
          clients =
              replaced (addr, p) (addr, q) before after here_safe
                (subst (LeavesSafe p.node) h (turn-LeavesSafe os p safe e (own-Mild e own)));
        }
    Step-IsSafe (told {q} packet p before after at earlier later flies rest stack size first h)
          sane =
        let here_safe = subst (All IsSafeClient) at s.clients in
        let safe : IsSafe p.node = (All_right IsSafeClient before _ here_safe).0 in
        let (fits, small, mild) =
          (All_right IsGood earlier _ (subst (All IsGood) flies s.packets)).0 in
        let e : Program.Event =
          Program.acts (Node.listens (packet.body ++ (0 ∷ rest)) stack) first in
        let brings : EventBringsMild e =
          subst IsMildText (sym (stored-heard packet.body rest stack (omega (arith, size, small))))
            mild in
        record {
          items = s.items;
          ready = s.ready;
          orderly = s.orderly;
          packets = s.packets;
          clients =
              replaced (packet.to, p) (packet.to, q) before after here_safe
                (subst (LeavesSafe p.node) h (turn-LeavesSafe os p safe e brings));
        }

  listener_survives :
      (p : Program W) (datagram stack : List ℕ) (first : Bool)
      → Program.turn os p (Program.acts (Node.listens datagram stack) first) ≢ Program.crashed
  unfolding Program.turn Program.node_step Node.turn Node.cli_listener
  listener_survives p datagram stack first q = elim (Bool-cases (ltb 0 (length datagram))) [
    | inl y ↦
        elim (Option-cases (q_append p.node.task_queue (client_request datagram stack) none)) [
          | inl z ↦ absurd cc
          | inr (r, z) ↦ absurd cc
        ]
    | inr y ↦ absurd cc
  ]

  pub crash_full :
      (p : Program W)
      → IsSafe p.node
      → (e : Program.Event) → Program.turn os p e ≡ Program.crashed
      → length p.node.client.messages ≡ max_msgs
  crash_full p s (Program.acts (Node.listens datagram stack) first) q =
      absurd (listener_survives p datagram stack first q)
  crash_full p s (Program.acts Node.manages first) q =
      subst (LeavesSafe p.node) q (turn-LeavesSafe os p s (Program.acts Node.manages first) tt)
  crash_full p s (Program.acts (Node.runs i cmd) first) q =
      subst (LeavesSafe p.node) q (turn-LeavesSafe os p s (Program.acts (Node.runs i cmd) first) tt)
  crash_full p s Program.types_pre q =
      subst (LeavesSafe p.node) q (turn-LeavesSafe os p s Program.types_pre tt)
  crash_full p s Program.types_post q =
      subst (LeavesSafe p.node) q (turn-LeavesSafe os p s Program.types_post tt)
  crash_full p s Program.stirs_pre q =
      subst (LeavesSafe p.node) q (turn-LeavesSafe os p s Program.stirs_pre tt)
  crash_full p s Program.stirs_post q =
      subst (LeavesSafe p.node) q (turn-LeavesSafe os p s Program.stirs_post tt)
