-- ===== src/Room/Packets.antt =====
-- Bounds of what the room keeps and sends.
use multithreaded_chat_appli.Base.{
  All, All-append, Bool, Bool-cases, List, Text, [], arith, drop, eq_of_some, inl, inr, length,
  length-take, ltb, map, none, some, suc, sym, take_self, text, zero, ℕ, ◌++◌, ◌-◌, ◌<◌, ◌∙◌, ◌∷◌,
  ◌≡◌, ◌≤◌,
}
use mathlib.Core.Path.{subst}
use multithreaded_chat_appli.Queue.{Addr, queue_msg_size}
use multithreaded_chat_appli.Cmd.{Command, name_size, max_message, response_buffer_size}
use multithreaded_chat_appli.ClientList.{Client}
use multithreaded_chat_appli.ClientList.Refine.{named}
use multithreaded_chat_appli.Join.{join_args}
use multithreaded_chat_appli.Server.{Packet, packet, snprintf, remember, max_msgs}
use multithreaded_chat_appli.Server.Handlers.{said}
use multithreaded_chat_appli.Delivery.Survive.{IsMild, say-IsMild}
use multithreaded_chat_appli.Room.{Room, Answer, find, change, expel, announce}

abbrev pub line_size : ℕ
line_size = 288

-- Names and lines are as long as their buffers allow.
pub record IsBounded (r : Room) : Type 0 where
  pub names : All (λ c. length c.client_name < name_size) r.members
  pub lines : All (λ h. length h < line_size) r.history

-- The text and its terminator are inside the bytes sent, these fit a cell of a queue, and a client
-- survives the words.
abbrev pub IsGood : Packet → Type 0
IsGood p = (length p.body < p.bytes) × (p.bytes ≤ queue_msg_size) × IsMild p.body

abbrev pub IsFine : Answer → Type 0
IsFine none = Unit
IsFine (some (r, packets)) = IsBounded r × All IsGood packets

pub printed :
    (bytes : ℕ) (body : Text) (addr : Addr)
    → length body < bytes
    → bytes ≤ queue_msg_size
    → IsMild body
    → IsGood (packet bytes (snprintf bytes body) addr)
unfolding snprintf
printed bytes body addr h h' m =
    subst (λ b. IsGood (packet bytes b addr)) (sym (take_self (bytes - 1) body (omega arith)))
      (h, h', m)

module _ (P : Client → Type 0) where
  pub find-All :
      (test : Client → Bool) (cs : List Client) {c : Client}
      → All P cs
      → find test cs ≡ some c
      → P c
  find-All test [] h e = absurd cc
  find-All test (d ∷ cs) h e = elim (Bool-cases (test d)) [
    | inl y ↦ subst P (eq_of_some d _ (sym (rw (y, find)) ∙ e)) h.0
    | inr n ↦ find-All test cs h.1 (sym (rw (n, find)) ∙ e)
  ]

  pub change-All :
      (test : Client → Bool) (f : Client → Client) (cs : List Client)
      → ((c : Client) → P c → P (f c))
      → All P cs
      → All P (change test f cs)
  change-All test f [] g h = tt
  change-All test f (c ∷ cs) g h = elim (Bool-cases (test c)) [
    | inl y ↦ rw (y, change, All) (g c h.0, h.1)
    | inr n ↦ rw (n, change, All) (h.0, change-All test f cs g h.1)
  ]

  pub expel-All : (name : Text) (cs : List Client) → All P cs → All P (expel name cs)
  expel-All name [] h = tt
  expel-All name (c ∷ cs) h = elim (Bool-cases (named name c)) [
    | inl y ↦ rw (y, expel, All) h.1
    | inr n ↦ rw (n, expel, All) (h.0, expel-All name cs h.1)
  ]

pub announced :
    (body : Text) (cs : List Client)
    → length body < response_buffer_size
    → IsMild body
    → All IsGood (announce body cs)
announced body [] h m = tt
announced body (c ∷ cs) h m =
    (printed response_buffer_size body c.client_address h (omega arith) m, announced body cs h m)

pub All-drop : (P : Text → Type 0) (n : ℕ) (xs : List Text) → All P xs → All P (drop n xs)
All-drop P zero xs h = h
All-drop P (suc n) [] h = tt
All-drop P (suc n) (x ∷ xs) h = All-drop P n xs h.1

pub length-said : (command : Command) (c : Client) → length (said command c) < line_size
unfolding snprintf
length-said command c =
    omega (
      arith,
      length-take 287 (c.client_name ++ (text ": " ++ join_args command.args 0 max_message)),
    )

pub remember-All :
    (history : List Text) (line : Text)
    → length line < line_size
    → All (λ h. length h < line_size) history
    → All (λ h. length h < line_size) (remember history line)
unfolding remember
remember-All history line h hs = elim (Bool-cases (ltb (length history) max_msgs)) [
  | inl y ↦ rw y (All-append _ history (line ∷ []) hs (h, tt))
  | inr n ↦ rw n hs
]

-- The lines of the history, to a new client.
pub replayed :
    (addr : Addr) (hs : List Text)
    → All (λ h. length h < line_size) hs
    → All IsGood (
        map
          (λ (h : Text).
            packet response_buffer_size (snprintf response_buffer_size (text "say$ " ++ h)) addr)
          hs)
replayed addr [] h = tt
replayed addr (line ∷ hs) h = (
  printed response_buffer_size (text "say$ " ++ line) addr (omega (arith, h.0)) (omega arith)
      (say-IsMild line (omega (arith, h.0))),
  replayed addr hs h.1,
)
