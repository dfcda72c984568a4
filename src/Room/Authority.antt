-- ===== src/Room/Authority.antt =====
-- Who may change who is in the room, and who hears a private line.
use multithreaded_chat_appli.Base.{
  ==_iff, All, Bool, Bool-cases, List, Option, Option-cases, Text, [], ap, eq_of_some, inl, inr,
  map, none, refl, some, sym, true, ℕ, ◌∙◌, ◌∷◌, ◌≡◌, ◌≢◌, ◌⊎◌,
}
use mathlib.Core.Path.{subst}
use multithreaded_chat_appli.Base.{text, ◌++◌}
use multithreaded_chat_appli.Room.{enter}
use multithreaded_chat_appli.Server.{fits, answer_size}
use multithreaded_chat_appli.Cmd.{name_size}
use multithreaded_chat_appli.Queue.{Addr}
use multithreaded_chat_appli.Cmd.{
  Kind, conn, say, sayto, mute, unmute, rename, disconn, kick, unknown, conn_success, conn_failed,
  disconn_response, ping, retping, error, Command,
}
use multithreaded_chat_appli.ClientList.{Client}
use multithreaded_chat_appli.ClientList.Chain.{Item}
use multithreaded_chat_appli.ClientList.Refine.{from, named}
use multithreaded_chat_appli.Server.View.{found}
use multithreaded_chat_appli.Server.Handlers.{whispered, execute_sayto_lem}
use multithreaded_chat_appli.Server.{execute_sayto, arg, Server, Packet, Outcome, execute}
use multithreaded_chat_appli.Server.Valid.{IsValid}
use multithreaded_chat_appli.Room.{
  Room, Answer, find, change, rules, speak, whisper_to, leave, take_name, throw_out, respond,
}
use multithreaded_chat_appli.Room.Handlers.{room_of, Shows, execute_shown}

abbrev pub places : List Client → List Addr
places cs = map (λ (c : Client). c.client_address) cs

change-places :
    (test : Client → Bool) (f : Client → Client) (cs : List Client)
    → ((c : Client) → (f c).client_address ≡ c.client_address)
    → places (change test f cs) ≡ places cs
change-places test f [] h = refl
change-places test f (c ∷ cs) h = elim (Bool-cases (test c)) [
  | inl y ↦ rw (y, change) (ap (λ a. a ∷ places cs) (h c))
  | inr n ↦ rw (n, change) (ap (λ l. c.client_address ∷ l) (change-places test f cs h))
]

-- The members stay the same, by their addresses, or the sender may change them: it comes, it goes,
-- or it is the administrator.
abbrev pub IsLawful : Room → Kind → Addr → Room → Type 0
IsLawful r kind addr r' =
    (places r'.members ≡ places r.members)
    ⊎ ((kind ≡ conn)
        ⊎ (((kind ≡ disconn) × (find (from addr) r.members ≢ none))
            ⊎ ((kind ≡ kick) × (rules r.members addr ≡ true))))

abbrev LawfulAnswer : Room → Kind → Addr → Answer → Type 0
LawfulAnswer r kind addr none = Unit
LawfulAnswer r kind addr (some (r', packets)) = IsLawful r kind addr r'

module _ (r : Room) (command : Command) (addr : Addr) (now : ℕ) where
  speak-Lawful : LawfulAnswer r say addr (speak r command addr)
  speak-Lawful = elim (Option-cases (find (from addr) r.members)) [
    | inl e ↦ rw (e, speak) tt
    | inr (c, e) ↦ rw (e, speak) (inl refl)
  ]

  whisper-Lawful : LawfulAnswer r sayto addr (whisper_to r command addr)
  whisper-Lawful = elim (Option-cases (find (from addr) r.members)) [
    | inl e ↦ elim (Option-cases (find (named (arg command 0)) r.members)) [
      | inl e' ↦ rw (e, whisper_to) (rw e' (inl refl))
      | inr (d, e') ↦ rw (e, whisper_to) (rw e' tt)
    ]
    | inr (c, e) ↦ rw (e, whisper_to) (inl refl)
  ]

  take_name-Lawful : LawfulAnswer r rename addr (take_name r command addr)
  take_name-Lawful = elim (Option-cases (find (from addr) r.members)) [
    | inl e ↦ rw (e, take_name) tt
    | inr (c, e) ↦ elim (Bool-cases (fits name_size (arg command 0))) [
      | inl h ↦ rw (e, take_name) (rw h (inl (change-places (from addr) _ r.members (λ d. refl))))
      | inr h ↦ rw (e, take_name) (rw h tt)
    ]
  ]

  leave-Lawful : LawfulAnswer r disconn addr (leave r addr)
  leave-Lawful = elim (Option-cases (find (from addr) r.members)) [
    | inl e ↦ rw (e, leave) (inl refl)
    | inr (c, e) ↦
        let here : find (from addr) r.members ≢ none = λ q. cc in
        elim (Option-cases (find (named c.client_name) r.members)) [
          | inl e' ↦ rw (e, leave) (rw e' (inl refl))
          | inr (d, e') ↦ rw (e, leave) (rw e' (inr (inr (inl (refl, here)))))
        ]
  ]

  throw_out-Lawful : LawfulAnswer r kick addr (throw_out r command addr)
  throw_out-Lawful = elim (Bool-cases (rules r.members addr)) [
    | inl y ↦ rw (y, throw_out) (inr (inr (inr (refl, y))))
    | inr n ↦ rw (n, throw_out) (inl refl)
  ]

  respond-Lawful : (kind : Kind) → LawfulAnswer r kind addr (respond r command kind addr now)
  unfolding respond
  respond-Lawful conn =
      elim (Bool-cases (fits answer_size (text "connsuccess$ " ++ arg command 0))) [
        | inl h ↦ rw (h, enter) (inr (inl refl))
        | inr h ↦ rw (h, enter) tt
      ]
  respond-Lawful say = speak-Lawful
  respond-Lawful sayto = whisper-Lawful
  respond-Lawful disconn = leave-Lawful
  respond-Lawful rename = take_name-Lawful
  respond-Lawful kick = throw_out-Lawful
  respond-Lawful mute = inl refl
  respond-Lawful unmute = inl refl
  respond-Lawful unknown = inl refl
  respond-Lawful conn_success = inl refl
  respond-Lawful conn_failed = inl refl
  respond-Lawful disconn_response = inl refl
  respond-Lawful ping = inl refl
  respond-Lawful retping = inl refl
  respond-Lawful error = inl refl

-- The room behind a run of a handler.
shown-Lawful :
    (r : Room) (kind : Kind) (addr : Addr) (o : Outcome) (a : Answer) {s' : Server}
    {packets : List Packet}
    → Shows o a
    → LawfulAnswer r kind addr a
    → o ≡ some (s', packets)
    → (xs' : List Item) × IsValid s' xs' × IsLawful r kind addr (room_of s' xs')
shown-Lawful r kind addr o none shown lawful e = absurd cc
shown-Lawful r kind addr o (some (r', _)) {s'} (s'', xs', e', v, same_room) lawful e =
    let same_server : s'' ≡ s' = cc in
    subst (λ s. (xs : List Item) × IsValid s xs × IsLawful r kind addr (room_of s xs)) same_server
      (xs', v, subst (IsLawful r kind addr) (sym same_room) lawful)

-- A handler of a well-formed server leaves it well formed and the members by their addresses as
-- they were, unless the command is a `conn`, a `disconn` of a sender in the list, or a `kick` of
-- the administrator, who is the first of the list.
pub execute-IsLawful :
    (s : Server) (xs : List Item) (command : Command) (kind : Kind) (addr : Addr) (now : ℕ)
    → IsValid s xs
    → {s' : Server} {packets : List Packet} → execute s command kind addr now ≡ some (s', packets)
    → (xs' : List Item) × IsValid s' xs' × IsLawful (room_of s xs) kind addr (room_of s' xs')
execute-IsLawful s xs command kind addr now v e =
    shown-Lawful (room_of s xs) kind addr (execute s command kind addr now)
      (respond (room_of s xs) command kind addr now) (execute_shown s xs v command addr kind now)
      (respond-Lawful (room_of s xs) command addr now kind) e

-- What a search finds passes its test.
found-test :
    (test : Client → Bool) (xs : List Item) (c : Client) → found test xs ≡ some c → test c ≡ true
found-test test [] c e = absurd cc
found-test test (x ∷ xs) c e = elim (Bool-cases (test x.1)) [
  | inl y ↦ subst (λ d. test d ≡ true) (eq_of_some x.1 c (sym (rw (y, found)) ∙ e)) y
  | inr n ↦ found-test test xs c (sym (rw (n, found)) ∙ e)
]

-- A packet for the sender, or for the first client of the name.
abbrev pub IsFor : List Item → Text → Addr → Packet → Type 0
IsFor xs name addr p =
    (p.to ≡ addr) ⊎ ((d : Client) × (found (named name) xs ≡ some d) × (p.to ≡ d.client_address))

whispered-IsFor :
    (xs : List Item) (command : Command) (addr : Addr) (c : Client) (o : Option Client)
    → c.client_address ≡ addr
    → found (named (arg command 0)) xs ≡ o
    → All (IsFor xs (arg command 0) addr) (whispered command c o)
whispered-IsFor xs command addr c none h e = (inl h, tt)
whispered-IsFor xs command addr c (some d) h e = (inr (d, e, refl), (inl h, tt))

-- From a well-formed server, a `sayto` that runs leaves the server as it is, and each of its
-- packets goes to the sender or to the first client of the name that its first word gives.
pub execute_sayto-IsFor :
    (s : Server) (xs : List Item) (command : Command) (addr : Addr)
    → IsValid s xs
    → {s' : Server} {packets : List Packet} → execute_sayto s command addr ≡ some (s', packets)
    → (s' ≡ s) × All (IsFor xs (arg command 0) addr) packets
execute_sayto-IsFor s xs command addr v {s'} {packets} e =
    elim (Option-cases (found (from addr) xs)) [
      | inl none_here ↦ elim (Option-cases (found (named (arg command 0)) xs)) [
        | inl nobody ↦
            let runs : execute_sayto s command addr ≡ some (s, []) =
              execute_sayto_lem s xs v.linked command addr ∙ rw (none_here, nobody) in
            let same_server : s' ≡ s = cc in
            let same_packets : [] ≡ packets = cc in
            (same_server, subst (All (IsFor xs (arg command 0) addr)) same_packets tt)
        | inr (d, named_one) ↦
            let falls : execute_sayto s command addr ≡ none =
              execute_sayto_lem s xs v.linked command addr ∙ rw (none_here, named_one) in
            absurd cc
      ]
      | inr (c, here) ↦
          let sent = whispered command c (found (named (arg command 0)) xs) in
          let runs : execute_sayto s command addr ≡ some (s, sent) =
            execute_sayto_lem s xs v.linked command addr ∙ rw here in
          let same_server : s' ≡ s = cc in
          let same_packets : sent ≡ packets = cc in
          let address : c.client_address ≡ addr =
            (==_iff c.client_address addr).0 (found-test (from addr) xs c here) in
          (
            same_server,
            subst (All (IsFor xs (arg command 0) addr)) same_packets
                (whispered-IsFor xs command addr c (found (named (arg command 0)) xs) address refl),
          )
    ]
