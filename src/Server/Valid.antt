-- ===== src/Server/Valid.antt =====
-- A well-formed server, and the searches behind a change of the list that keeps the sender's place.
use multithreaded_chat_appli.Base.{
  Bool, Bool-cases, List, Option, Text, [], ap, arith, eq_of_some, false, inl, inr, length,
  length-append, ltb, none, refl, same_refl, some, sym, text, true, ◌++◌, ◌≢◌, ◌⊎◌, ◌∙◌, ◌∷◌, ◌≡◌,
  ◌≤◌,
}
use multithreaded_chat_appli.Cmd.{Command, name_size, conn, Kind, say, sayto, rename}
use multithreaded_chat_appli.ClientList.{Client}
use multithreaded_chat_appli.ClientList.Chain.{Item, update_first}
use multithreaded_chat_appli.ClientList.Refine.{Represents, named}
use multithreaded_chat_appli.Server.{
  arg, fits, answer_size, Server, Packet, Outcome, max_msgs, remember,
}
use multithreaded_chat_appli.Server.View.{found}

-- The list is well linked, and the history is within the array that `queue_manager` allocates.
pub record IsValid (s : Server) (xs : List Item) : Type 0 where
  pub linked : Represents s.clients xs
  pub room : length s.chat_history ≤ max_msgs

-- The handler comes to its end, and the server is well-formed again.
abbrev pub Survives : Outcome → Type 0
Survives o =
    (s' : Server) × (packets : List Packet) × (xs' : List Item) × (o ≡ some (s', packets))
    × IsValid s' xs'

-- The commands whose handler reads the sender's node without a look at the pointer.
abbrev pub reads_sender : Kind → Bool
reads_sender say = true
reads_sender sayto = true
reads_sender rename = true
reads_sender _ = false

-- The name that a `conn` prints into its answer and a `rename` copies into a node fits there.
abbrev pub fits_name : Command → Kind → Bool
fits_name command conn = fits answer_size (text "connsuccess$ " ++ arg command 0)
fits_name command rename = fits name_size (arg command 0)
fits_name command _ = true

-- A `sayto` to nobody in the list reads no node.
abbrev pub IsHeard : List Item → Command → Kind → Type 0
IsHeard xs command kind =
    (kind ≢ sayto) ⊎ ((d : Client) × (found (named (arg command 0)) xs ≡ some d))

pub length-remember :
    (history : List Text) (message : Text)
    → length history ≤ max_msgs
    → length (remember history message) ≤ max_msgs
unfolding remember
length-remember history message h = elim (Bool-cases (ltb (length history) max_msgs)) [
  | inl e ↦ rw e (ground (arith, length-append history (message ∷ [])))
  | inr e ↦ rw e h
]

module _ (test : Client → Bool) (f : Client → Client)
    (keeps : (c : Client) → test (f c) ≡ test c) where
  pub found-update_first-none :
      (xs : List Item) → found test xs ≡ none → found test (update_first test f xs) ≡ none
  found-update_first-none [] e = refl
  found-update_first-none (x ∷ xs) e = elim (Bool-cases (test x.1)) [
    | inl here ↦ ground (arith, keeps x.1)
    | inr there ↦ ground (arith, found-update_first-none xs)
  ]

  pub found-update_first-some :
      (xs : List Item) (c : Client)
      → found test xs ≡ some c
      → found test (update_first test f xs) ≡ some (f c)
  found-update_first-some [] c e = cc
  found-update_first-some (x ∷ xs) c e = elim (Bool-cases (test x.1)) [
    | inl here ↦ ground (arith, keeps x.1)
    | inr there ↦ ground (arith, found-update_first-some xs c)
  ]

-- A client that another search finds, behind such a change.
pub found-changed :
    (test other : Client → Bool) (f : Client → Client)
    → ((c : Client) → other (f c) ≡ other c)
    → (xs : List Item) (d : Client) → found other xs ≡ some d
    → (d' : Client) × (found other (update_first test f xs) ≡ some d')
found-changed test other f keeps [] d e = cc
found-changed test other f keeps (x ∷ xs) d e = elim (Bool-cases (test x.1)) [
  | inl here ↦ elim (Bool-cases (other x.1)) [
    | inl o ↦ (f x.1, ground (arith, keeps x.1))
    | inr o ↦ (d, ground (arith, keeps x.1))
  ]
  | inr there ↦ elim (Bool-cases (other x.1)) [
    | inl o ↦ (x.1, ground arith)
    | inr o ↦
        let rest : found other xs ≡ some d = ground arith in
        let (d', e') = found-changed test other f keeps xs d rest in (d', ground arith)
  ]
]

found_head :
    (test : Client → Bool) (x : Item) (xs : List Item)
    → test x.1 ≡ true
    → found test (x ∷ xs) ≡ some x.1
found_head test x xs h = ground arith

found_tail :
    (test : Client → Bool) (x : Item) (xs : List Item)
    → test x.1 ≡ false
    → found test (x ∷ xs) ≡ found test xs
found_tail test x xs h = ground arith

named_self : (a b : Client) → a ≡ b → named b.client_name a ≡ true
named_self a b q = ap (λ (c : Client). named b.client_name c) q ∙ same_refl b.client_name

pub taken :
    (o : Option Client) (n : Outcome) (f : Client → Server × List Packet) (c : Client)
    → o ≡ some c
    → elim o as (λ _. Outcome) [ none ↦ n | some x ↦ some (f x) ] ≡ some (f c)
taken o n f c e = rw e

-- A client of the list is found by its own name, or one before it of the same name is.
pub found-named :
    (test : Client → Bool) (xs : List Item) (c : Client)
    → found test xs ≡ some c
    → (d : Client) × (found (named c.client_name) xs ≡ some d)
found-named test [] c e = cc
found-named test (x ∷ xs) c e = elim (Bool-cases (named c.client_name x.1)) [
  | inl here ↦ (x.1, ground arith)
  | inr other ↦ elim (Bool-cases (test x.1)) [
    | inl is_it ↦
        let it : some x.1 ≡ some c = sym (found_head test x xs is_it) ∙ e in
        (c, absurd (ground (arith, named_self x.1 c (eq_of_some _ _ it))))
    | inr is_not ↦
        let (d, e') = found-named test xs c (sym (found_tail test x xs is_not) ∙ e) in
        (d, ground arith)
  ]
]
