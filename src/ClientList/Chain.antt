-- ===== src/ClientList/Chain.antt =====
-- The linked list as the list of its nodes: their addresses and what they hold, in order.
use mathlib.Core.Path.{subst}
use multithreaded_chat_appli.Base.{
  All, All_left, Bool, Bool-cases, List, Option, [], arith, false, inl, inr, length, none, refl,
  some, suc, sym, true, zero, ℕ, ◌++◌, ◌∷◌, ◌≡◌, ◌≢◌, ◌≤◌,
}
use multithreaded_chat_appli.ClientList.{Client, ClientNode, write, walk}

abbrev pub Item : Type 0
Item = ℕ × Client

-- The address of the first node.
abbrev pub first : List Item → Option ℕ
first [] = none
first (x ∷ xs) = some x.0

-- The address of the last node.
abbrev pub last : List Item → Option ℕ
last [] = none
last (x ∷ xs) = elim (last xs) [ none ↦ some x.0 | some t ↦ some t ]

-- Every node stands at its address and links to the next; the last one links to NULL.
abbrev pub Linked : (ℕ → Option ClientNode) → List Item → Type 0
Linked nodes [] = Unit
Linked nodes (x ∷ xs) =
    (nodes x.0 ≡ some (record { next = first xs; client = x.1 })) × Linked nodes xs

-- The node is not at `p`.
abbrev pub Apart : ℕ → Item → Type 0
Apart p x = x.0 ≢ p

abbrev pub Distinct : List Item → Type 0
Distinct [] = Unit
Distinct (x ∷ xs) = All (Apart x.0) xs × Distinct xs

abbrev pub find_item : (Client → Bool) → List Item → Option ℕ
find_item test [] = none
find_item test (x ∷ xs) = elim (test x.1) [ true ↦ some x.0 | false ↦ find_item test xs ]

module _ (nodes : ℕ → Option ClientNode) where
  -- The walk finds the first client that passes the test.
  pub walk-find_item :
      (test : Client → Bool) (fuel : ℕ) (xs : List Item)
      → Linked nodes xs
      → length xs ≤ fuel
      → walk nodes test fuel (first xs) ≡ some (find_item test xs)
  unfolding walk
  walk-find_item test fuel [] h f = refl
  walk-find_item test zero (x ∷ xs) h f = absurd (omega arith)
  walk-find_item test (suc fuel) (x ∷ xs) h f = ground (arith, walk-find_item test fuel xs h.1)

  pub Linked-write :
      (p : ℕ) (v : Option ClientNode) (xs : List Item)
      → All (Apart p) xs
      → Linked nodes xs
      → Linked (write nodes p v) xs
  Linked-write p v [] a h = tt
  Linked-write p v (x ∷ xs) a h = (ground arith, Linked-write p v xs a.1 h.1)

  -- Linking the last node of `x ∷ pre` to the chain `ys`.
  pub set_next :
      (x : Item) (pre zs ys : List Item)
      → Linked nodes ((x ∷ pre) ++ zs)
      → Distinct ((x ∷ pre) ++ ys)
      → Linked nodes ys
      → (t : ℕ) × (m : ClientNode) × (last (x ∷ pre) ≡ some t)
        × (nodes t ≡ some m)
        × Linked (write nodes t (some (record m { next = first ys }))) ((x ∷ pre) ++ ys)
        × ((q : ℕ) → All (Apart q) (x ∷ pre) → t ≢ q)
  set_next x [] zs ys h d hy = (
    x.0,
    record { next = first zs; client = x.1 },
    refl,
    h.0,
    (ground arith, Linked-write x.0 _ ys d.0 hy),
    λ q a. a.0,
  )
  set_next x (y ∷ pre) zs ys h d hy =
      let (t, m, e, at_t, linked, apart) = set_next y pre zs ys h.1 d.1 hy in
      (
        t,
        m,
        rw e,
        at_t,
        (ground (arith, h.0, apart x.0 (All_left (Apart x.0) (y ∷ pre) ys d.0)), linked),
        λ q a. apart q a.1,
      )

abbrev pub update_first : (Client → Bool) → (Client → Client) → List Item → List Item
update_first test f [] = []
update_first test f (x ∷ xs) = elim (test x.1) [
  | true ↦ (x.0, f x.1) ∷ xs
  | false ↦ x ∷ update_first test f xs
]

pub first-update_first :
    (test : Client → Bool) (f : Client → Client) (xs : List Item)
    → first (update_first test f xs) ≡ first xs
first-update_first test f [] = refl
first-update_first test f (x ∷ xs) = ground arith

-- A write to the payload of the node at `p`, which the walk finds.
module _ (nodes : ℕ → Option ClientNode) (test : Client → Bool) (f : Client → Client) where
  abbrev pub Updated : List Item → ℕ → Type 0
  Updated xs p =
      (m : ClientNode) × (nodes p ≡ some m)
      × Linked (write nodes p (some (record m { client = f m.client }))) (update_first test f xs)
      × ((q : ℕ) → All (Apart q) xs → p ≢ q)

  update_head :
      (x : Item) (xs : List Item)
      → test x.1 ≡ true
      → update_first test f (x ∷ xs) ≡ (x.0, f x.1) ∷ xs
  update_head x xs e = ground arith

  update_tail :
      (x : Item) (xs : List Item)
      → test x.1 ≡ false
      → update_first test f (x ∷ xs) ≡ x ∷ update_first test f xs
  update_tail x xs e = ground arith

  Updated-head :
      (x : Item) (xs : List Item)
      → test x.1 ≡ true
      → Linked nodes (x ∷ xs)
      → Distinct (x ∷ xs)
      → Updated (x ∷ xs) x.0
  Updated-head x xs e h d = (
    record { next = first xs; client = x.1 },
    h.0,
    subst (Linked _) (sym (update_head x xs e)) (ground arith, Linked-write nodes x.0 _ xs d.0 h.1),
    λ q a. a.0,
  )

  Updated-tail :
      (x : Item) (xs : List Item) (p : ℕ)
      → test x.1 ≡ false
      → Linked nodes (x ∷ xs)
      → Distinct (x ∷ xs)
      → Updated xs p
      → Updated (x ∷ xs) p
  Updated-tail x xs p e h d (m, at_p, linked, apart) = (
    m,
    at_p,
    subst (Linked _) (sym (update_tail x xs e))
        (ground (arith, h.0, apart x.0 d.0, first-update_first test f xs), linked),
    λ q a. apart q a.1,
  )

  pub update_found :
      (xs : List Item) (p : ℕ)
      → Linked nodes xs
      → Distinct xs
      → find_item test xs ≡ some p
      → Updated xs p
  update_found [] p h d e = cc
  update_found (x ∷ xs) p h d e = elim (Bool-cases (test x.1)) [
    | inl found ↦
        let here : x.0 ≡ p = ground arith in
        subst (λ (q : ℕ). Updated (x ∷ xs) q) here (Updated-head x xs found h d)
    | inr other ↦
        let later : find_item test xs ≡ some p = ground arith in
        Updated-tail x xs p other h d (update_found xs p h.1 d.1 later)
  ]
