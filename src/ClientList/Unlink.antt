-- ===== src/ClientList/Unlink.antt =====
-- Taking a node out of the linked list: the links, the head and the tail behind it.
use multithreaded_chat_appli.Base.{
  All, All_right, List, Option, Option-cases, [], ap, append-nil, ap₂, arith, if◌then◌else◌, inl,
  inr, length, none, refl, some, sym, ℕ, ◌++◌, ◌==◌, ◌∙◌, ◌∷◌, ◌≡◌, ◌≢◌, ◌≤◌,
}
use multithreaded_chat_appli.ClientList.{ClientNode, ClientList, write, unlink_node}
use multithreaded_chat_appli.ClientList.Chain.{
  Item, first, last, Linked, Apart, Distinct, Linked-write, set_next,
}
use multithreaded_chat_appli.ClientList.Refine.{Represents, Below}

last-some : (x : Item) (xs : List Item) → (t : ℕ) × (last (x ∷ xs) ≡ some t)
last-some x xs = elim (Option-cases (last xs)) [ inl e ↦ (x.0, rw e) | inr (t, e) ↦ (t, rw e) ]

last-cons : (pre : List Item) (x : Item) (xs : List Item) → last (pre ++ (x ∷ xs)) ≡ last (x ∷ xs)
last-cons [] x xs = refl
last-cons (y ∷ pre) x xs =
    let (t, e) = last-some x xs in let ih = last-cons pre x xs ∙ e in rw ih (sym e)

last-Apart : (xs : List Item) (p t : ℕ) → All (Apart p) xs → last xs ≡ some t → t ≢ p
last-Apart [] p t a e = cc
last-Apart (x ∷ xs) p t a e = elim (Option-cases (last xs)) [
  | inl ends ↦ let same_end : x.0 ≡ t = ground arith in ground (arith, a.0)
  | inr (u, ends) ↦
      let same_end : u ≡ t = ground arith in last-Apart xs p t a.1 (ends ∙ ap some same_end)
]

-- The list without the node `x`.
module _ (x : Item) (xs : List Item) where
  All-drop : (P : Item → Type 0) (pre : List Item) → All P (pre ++ (x ∷ xs)) → All P (pre ++ xs)
  All-drop P [] h = h.1
  All-drop P (y ∷ pre) h = (h.0, All-drop P pre h.1)

  Distinct-drop : (pre : List Item) → Distinct (pre ++ (x ∷ xs)) → Distinct (pre ++ xs)
  Distinct-drop [] d = d.1
  Distinct-drop (y ∷ pre) d = (All-drop (Apart y.0) pre d.0, Distinct-drop pre d.1)

  Apart-drop : (pre : List Item) → Distinct (pre ++ (x ∷ xs)) → All (Apart x.0) (pre ++ xs)
  Apart-drop [] d = d.0
  Apart-drop (y ∷ pre) d =
      (λ e. (All_right (Apart y.0) pre (x ∷ xs) d.0).0 (sym e), Apart-drop pre d.1)

  pub Linked-right :
      (nodes : ℕ → Option ClientNode) (pre : List Item)
      → Linked nodes (pre ++ (x ∷ xs))
      → Linked nodes (x ∷ xs)
  Linked-right nodes [] h = h
  Linked-right nodes (y ∷ pre) h = Linked-right nodes pre h.1

  length-drop_item : (pre : List Item) → length (pre ++ xs) ≤ length (pre ++ (x ∷ xs))
  length-drop_item [] = omega arith
  length-drop_item (y ∷ pre) = omega (arith, length-drop_item pre)

-- The new tail: the node in front where the last one goes.
abbrev new_tail : Option ℕ → Option ℕ → ℕ → Option ℕ
new_tail tail before p = elim tail [ none ↦ none | some t ↦ if t == p then before else some t ]

new_tail-last :
    (pre : List Item) (x : Item) (xs : List Item)
    → Distinct (pre ++ (x ∷ xs))
    → new_tail (last (pre ++ (x ∷ xs))) (last pre) x.0 ≡ last (pre ++ xs)
new_tail-last pre x [] d = rw (last-cons pre x [], append-nil) (ground arith)
new_tail-last pre x (z ∷ zs) d =
    let (t, e) = last-some z zs in
    let apart = All_right (Apart x.0) pre (z ∷ zs) (Apart-drop x (z ∷ zs) pre d) in
    let other = last-Apart (z ∷ zs) x.0 t apart e in
    let whole : last (pre ++ (x ∷ z ∷ zs)) ≡ some t = last-cons pre x (z ∷ zs) ∙ rw e in
    rw whole (ground (arith, other) ∙ sym (last-cons pre z zs ∙ e))

module _ (l : ClientList) (x : Item) (xs : List Item) where
  abbrev pub node : ClientNode
  node = record { next = first xs; client = x.1 }

  unlink_node_eq :
      (t : ℕ) (m : ClientNode)
      → l.nodes t ≡ some m
      → unlink_node l (some t) x.0 node
        ≡ some (
          some x.1.client_address,
          record l {
            nodes = write (write l.nodes t (some (record m { next = first xs }))) x.0 none;
            tail = new_tail l.tail (some t) x.0;
          },
        )
  unfolding unlink_node
  unlink_node_eq t m e = ground arith

  -- Behind `pre` the node `x` is taken out.
  pub unlink_refines :
      (pre : List Item)
      → Represents l (pre ++ (x ∷ xs))
      → (l' : ClientList) × (unlink_node l (last pre) x.0 node ≡ some (some x.1.client_address, l'))
        × Represents l' (pre ++ xs)
  unfolding unlink_node
  unlink_refines [] r = (
    record l { nodes = write l.nodes x.0 none; head = first xs; tail = new_tail l.tail none x.0 },
    refl,
    record {
      linked = Linked-write l.nodes x.0 none xs r.distinct.0 r.linked.1;
      head = refl;
      tail = ap (λ (o : Option ℕ). new_tail o none x.0) r.tail ∙ new_tail-last [] x xs r.distinct;
      distinct = r.distinct.1;
      below = r.below.1;
      enough = omega (arith, r.enough);
    },
  )
  unlink_refines (y ∷ pre) r =
      let (t, m, at_end, at_t, linked, _) =
        set_next l.nodes y pre (x ∷ xs) xs r.linked (Distinct-drop x xs (y ∷ pre) r.distinct)
          (Linked-right x xs l.nodes (y ∷ pre) r.linked).1 in
      (
        record l {
          nodes = write (write l.nodes t (some (record m { next = first xs }))) x.0 none;
          tail = new_tail l.tail (some t) x.0;
        },
        rw at_end (unlink_node_eq t m at_t),
        record {
          linked =
              Linked-write _ x.0 none ((y ∷ pre) ++ xs) (Apart-drop x xs (y ∷ pre) r.distinct)
                linked;
          head = r.head;
          tail =
              ap₂ (λ (o before : Option ℕ). new_tail o before x.0) r.tail (sym at_end)
              ∙ new_tail-last (y ∷ pre) x xs r.distinct;
          distinct = Distinct-drop x xs (y ∷ pre) r.distinct;
          below = All-drop x xs (Below l.fresh) (y ∷ pre) r.below;
          enough = omega (arith, r.enough, length-drop_item x xs (y ∷ pre));
        },
      )
