-- ===== src/Queue/Window.antt =====
-- The cells from an index on, going round at the end of the array.
use multithreaded_chat_appli.Base.{
  List, [], ap, ap₂, arith, get_or, get_or-set_ne, get_or-set_self, length, refl, set, suc, zero, ℕ,
  ◌%◌, ◌++◌, ◌+◌, ◌-◌, ◌<◌, ◌∙◌, ◌∷◌, ◌≡◌, ◌≢◌, ◌≤◌,
}
use multithreaded_chat_appli.Queue.{Node, blank_node, queue_max}

abbrev pub cell : List Node → ℕ → Node
cell cells i = get_or cells i blank_node

abbrev pub window : List Node → ℕ → ℕ → List Node
window cells h zero = []
window cells h (suc n) = cell cells h ∷ window cells ((h + 1) % queue_max) n

-- A write `d` cells behind the start is not seen by a window of at most `d` cells.
pub window-set_out :
    (cells : List Node) (v : Node) (n h i d : ℕ)
    → h < queue_max
    → i ≡ (h + d) % queue_max
    → n ≤ d
    → d < queue_max
    → window (set cells i v) h n ≡ window cells h n
window-set_out cells v zero h i d hh e hn hd = refl
window-set_out cells v (suc n) h i d hh e hn hd =
    ap₂ ◌∷◌ (get_or-set_ne cells v blank_node (omega arith)) (
      window-set_out cells v n ((h + 1) % queue_max) i (d - 1) (omega arith) (omega arith)
        (omega arith) (omega arith))

-- The last cell of a window.
pub window_snoc :
    (cells : List Node) (n h i : ℕ)
    → h < queue_max
    → i ≡ (h + n) % queue_max
    → window cells h (suc n) ≡ window cells h n ++ (cell cells i ∷ [])
window_snoc cells zero h i hh e = ap (λ k. cell cells k ∷ []) (omega arith)
window_snoc cells (suc n) h i hh e =
    ap (λ r. cell cells h ∷ r)
      (window_snoc cells n ((h + 1) % queue_max) i (omega arith) (omega arith))

pub window-set :
    (cells : List Node) (v : Node) (n h i : ℕ)
    → length cells ≡ queue_max
    → h < queue_max
    → i ≡ (h + n) % queue_max
    → n < queue_max
    → window (set cells i v) h (suc n) ≡ window cells h n ++ (v ∷ [])
window-set cells v n h i hl hh e hn =
    window_snoc (set cells i v) n h i hh e
    ∙ ap₂ (λ (xs : List Node) (x : Node). xs ++ (x ∷ []))
        (window-set_out cells v n h i n hh e (omega arith) hn)
        (get_or-set_self cells i v blank_node (omega arith))

pub window_head :
    (cells : List Node) (h n : ℕ)
    → n ≢ 0
    → window cells h n ≡ cell cells h ∷ window cells ((h + 1) % queue_max) (n - 1)
window_head cells h zero e = absurd (e refl)
window_head cells h (suc n) e = ap (λ k. window cells h (suc k)) (omega arith)
