-- ===== src/Network/Channel.antt =====
-- The bounded channel of the `crossbeam` crate, as src/network/server.rs uses it: the interface that
-- the server takes, with the documented behaviour as laws. A channel of capacity 0 hands over
-- without a buffer: its capacity is left open.
use atlas_kv.Base.{List, Option, [], length, none, some, ℕ, ◌++◌, ◌<◌, ◌∷◌, ◌≡◌, ◌≤◌}

-- `none` for a call that blocks.
pub record Channel (M : Type 0) : Type 1 where
  pub Queue : Type 0
  pub bounded : ℕ → Queue
  pub send : Queue → M → Option Queue
  pub recv : Queue → Option (M × Queue)
  pub contents : Queue → List M
  pub capacity : Queue → ℕ
  pub contents-bounded : (n : ℕ) → contents (bounded n) ≡ []
  pub capacity-bounded : (n : ℕ) → 0 < n → capacity (bounded n) ≡ n
  pub send-some :
      (q q' : Queue) (m : M)
      → send q m ≡ some q'
      → (contents q' ≡ contents q ++ (m ∷ []))
        × (capacity q' ≡ capacity q)
        × (length (contents q) < capacity q)
  pub send-none : (q : Queue) (m : M) → send q m ≡ none → capacity q ≤ length (contents q)
  pub recv-some :
      (q q' : Queue) (m : M)
      → recv q ≡ some (m, q')
      → (contents q ≡ m ∷ contents q') × (capacity q' ≡ capacity q)
  pub recv-none : (q : Queue) → recv q ≡ none → contents q ≡ []
