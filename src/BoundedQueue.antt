-- ===== src/BoundedQueue.antt =====
-- What the ring buffers promise: a first-in, first-out queue of limited capacity, oldest first.
use reiser_rt_core.Prelude.{ℕ, ◌<◌, ◌≡◌, List, [], ◌∷◌, ◌++◌, arith, ltb, if◌then◌else◌, length}
use reiser_rt_core.Outcome.{Outcome, returns, throws, ring_buffer_underflow, ring_buffer_overflow}

module _ {ℓ} {A : Type ℓ} where
  unfoldable pub dequeue : List A → Outcome A × List A
  dequeue [] = (throws ring_buffer_underflow, [])
  dequeue (x ∷ xs) = (returns x, xs)

  unfoldable pub enqueue : ℕ → List A → A → Outcome (Unit {0}) × List A
  enqueue cap xs x =
      if ltb (length xs) cap then (returns tt, xs ++ x ∷ []) else (throws ring_buffer_overflow, xs)

module _ {ℓ} {A : Type ℓ} (cap : ℕ) (xs : List A) (x : A) where
  pub enqueue_room : length xs < cap → enqueue cap xs x ≡ (returns tt, xs ++ x ∷ [])
  unfolding enqueue
  enqueue_room h = ground arith

  pub enqueue_full : ¬ (length xs < cap) → enqueue cap xs x ≡ (throws ring_buffer_overflow, xs)
  unfolding enqueue
  enqueue_full h = ground arith

-- The calls of a client, and what it sees of each.
pub data Op {ℓ} (A : Type ℓ) : Type ℓ where
  puts : A → Op A
  gets : Op A

pub data Reply {ℓ} (A : Type ℓ) : Type ℓ where
  stored : Outcome (Unit {0}) → Reply A
  fetched : Outcome A → Reply A

module _ {ℓ} {A : Type ℓ} where
  unfoldable pub run : ℕ → List A → List (Op A) → List (Reply A)
  run cap xs [] = []
  run cap xs (puts x ∷ ops) = let (o, ys) = enqueue cap xs x in stored o ∷ run cap ys ops
  run cap xs (gets ∷ ops) = let (o, ys) = dequeue xs in fetched o ∷ run cap ys ops
