-- ===== src/MessageQueue/Contents.antt =====
-- Where the blocks of a message queue are, and which messages wait.
use mathlib.Core.List.{Perm}
use reiser_rt_core.Prelude.{ℕ, ◌+◌, ◌*◌, ◌≤◌, ◌<◌, ◌≡◌, some, List, ◌++◌, map, length, built, All}
use reiser_rt_core.RingBufferGuarded.Contents.{Represents}
use reiser_rt_core.RingBufferGuarded.Kept.{IsReady}
use reiser_rt_core.MessageQueue.{MessageQueue}

module _ {M : Type 0} where
  abbrev pub IsBlock : MessageQueue M → ℕ → Type 0
  IsBlock q a = (i : ℕ) × (i < q.requested_num_elements) × (a ≡ i * q.element_size)

  abbrev pub blocks : MessageQueue M → List ℕ
  blocks q = built (λ i. i * q.element_size) 0 q.requested_num_elements

-- Messages and the addresses that they lie at.
abbrev pub Placed : Type 0 → Type 0
Placed M = ℕ × M

abbrev pub addresses : {M : Type 0} → List (Placed M) → List ℕ
addresses = map (λ x. x.0)

-- The queue is in use: it has the blocks `free` to hand out, the messages `waiting` to dispatch,
-- both oldest first, and its callers hold the blocks `held`.
pub record Owns {M : Type 0} (q : MessageQueue M) (free : List ℕ) (waiting : List (Placed M))
    (held : List ℕ) : Type 0 where
  pub raw : Represents q.raw_ring_buffer free
  pub raw_ready : IsReady q.raw_ring_buffer
  pub raw_room : q.raw_ring_buffer.semaphore.max_available_count ≡ q.requested_num_elements
  pub cooked : Represents q.cooked_ring_buffer (addresses waiting)
  pub cooked_ready : IsReady q.cooked_ring_buffer
  pub cooked_room : q.cooked_ring_buffer.semaphore.max_available_count ≡ q.requested_num_elements
  pub storage : length q.arena ≡ q.element_size * q.requested_num_elements
  pub positive : 0 < q.element_size
  pub running : q.running_count ≡ length waiting + length held
  pub high : q.running_count ≤ q.high_watermark
  pub high_range : q.high_watermark ≤ q.requested_num_elements
  pub all_there : length free + length waiting + length held ≡ q.requested_num_elements
  pub alive : All (λ x. q.objects x.0 ≡ some x.1) waiting
  pub free_blocks : All (IsBlock q) free
  pub waiting_blocks : All (IsBlock q) (addresses waiting)
  pub held_blocks : All (IsBlock q) held
  pub shares : Perm ((free ++ addresses waiting) ++ held) (blocks q)
