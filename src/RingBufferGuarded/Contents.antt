-- ===== src/RingBufferGuarded/Contents.antt =====
-- The elements that wait in a guarded ring, and the agreement of its ring and its semaphore.
use reiser_rt_core.Prelude.{◌≤◌, ◌≡◌, List, length}
use reiser_rt_core.RingBufferSimple.Contents as Ring
use reiser_rt_core.Semaphore.Counts.{IsBounded}
use reiser_rt_core.RingBufferGuarded.{RingBufferGuarded}

-- The ring holds `xs`, oldest first, and the semaphore counts them.
pub record Represents {A : Type 0} (b : RingBufferGuarded A) (xs : List A) : Type 0 where
  pub ring : Ring.Represents b.ring xs
  pub bounded : IsBounded b.semaphore
  pub count : b.semaphore.available_count ≡ length xs

-- The semaphore admits no more elements than the ring has room for.
abbrev pub Fits : {A : Type 0} → RingBufferGuarded A → Type 0
Fits b = b.semaphore.max_available_count ≤ b.ring.num_elements
