-- ===== src/RingBufferSimple/Refine.antt =====
-- A ring behaves as the bounded queue of the elements that it holds.
use reiser_rt_core.Prelude.{ℕ, ◌^◌, ◌≡◌, refl, ap, ◌∙◌, List, [], ◌∷◌, arith, length, dec_lt}
use reiser_rt_core.Outcome.{Outcome}
use reiser_rt_core.BoundedQueue
use reiser_rt_core.BoundedQueue.{Op, puts, gets, dequeue, enqueue, enqueue_room, enqueue_full}
use reiser_rt_core.RingBufferSimple.{RingBufferSimple, num_bits_for_ne, construct, get, put, run}
use reiser_rt_core.RingBufferSimple.Contents.{Represents}
use reiser_rt_core.RingBufferSimple.Steps.{
  put_room, put_full, get_some, get_none, put_room-Represents, get_some-Represents,
  num_elements-put, num_elements-get, construct-Represents, elements_of_construct,
}

-- The ring's call ends as the queue's does, and leaves the ring holding what the queue is left
-- with.
abbrev pub Simulates {ℓ κ} :
    {A : Type ℓ} {B : Type κ} → Outcome B × RingBufferSimple A → Outcome B × List A → Type (ℓ ⊔ κ)
Simulates (o, r) (p, xs) = (o ≡ p) × Represents r xs

module _ {ℓ} {A : Type ℓ} {r : RingBufferSimple A} where
  -- On a ring that holds `xs`, `put` appends the element or throws the overflow exception, exactly
  -- as a queue of capacity `num_elements` does, and never writes outside the buffer.
  pub put_refines :
      (xs : List A) (v : A) → Represents r xs → Simulates (put r v) (enqueue r.num_elements xs v)
  put_refines xs v h = elim (dec_lt (length xs) r.num_elements) [
    | yes room ↦
        rw (put_room v h room, enqueue_room r.num_elements xs v room)
          (refl, put_room-Represents xs v h room)
    | no full ↦
        rw (put_full v h (omega (arith, h.fits)), enqueue_full r.num_elements xs v full) (refl, h)
  ]

  -- On a ring that holds `xs`, `get` returns and removes the oldest element or throws the underflow
  -- exception, exactly as a queue does, and never reads outside the buffer.
  pub get_refines : (xs : List A) → Represents r xs → Simulates (get r) (dequeue xs)
  unfolding dequeue
  get_refines [] h = rw (get_none h) (refl, h)
  get_refines (x ∷ xs) h = rw (get_some h) (refl, get_some-Represents h)

-- No sequence of calls tells a ring that holds `xs` from the bounded queue that holds `xs`.
pub run_refines {ℓ} :
    {A : Type ℓ} (ops : List (Op A)) {r : RingBufferSimple A} (xs : List A)
    → Represents r xs
    → run r ops ≡ BoundedQueue.run r.num_elements xs ops
unfolding run BoundedQueue.run
run_refines [] xs h = refl
run_refines (puts x ∷ ops) {r} xs h =
    let (e, h') = put_refines xs x h in rw (run_refines ops _ h', num_elements-put r x, e)
run_refines (gets ∷ ops) {r} xs h =
    let (e, h') = get_refines xs h in rw (run_refines ops _ h', num_elements-get r, e)

-- A new ring answers every sequence of calls as an empty queue does whose capacity is the least
-- power of two that is not below the clamped request.
pub run-construct_refines {ℓ} :
    {A : Type ℓ} (garbage : ℕ → A) (requested : ℕ) (ops : List (Op A))
    → run (construct garbage requested) ops
      ≡ BoundedQueue.run (2 ^ num_bits_for_ne requested) [] ops
run-construct_refines garbage requested ops =
    run_refines ops [] (construct-Represents garbage requested)
    ∙ ap (λ (t : ℕ). BoundedQueue.run t [] ops) (elements_of_construct garbage requested)
