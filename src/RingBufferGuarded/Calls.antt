-- ===== src/RingBufferGuarded/Calls.antt =====
-- `get` and `put` of a guarded ring: they never let the ring underflow or overflow.
use reiser_rt_core.Prelude.{
  dec_lt, ◌⊎◌, inl, inr, ◌+◌, ◌≤◌, ◌<◌, ◌≡◌, false, List, [], ◌∷◌, ◌++◌, arith, length,
  length-append,
}
use reiser_rt_core.Prelude.Words.{max32}
use reiser_rt_core.Outcome.{returns}
use reiser_rt_core.RingBufferSimple as Ring
use reiser_rt_core.RingBufferSimple.Steps.{put_appends, get_takes}
use reiser_rt_core.Semaphore.{signal_take, take_with, take_turn, give_with, give_turn}
use reiser_rt_core.RingBufferGuarded.{RingBufferGuarded, ready, done, blocked, Result, get, put}
use reiser_rt_core.RingBufferGuarded.Contents.{Represents, Fits}

-- What a `get` on the elements `xs` comes to: it waits if there are none, and else takes the
-- oldest.
abbrev pub Fetches : {A : Type 0} → List A → Result A A → Type 0
Fetches [] g = (g.progress ≡ blocked) × Represents g.buffer []
Fetches (x ∷ xs) g = (g.progress ≡ done (returns x)) × Represents g.buffer xs

module _ {A : Type 0} (b : RingBufferGuarded A) (is_ready : b.state ≡ ready)
    (no_abort : b.semaphore.abort_flag ≡ false) where
  get_waits :
      b.semaphore.available_count ≡ 0
      → ((get b).progress ≡ blocked)
        × ((get b).buffer.ring ≡ b.ring)
        × ((get b).buffer.semaphore.available_count ≡ 0)
        × ((get b).buffer.semaphore.max_available_count ≡ b.semaphore.max_available_count)
  unfolding get take_with take_turn
  get_waits none_there = ground arith

  get_goes :
      (x : A)
      → 0 < b.semaphore.available_count
      → (Ring.get b.ring).0 ≡ returns x
      → ((get b).progress ≡ done (returns x))
        × ((get b).buffer.ring ≡ (Ring.get b.ring).1)
        × ((get b).buffer.semaphore.available_count + 1 ≡ b.semaphore.available_count)
        × ((get b).buffer.semaphore.max_available_count ≡ b.semaphore.max_available_count)
  unfolding get take_with take_turn
  get_goes x some_there e = ground arith

  -- In the ready state, with a semaphore that is not aborted and counts the elements, get waits on
  -- an empty buffer, and else returns and removes the oldest element: no underflow of the ring
  -- reaches its caller.
  pub get-Fetches : (xs : List A) → Represents b xs → Fetches xs (get b)
  get-Fetches [] h =
      let (p, r, a, m) = get_waits h.count in
      (p, record { ring = rw r h.ring; bounded = omega (arith, h.bounded, a, m); count = a })
  get-Fetches (x ∷ xs) h =
      let (e, h') = get_takes xs x h.ring in
      let (p, r, a, m) = get_goes x (omega (arith, h.count)) e in
      (
        p,
        record {
          ring = rw r h';
          bounded = omega (arith, h.bounded, a, m);
          count = omega (arith, h.count, a);
        },
      )

  put_waits :
      (v : A)
      → b.semaphore.available_count ≡ b.semaphore.max_available_count
      → b.semaphore.max_available_count < max32
      → ((put b v).progress ≡ blocked)
        × ((put b v).buffer.ring ≡ b.ring)
        × ((put b v).buffer.semaphore.available_count ≡ b.semaphore.available_count)
        × ((put b v).buffer.semaphore.max_available_count ≡ b.semaphore.max_available_count)
  unfolding put give_with give_turn
  put_waits v full range = ground arith

  put_goes :
      (v : A)
      → b.semaphore.available_count < b.semaphore.max_available_count
      → b.semaphore.max_available_count ≤ max32
      → (Ring.put b.ring v).0 ≡ returns tt
      → ((put b v).progress ≡ done (returns tt))
        × ((put b v).buffer.ring ≡ (Ring.put b.ring v).1)
        × ((put b v).buffer.semaphore.available_count ≡ b.semaphore.available_count + 1)
        × ((put b v).buffer.semaphore.max_available_count ≡ b.semaphore.max_available_count)
        × ((put b v).notices ≡ signal_take ∷ [])
  unfolding put give_with give_turn
  put_goes v room range e = ground arith

  -- In the ready state, with a semaphore that is not aborted, counts the elements, and admits
  -- fewer than 2 ^ 32 - 1 and no more than the ring has room for: put waits while the buffer holds
  -- as many elements as the semaphore admits, and else appends the element and signals a waiting
  -- get. No overflow of the ring reaches its caller.
  pub put_stores :
      (xs : List A) (v : A)
      → Represents b xs
      → Fits b
      → b.semaphore.max_available_count < max32
      → let g = put b v in
        ((length xs ≡ b.semaphore.max_available_count)
          × (g.progress ≡ blocked)
          × Represents g.buffer xs)
        ⊎ ((length xs < b.semaphore.max_available_count)
            × (g.progress ≡ done (returns tt))
            × (g.notices ≡ signal_take ∷ [])
            × Represents g.buffer (xs ++ v ∷ []))
  put_stores xs v h fits range = elim (dec_lt (length xs) b.semaphore.max_available_count) [
    | yes room ↦
        let (e, h') = put_appends xs v h.ring (omega arith) in
        let (p, r, a, m, q) = put_goes v (omega (arith, h.count)) (omega arith) e in
        inr (
          room,
          p,
          q,
          record {
            ring = rw r h';
            bounded = omega (arith, h.bounded, a, m, h.count);
            count = omega (arith, h.count, a, length-append xs (v ∷ []));
          },
        )
    | no full ↦
        let (p, r, a, m) = put_waits v (omega (arith, h.count, h.bounded)) range in
        inl (
          omega (arith, h.count, h.bounded),
          p,
          record {
            ring = rw r h.ring;
            bounded = omega (arith, h.bounded, a, m);
            count = omega (arith, h.count, a);
          },
        )
  ]
