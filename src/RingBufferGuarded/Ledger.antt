-- ===== src/RingBufferGuarded/Ledger.antt =====
-- The calls of src/RingBufferGuarded.hpp as function objects of its semaphore: beside the ring, a
-- ledger notes what the calls store and fetch, which no call reads.
use reiser_rt_core.Prelude.{◌≡◌, none, some, Option, List, [], ◌∷◌, ◌++◌, arith}
use reiser_rt_core.Outcome.{Outcome, returns, throws, fault}
use reiser_rt_core.RingBufferSimple as Ring
use reiser_rt_core.RingBufferSimple.{RingBufferSimple}
use reiser_rt_core.Semaphore.{
  Segment, ends, blocks, take_turn, take_with, take_wake, give_turn, give_with, give_wake,
}
use reiser_rt_core.RingBufferGuarded.{
  RingBufferGuarded, ready, Progress, done, blocked, Result, get_funk, put_funk, get, get_resume,
  put, put_resume,
}

pub record Ledger (A : Type 0) : Type 0 where
  pub ring : RingBufferSimple A
  pub stored : List A
  pub fetched : List A

module _ {A : Type 0} where
  noted_get :
      Outcome (Unit {0}) × (RingBufferSimple A × Option A)
      → Ledger A
      → Outcome (Unit {0}) × Ledger A
  noted_get (o, (r, none)) w = (o, record w { ring = r })
  noted_get (o, (r, some v)) w = (o, record w { ring = r; fetched = w.fetched ++ v ∷ [] })

  noted_put : A → Outcome (Unit {0}) × RingBufferSimple A → Ledger A → Outcome (Unit {0}) × Ledger A
  noted_put v (returns _, r) w = (returns tt, record w { ring = r; stored = w.stored ++ v ∷ [] })
  noted_put v (throws e, r) w = (throws e, record w { ring = r })
  noted_put v (fault, r) w = (fault, record w { ring = r })

  unfoldable pub get_op : Ledger A → Outcome (Unit {0}) × Ledger A
  unfolding noted_get get_funk
  get_op w = noted_get (get_funk (w.ring, none)) w

  unfoldable pub put_op : A → Ledger A → Outcome (Unit {0}) × Ledger A
  unfolding noted_put put_funk
  put_op v w = noted_put v (put_funk v w.ring) w

  pub get_op_lem :
      (w : Ledger A) (v : A)
      → (Ring.get w.ring).0 ≡ returns v
      → get_op w
        ≡ (returns tt, record w { ring = (Ring.get w.ring).1; fetched = w.fetched ++ v ∷ [] })
  unfolding get_op
  get_op_lem w v e = ground arith

  pub put_op_lem :
      (w : Ledger A) (v : A)
      → (Ring.put w.ring v).0 ≡ returns tt
      → put_op v w
        ≡ (returns tt, record w { ring = (Ring.put w.ring v).1; stored = w.stored ++ v ∷ [] })
  unfolding put_op
  put_op_lem w v e = ground arith

  -- What the segment `g` from the ledger `w` does is what the caller of `get` sees.
  abbrev pub Answers : Progress A → Ledger A → Segment (Ledger A) → Type 0
  Answers blocked w g = (g.ending ≡ blocks) × (g.world ≡ w)
  Answers (done (returns v)) w g =
      (g.ending ≡ ends (returns tt))
      × (g.world.stored ≡ w.stored)
      × (g.world.fetched ≡ w.fetched ++ v ∷ [])
  Answers (done (throws e)) w g =
      (g.ending ≡ ends (throws e)) × (g.world.stored ≡ w.stored) × (g.world.fetched ≡ w.fetched)
  Answers (done fault) w g = g.ending ≡ ends fault

  -- What it does is what the caller of `put` of `v` sees.
  abbrev pub Confirms : A → Progress (Unit {0}) → Ledger A → Segment (Ledger A) → Type 0
  Confirms v blocked w g = (g.ending ≡ blocks) × (g.world ≡ w)
  Confirms v (done (returns _)) w g =
      (g.ending ≡ ends (returns tt))
      × (g.world.stored ≡ w.stored ++ v ∷ [])
      × (g.world.fetched ≡ w.fetched)
  Confirms v (done (throws e)) w g =
      (g.ending ≡ ends (throws e)) × (g.world.stored ≡ w.stored) × (g.world.fetched ≡ w.fetched)
  Confirms v (done fault) w g = g.ending ≡ ends fault

  -- The segment leaves the ring and the semaphore that the call leaves, and sends its notices.
  abbrev pub Buffers : {B : Type 0} → RingBufferGuarded A → Result A B → Segment (Ledger A) → Type 0
  Buffers b a g =
      (a.buffer ≡ record b { ring = g.world.ring; semaphore = g.semaphore })
      × (a.notices ≡ g.notices)

  module _ (b : RingBufferGuarded A) (w : Ledger A) (same : w.ring ≡ b.ring) where
    -- In the ready state, `get` is `take( operation )` with `get_op`, and so is its continuation.
    pub get-Buffers :
        b.state ≡ ready
        → let g = take_with get_op b.semaphore w in
          Buffers b (get b) g × Answers (get b).progress w g
    unfolding get get_op take_with take_turn
    get-Buffers is_ready = ground arith

    pub get_resume-Buffers :
        let g = take_with get_op (take_wake b.semaphore) w in
        Buffers b (get_resume b) g × Answers (get_resume b).progress w g
    unfolding get_resume get_op take_with take_turn
    get_resume-Buffers = ground arith

    -- In the ready state put does what give( operation ) does with the function object that
    -- threads of the step relation pass: it leaves the same ring and the same semaphore, sends the
    -- same notices, and its caller sees what the segment did: that it waits and nothing is stored,
    -- that the element is stored, or the exception.
    pub put-Buffers :
        (v : A)
        → b.state ≡ ready
        → let g = give_with (put_op v) b.semaphore w in
          Buffers b (put b v) g × Confirms v (put b v).progress w g
    unfolding put put_op give_with give_turn
    put-Buffers v is_ready = ground arith

    pub put_resume-Buffers :
        (v : A)
        → let g = give_with (put_op v) (give_wake b.semaphore) w in
          Buffers b (put_resume b v) g × Confirms v (put_resume b v).progress w g
    unfolding put_resume put_op give_with give_turn
    put_resume-Buffers v = ground arith
