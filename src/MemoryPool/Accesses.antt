-- ===== src/MemoryPool/Accesses.antt =====
-- The accesses of a thread in src/MemoryPoolBase.cpp, beside the calls that they make up.
use reiser_rt_core.Prelude.{ℕ, ◌≡◌, true, some, none, Option, List, arith}
use reiser_rt_core.Outcome.{Outcome, returns, fault}
use reiser_rt_core.MemoryPool.{MemoryPool, memset, get_raw_block, return_raw_block}
use reiser_rt_core.MemoryPool.Threads.{
  RunningState, load, after_get, after_return, exchange, ring_get, ring_put,
}

-- What `memset` makes of a block, for its caller.
abbrev pub after_clear : ℕ → MemoryPool → Option (List ℕ) → Outcome ℕ × MemoryPool
after_clear raw p (some bytes) = (returns raw, record p { arena = bytes })
after_clear raw p none = (fault, p)

-- An exchange of the state that the pool has succeeds.
pub exchange-load :
    (p : MemoryPool) (desired : RunningState)
    → exchange (load p) desired p ≡ (
      true,
      record p { running_count = desired.running_count; low_watermark = desired.low_watermark },
    )
unfolding exchange
exchange-load p desired = ground arith

-- With no other thread between them, the accesses of `getRawBlock` and of `returnRawBlock` make up
-- the calls.
pub get_raw_block-steps :
    (p : MemoryPool) (raw : ℕ)
    → (ring_get p).0 ≡ returns raw
    → let q = (ring_get p).1 in
      let r = (exchange (load q) (after_get (load q)) q).1 in
      get_raw_block p ≡ after_clear raw r (memset r.arena raw 0 r.padded_element_size)
unfolding ring_get exchange get_raw_block
get_raw_block-steps p raw e = ground arith

pub return_raw_block-steps :
    (p : MemoryPool) (raw : ℕ)
    → (ring_put raw p).0 ≡ returns tt
    → let q = (ring_put raw p).1 in
      return_raw_block p raw ≡ (returns tt, (exchange (load q) (after_return (load q)) q).1)
unfolding ring_put exchange return_raw_block
return_raw_block-steps p raw e = ground arith

-- An exchange that succeeds does to the running state what the call means to.
pub exchange_get :
    (seen : RunningState) (p : MemoryPool)
    → (exchange seen (after_get seen) p).0 ≡ true
    → (exchange seen (after_get seen) p).1 ≡ (exchange (load p) (after_get (load p)) p).1
unfolding exchange
exchange_get seen p e = ground arith

pub exchange_return :
    (seen : RunningState) (p : MemoryPool)
    → (exchange seen (after_return seen) p).0 ≡ true
    → (exchange seen (after_return seen) p).1 ≡ (exchange (load p) (after_return (load p)) p).1
unfolding exchange
exchange_return seen p e = ground arith
