-- ===== src/MemoryPool/Threads.antt =====
-- Calls of several threads on one pool of src/MemoryPoolBase.cpp, in any interleaving. A thread
-- goes from one access of what the threads share to the next: the ring under its mutex, the running
-- state by an atomic load or an exchange, and the arena.
use reiser_rt_core.Prelude.{
  ℕ, ◌+◌, ◌<◌, ◌≡◌, Bool, true, false, some, List, ◌∷◌, ◌++◌, ltb, ◌==◌, ◌&&◌, if◌then◌else◌, ◌-◌,
  ◌^◌,
}
use reiser_rt_core.Prelude.Families.{update}
use reiser_rt_core.Prelude.Words.{u32}
use reiser_rt_core.Outcome.{Outcome, Exception, returns, throws}
use reiser_rt_core.RingBufferSimple as Ring
use reiser_rt_core.RingBufferSimple.{RingBufferSimple}
use reiser_rt_core.MemoryPool.{MemoryPool, memset}

-- `InternalRunningStateStats`, the 64 bits that an exchange compares.
pub record RunningState : Type 0 where
  pub running_count : ℕ
  pub low_watermark : ℕ

abbrev pub load : MemoryPool → RunningState
load p = record { running_count = p.running_count; low_watermark = p.low_watermark }

-- What `getRawBlock` and `returnRawBlock` make of the state that they have seen.
abbrev pub after_get : RunningState → RunningState
after_get s =
    let running = u32 (s.running_count + 2 ^ 32 - 1) in
    record {
      running_count = running;
      low_watermark = if ltb running s.low_watermark then running else s.low_watermark;
    }

abbrev pub after_return : RunningState → RunningState
after_return s = record s { running_count = u32 (s.running_count + 1) }

-- `compare_exchange_weak` where it does not fail for no reason.
unfoldable pub exchange : RunningState → RunningState → MemoryPool → Bool × MemoryPool
exchange expected desired p =
    if p.running_count == expected.running_count && p.low_watermark == expected.low_watermark
    then (
      true,
      record p { running_count = desired.running_count; low_watermark = desired.low_watermark },
    )
    else (false, p)

-- `ringBuffer.get()` and `ringBuffer.put( pRaw )`, each under the mutex.
unfoldable pub ring_get : MemoryPool → Outcome ℕ × MemoryPool
ring_get p = let (o, r) = Ring.get p.ring_buffer in (o, record p { ring_buffer = r })

unfoldable pub ring_put : ℕ → MemoryPool → Outcome (Unit {0}) × MemoryPool
ring_put raw p = let (o, r) = Ring.put p.ring_buffer raw in (o, record p { ring_buffer = r })

-- Where a thread stands: outside; in `getRawBlock` with a block, before the load, before an
-- exchange with the state that it has seen, and before the clearing; in `returnRawBlock` before the
-- load, and before an exchange.
pub data Pc : Type 0 where
  outside : Pc
  has : ℕ → Pc
  has_seen : ℕ → RunningState → Pc
  has_counted : ℕ → Pc
  put : Pc
  put_seen : RunningState → Pc

-- `clients` lists the blocks that `getRawBlock` has returned and that no call has got back.
pub record Shared : Type 0 where
  pub pool : MemoryPool
  pub clients : List ℕ
  pub pc : ℕ → Pc

abbrev pub goes : Shared → ℕ → Pc → Shared
goes s i p = record s { pc = update s.pc i p }

-- A step of one of `n` threads. A client returns a block that it holds.
pub data Step (n : ℕ) (s : Shared) : Shared → Type 0 where
  gets :
      (i raw : ℕ)
      → i < n
      → s.pc i ≡ outside
      → (ring_get s.pool).0 ≡ returns raw
      → Step n s (record (goes s i (has raw)) { pool = (ring_get s.pool).1 })
  get_throws :
      (i : ℕ) (e : Exception)
      → i < n
      → s.pc i ≡ outside
      → (ring_get s.pool).0 ≡ throws e
      → Step n s (record s { pool = (ring_get s.pool).1 })
  get_loads :
      (i raw : ℕ) → i < n → s.pc i ≡ has raw → Step n s (goes s i (has_seen raw (load s.pool)))
  get_exchanges :
      (i raw : ℕ) (seen : RunningState)
      → i < n
      → s.pc i ≡ has_seen raw seen
      → (exchange seen (after_get seen) s.pool).0 ≡ true
      → Step n s
          (record (goes s i (has_counted raw)) { pool = (exchange seen (after_get seen) s.pool).1 })
  -- The exchange fails, also for no reason, and has seen the state.
  get_fails :
      (i raw : ℕ) (seen : RunningState)
      → i < n
      → s.pc i ≡ has_seen raw seen
      → Step n s (goes s i (has_seen raw (load s.pool)))
  clears :
      (i raw : ℕ) (bytes : List ℕ)
      → i < n
      → s.pc i ≡ has_counted raw
      → memset s.pool.arena raw 0 s.pool.padded_element_size ≡ some bytes
      → Step n s (record (goes s i outside) {
        pool = record s.pool { arena = bytes };
        clients = raw ∷ s.clients;
      })
  puts :
      (i raw : ℕ) (before after : List ℕ)
      → i < n
      → s.pc i ≡ outside
      → s.clients ≡ before ++ raw ∷ after
      → Step n s
          (record (goes s i put) { pool = (ring_put raw s.pool).1; clients = before ++ after })
  put_loads : (i : ℕ) → i < n → s.pc i ≡ put → Step n s (goes s i (put_seen (load s.pool)))
  put_exchanges :
      (i : ℕ) (seen : RunningState)
      → i < n
      → s.pc i ≡ put_seen seen
      → (exchange seen (after_return seen) s.pool).0 ≡ true
      → Step n s (record (goes s i outside) { pool = (exchange seen (after_return seen) s.pool).1 })
  put_fails :
      (i : ℕ) (seen : RunningState)
      → i < n
      → s.pc i ≡ put_seen seen
      → Step n s (goes s i (put_seen (load s.pool)))

pub data Reach (n : ℕ) (s : Shared) : Shared → Type 0 where
  here : Reach n s s
  next : {t u : Shared} → Reach n s t → Step n t u → Reach n s u
