-- ===== src/MemoryPool.antt =====
-- src/MemoryPoolBase.cpp, `MemoryPoolBase::Imple`: equal blocks cut from one arena, handed out
-- through a ring of addresses. An address is an offset into the arena.
pub mod Memory
pub mod Ownership
pub mod Lending
pub mod Returning
pub mod Construction
pub mod Lifetime
pub mod Overrun
pub mod Threads
pub mod Accesses
pub mod Sharing
pub mod Places
pub mod Interleaving
pub mod Concurrent
pub mod Leaving
pub mod Together
pub mod ThreadTests
pub mod Tests
use reiser_rt_core.Prelude.{
  leb, ◌&&◌, ℕ, zero, suc, ◌+◌, ◌-◌, ◌*◌, ◌%◌, ◌^◌, Bool, true, false, Option, none, some, List, [],
  ◌∷◌, ltb, ◌==◌, if◌then◌else◌, length,
}
use reiser_rt_core.Prelude.Words.{u32, u64}
use reiser_rt_core.Outcome.{Outcome, returns, throws, fault}
use reiser_rt_core.RingBufferSimple as Ring
use reiser_rt_core.RingBufferSimple.{RingBufferSimple, allocate}

pub record MemoryPool : Type 0 where
  pub ring_buffer : RingBufferSimple ℕ
  pub element_size : ℕ
  pub padded_element_size : ℕ
  pub pool_size : ℕ
  pub running_count : ℕ
  pub low_watermark : ℕ
  pub arena : List ℕ

-- `sizeof( void * )`
abbrev pub pointer_size : ℕ
pointer_size = 8

-- `getPaddedTypeAllocSize`
unfoldable pub get_padded_type_alloc_size : ℕ → ℕ
get_padded_type_alloc_size requested =
    if requested % pointer_size == 0
    then requested
    else u64 (requested + pointer_size - requested % pointer_size)

-- The loop of the constructor, with the rounds left.
pub stuff : ℕ → ℕ → ℕ → RingBufferSimple ℕ → Outcome (Unit {0}) × RingBufferSimple ℕ
stuff size zero i r = (returns tt, r)
stuff size (suc rounds) i r =
    let (o, r') = Ring.put r (u64 (i * size)) in
    elim o [
      | returns _ ↦ stuff size rounds (i + 1) r'
      | throws e ↦ (throws e, r')
      | fault ↦ (fault, r')
    ]

stuffed : ℕ → (ℕ → ℕ) → Outcome (Unit {0}) × RingBufferSimple ℕ → Outcome MemoryPool
stuffed size bytes (returns _, r) = returns (record {
  ring_buffer = r;
  element_size = size;
  padded_element_size = get_padded_type_alloc_size size;
  pool_size = Ring.get_size r;
  running_count = u32 (Ring.get_size r);
  low_watermark = u32 (Ring.get_size r);
  arena = allocate (u64 (size * Ring.get_size r)) bytes;
})
stuffed size bytes (throws e, r) = throws e
stuffed size bytes (fault, r) = fault

-- The constructor; `garbage` and `bytes` are what the new ring and arena happen to contain.
unfoldable pub construct : (ℕ → ℕ) → (ℕ → ℕ) → ℕ → ℕ → Outcome MemoryPool
unfolding stuffed
construct garbage bytes requested size =
    let r = Ring.construct garbage requested in
    stuffed size bytes (stuff size (Ring.get_size r) 0 r)

-- `n` bytes from offset `i` on become `v`.
unfoldable pub fill : List ℕ → ℕ → ℕ → ℕ → List ℕ
fill [] i n v = []
fill (b ∷ bs) zero zero v = b ∷ bs
fill (b ∷ bs) zero (suc n) v = v ∷ fill bs zero n v
fill (b ∷ bs) (suc i) n v = b ∷ fill bs i n v

-- `memset`, undefined where it leaves the array.
unfoldable pub memset : List ℕ → ℕ → ℕ → ℕ → Option (List ℕ)
memset bytes i v n = if ltb (length bytes) (i + n) then none else some (fill bytes i n v)

-- What `memset` leaves of the objects in the memory: none in the `n` bytes from `i` on.
abbrev pub wiped {ℓ} : {T : Type ℓ} → (ℕ → Option T) → ℕ → ℕ → ℕ → Option T
wiped objects i n a = if leb i a && ltb a (i + n) then none else objects a

-- The update of the running state in `getRawBlock`, as the exchange that succeeds makes it.
note_get : MemoryPool → MemoryPool
note_get p =
    let running = u32 (p.running_count + 2 ^ 32 - 1) in
    record p {
      running_count = running;
      low_watermark = if ltb running p.low_watermark then running else p.low_watermark;
    }

note_return : MemoryPool → MemoryPool
note_return p = record p { running_count = u32 (p.running_count + 1) }

-- The block is cleared for its whole padded size.
cleared : ℕ → MemoryPool → Option (List ℕ) → Outcome ℕ × MemoryPool
cleared raw p (some bytes) = (returns raw, record p { arena = bytes })
cleared raw p none = (fault, p)

got_raw : MemoryPool → Outcome ℕ × RingBufferSimple ℕ → Outcome ℕ × MemoryPool
unfolding cleared note_get
got_raw p (returns raw, r) =
    cleared raw (note_get (record p { ring_buffer = r }))
      (memset p.arena raw 0 p.padded_element_size)
got_raw p (throws e, r) = (throws e, record p { ring_buffer = r })
got_raw p (fault, r) = (fault, record p { ring_buffer = r })

-- `getRawBlock`
unfoldable pub get_raw_block : MemoryPool → Outcome ℕ × MemoryPool
unfolding got_raw
get_raw_block p = got_raw p (Ring.get p.ring_buffer)

returned_raw :
    MemoryPool → Outcome (Unit {0}) × RingBufferSimple ℕ → Outcome (Unit {0}) × MemoryPool
unfolding note_return
returned_raw p (returns _, r) = (returns tt, note_return (record p { ring_buffer = r }))
returned_raw p (_, r) = (fault, record p { ring_buffer = r })

-- `returnRawBlock`, which is `noexcept`.
unfoldable pub return_raw_block : MemoryPool → ℕ → Outcome (Unit {0}) × MemoryPool
unfolding returned_raw
return_raw_block p raw = returned_raw p (Ring.put p.ring_buffer raw)

-- Where the deleter of a smart pointer points: nowhere, as the default constructor leaves it, or to
-- the pool.
pub data MemoryPoolDeleterBase : Type 0 where
  no_pool to_pool : MemoryPoolDeleterBase

pub record RunningStateStats : Type 0 where
  pub size : ℕ
  pub running_count : ℕ
  pub low_watermark : ℕ

-- `getRunningStateStatistics`
unfoldable pub get_running_state_statistics : MemoryPool → RunningStateStats
get_running_state_statistics p = record {
  size = p.pool_size;
  running_count = p.running_count;
  low_watermark = p.low_watermark;
}
