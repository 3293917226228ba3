-- ===== src/MessageQueue.antt =====
-- src/MessageQueueBase.cpp (`MessageQueueBase::Imple`), with its client src/MessageQueue.hpp and
-- src/MessageQueue.cpp: equal blocks of an arena go round between a ring of raw blocks and a ring
-- of messages. An address is an offset into the arena; `M` stands for the messages and `V` for what
-- the functions of the client work on.
pub mod Messages
pub mod Contents
pub mod Blocks
pub mod RawBlocks
pub mod Waiting
pub mod Sending
pub mod Dispatching
pub mod Construction
pub mod Purging
pub mod Threads
pub mod Flight
pub mod Passing
pub mod Circulation
pub mod Receipts
pub mod Deliveries
pub mod ThreadTests
pub mod BaseOffset
pub mod Exclusion
mod Tests
pub mod DispatchLock
use reiser_rt_core.Prelude.{
  ℕ, ◌+◌, ◌-◌, ◌*◌, ◌^◌, Bool, true, false, Option, none, some, List, ◌++◌, map, ltb, leb, ◌&&◌,
  if◌then◌else◌,
}
use reiser_rt_core.Prelude.Words.{u32, u64}
use reiser_rt_core.Outcome.{Outcome, returns, throws, fault}
use reiser_rt_core.RingBufferSimple.{allocate}
use reiser_rt_core.Semaphore.{Notice}
use reiser_rt_core.RingBufferGuarded as Guarded
use reiser_rt_core.RingBufferGuarded.{RingBufferGuarded, Progress, done, blocked, Result}
use reiser_rt_core.MemoryPool.{get_padded_type_alloc_size, memset, wiped}

-- `dispatch_locking` says whether there is a dispatch mutex, and `locked` whether a client holds
-- it; `objects` says which message lies at an address, if one is alive there.
pub record MessageQueue (M : Type 0) : Type 0 where
  pub requested_num_elements : ℕ
  pub element_size : ℕ
  pub dispatch_locking : Bool
  pub locked : Bool
  pub arena : List ℕ
  pub objects : ℕ → Option M
  pub name_of_last_message_dispatched : Option ℕ
  pub raw_ring_buffer : RingBufferGuarded ℕ
  pub cooked_ring_buffer : RingBufferGuarded ℕ
  pub running_count : ℕ
  pub high_watermark : ℕ
  pub aborted : Bool

-- A notice to the threads that wait at one of the rings.
pub data Sent : Type 0 where
  at_raw at_cooked : Notice → Sent

-- What a call leaves when it is over or its thread sleeps.
pub record Call (M B : Type 0) : Type 0 where
  pub progress : Progress B
  pub queue : MessageQueue M
  pub notices : List Sent

module _ {M : Type 0} where
  constructed : Outcome (Unit {0}) × RingBufferGuarded ℕ → MessageQueue M → Outcome (MessageQueue M)
  constructed (returns _, raw) q = returns (record q { raw_ring_buffer = raw })
  constructed (throws e, raw) q = throws e
  constructed (fault, raw) q = fault

  -- The constructor, without an abort while it runs. `garbage` and `bytes` are what new memory
  -- holds.
  unfoldable pub construct : (ℕ → ℕ) → (ℕ → ℕ) → ℕ → ℕ → Bool → Outcome (MessageQueue M)
  unfolding constructed
  construct garbage bytes requested size locking =
      let element_size = get_padded_type_alloc_size size in
      let raw = Guarded.construct garbage requested true in
      constructed (Guarded.prime (λ i. returns (u64 (i * element_size))) (λ _. false) raw) (record {
        requested_num_elements = requested;
        element_size = element_size;
        dispatch_locking = locking;
        locked = false;
        arena = allocate (u64 (element_size * requested)) bytes;
        objects = λ _. none;
        name_of_last_message_dispatched = none;
        raw_ring_buffer = raw;
        cooked_ring_buffer = Guarded.construct garbage requested false;
        running_count = 0;
        high_watermark = 0;
        aborted = false;
      })

  unfoldable pub abort : MessageQueue M → MessageQueue M × List Sent
  abort q =
      let (cooked, to_cooked) = Guarded.abort q.cooked_ring_buffer in
      let (raw, to_raw) = Guarded.abort q.raw_ring_buffer in
      (
        record q { aborted = true; cooked_ring_buffer = cooked; raw_ring_buffer = raw },
        map at_cooked to_cooked ++ map at_raw to_raw,
      )

  -- The update of the running state in `rawWaitAndGet`, as the exchange that succeeds makes it.
  note_raw_get : MessageQueue M → MessageQueue M
  note_raw_get q =
      let running = u32 (q.running_count + 1) in
      record q {
        running_count = running;
        high_watermark = if ltb q.high_watermark running then running else q.high_watermark;
      }

  note_raw_put : MessageQueue M → MessageQueue M
  note_raw_put q = record q { running_count = u32 (q.running_count + 2 ^ 32 - 1) }

  cleared : ℕ → MessageQueue M → Option (List ℕ) → Progress ℕ × MessageQueue M
  cleared raw q (some bytes) =
      (done (returns raw), record q { arena = bytes; objects = wiped q.objects raw q.element_size })
  cleared raw q none = (done fault, q)

  -- `rawWaitAndGet` behind the ring's `get`.
  raw_got : Progress ℕ → MessageQueue M → Progress ℕ × MessageQueue M
  unfolding cleared note_raw_get
  raw_got (done (returns raw)) q =
      cleared raw (note_raw_get q) (memset q.arena raw 0 q.element_size)
  raw_got p q = (p, q)

  raw_taken : Result ℕ ℕ → MessageQueue M → Call M ℕ
  unfolding raw_got
  raw_taken g q =
      let (p, q') = raw_got g.progress (record q { raw_ring_buffer = g.buffer }) in
      record { progress = p; queue = q'; notices = map at_raw g.notices }

  -- `rawWaitAndGet`, and its continuation after a wake-up.
  unfoldable pub raw_wait_and_get : MessageQueue M → Call M ℕ
  unfolding raw_taken
  raw_wait_and_get q = raw_taken (Guarded.get q.raw_ring_buffer) q

  unfoldable pub raw_wait_and_get_resume : MessageQueue M → Call M ℕ
  unfolding raw_taken
  raw_wait_and_get_resume q = raw_taken (Guarded.get_resume q.raw_ring_buffer) q

  raw_noted : Progress (Unit {0}) → MessageQueue M → MessageQueue M
  unfolding note_raw_put
  raw_noted (done (returns _)) q = note_raw_put q
  raw_noted p q = q

  unfoldable pub raw_put_and_notify : ℕ → MessageQueue M → Call M (Unit {0})
  unfolding raw_noted
  raw_put_and_notify raw q =
      let g = Guarded.put q.raw_ring_buffer raw in
      record {
        progress = g.progress;
        queue = raw_noted g.progress (record q { raw_ring_buffer = g.buffer });
        notices = map at_raw g.notices;
      }

  unfoldable pub cooked_put_and_notify : ℕ → MessageQueue M → Call M (Unit {0})
  cooked_put_and_notify cooked q =
      let g = Guarded.put q.cooked_ring_buffer cooked in
      record {
        progress = g.progress;
        queue = record q { cooked_ring_buffer = g.buffer };
        notices = map at_cooked g.notices;
      }

  cooked_taken : Result ℕ ℕ → MessageQueue M → Call M ℕ
  cooked_taken g q = record {
    progress = g.progress;
    queue = record q { cooked_ring_buffer = g.buffer };
    notices = map at_cooked g.notices;
  }

  -- `cookedWaitAndGet`, and its continuation after a wake-up.
  unfoldable pub cooked_wait_and_get : MessageQueue M → Call M ℕ
  unfolding cooked_taken
  cooked_wait_and_get q = cooked_taken (Guarded.get q.cooked_ring_buffer) q

  unfoldable pub cooked_wait_and_get_resume : MessageQueue M → Call M ℕ
  unfolding cooked_taken
  cooked_wait_and_get_resume q = cooked_taken (Guarded.get_resume q.cooked_ring_buffer) q

pub record RunningStateStats : Type 0 where
  pub size : ℕ
  pub running_count : ℕ
  pub high_watermark : ℕ

module _ {M : Type 0} where
  unfoldable pub get_running_state_statistics : MessageQueue M → RunningStateStats
  get_running_state_statistics q = record {
    size = q.requested_num_elements;
    running_count = q.running_count;
    high_watermark = q.high_watermark;
  }

  abbrev pub is_aborted : MessageQueue M → Bool
  is_aborted q = q.aborted

  abbrev pub get_element_size : MessageQueue M → ℕ
  get_element_size q = q.element_size

  abbrev pub get_name_of_last_message_dispatched : MessageQueue M → Option ℕ
  get_name_of_last_message_dispatched q = q.name_of_last_message_dispatched
