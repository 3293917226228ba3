-- ===== src/MessageQueue/Tests.antt =====
-- A small message queue of src/MessageQueue.hpp at work: two blocks of 8 bytes, and numbers as
-- messages.
use mathlib.Core.List.Perm
use reiser_rt_core.Prelude.{
  ℕ, ◌+◌, ◌*◌, ◌^◌, ◌≤◌, ◌<◌, ◌≡◌, refl, true, false, some, none, List, [], ◌∷◌, arith, length,
}
use reiser_rt_core.Prelude.Words.{sub32}
use reiser_rt_core.Outcome.{Outcome, returns, throws, client}
use reiser_rt_core.RingBufferSimple.Contents.{Holds}
use reiser_rt_core.RingBufferGuarded as Guarded
use reiser_rt_core.RingBufferGuarded.{RingBufferGuarded, Progress, done, blocked}
use reiser_rt_core.RingBufferGuarded.Contents.{Represents}
use reiser_rt_core.RingBufferGuarded.Kept.{IsReady}
use reiser_rt_core.MemoryPool.{get_padded_type_alloc_size}
use reiser_rt_core.MessageQueue.{MessageQueue, construct, cooked_wait_and_get}
use reiser_rt_core.MessageQueue.Messages.{put, get_and_dispatch_with, purge, give_back_cooked}
use reiser_rt_core.MessageQueue.Contents.{IsBlock, blocks, Owns}
use reiser_rt_core.MessageQueue.Waiting.{cooked_wait_and_get_takes}
use reiser_rt_core.MessageQueue.Sending.{put_sends, put_throws}
use reiser_rt_core.MessageQueue.Dispatching.{get_and_dispatch_delivers}
use reiser_rt_core.MessageQueue.Construction.{construct-Owns_all}
use reiser_rt_core.MessageQueue.Purging.{purge_empties}
use reiser_rt_core.MessageQueue.BaseOffset.{base_address_returned}

-- A guarded ring of two places, whose counters say which of the addresses 0 and 8 it holds.
abbrev pub ring : ℕ → ℕ → ℕ → RingBufferGuarded ℕ
ring get_count put_count count = record {
  ring = record {
    get_count = get_count;
    put_count = put_count;
    num_bits = 1;
    num_elements_mask = 1;
    num_elements = 2;
    element_buf = 0 ∷ 8 ∷ [];
  };
  semaphore = record {
    available_count = count;
    max_available_count = 2;
    take_pending_count = 0;
    give_pending_count = 0;
    abort_flag = false;
  };
  state = Guarded.ready;
}

ring-Represents :
    (get_count put_count : ℕ) (xs : List ℕ)
    → get_count < 2 ^ 32
    → put_count < 2 ^ 32
    → sub32 put_count get_count ≡ length xs
    → length xs ≤ 2
    → Holds (0 ∷ 8 ∷ []) 2 get_count xs
    → Represents (ring get_count put_count (length xs)) xs
ring-Represents get_count put_count xs g p count few held = record {
  ring = record {
    sized = record { bits = omega arith; elements = refl; mask = refl; storage = refl };
    get_range = g;
    put_range = p;
    count = count;
    fits = few;
    held = held;
  };
  bounded = record { available = few; range = omega arith };
  count = refl;
}

ring-IsReady : (get_count put_count count : ℕ) → IsReady (ring get_count put_count count)
ring-IsReady get_count put_count count = record {
  in_state = refl;
  no_abort = refl;
  fits = omega arith;
  range = omega arith;
}

-- The queue with some blocks taken from the raw ring and as many messages put.
abbrev pub queue : RingBufferGuarded ℕ → RingBufferGuarded ℕ → ℕ → MessageQueue ℕ
queue raw cooked count = record {
  requested_num_elements = 2;
  element_size = 8;
  dispatch_locking = true;
  locked = false;
  arena = 1 ∷ 2 ∷ 3 ∷ 4 ∷ 5 ∷ 6 ∷ 7 ∷ 8 ∷ 9 ∷ 10 ∷ 11 ∷ 12 ∷ 13 ∷ 14 ∷ 15 ∷ 16 ∷ [];
  objects = λ a. some (a + 5);
  name_of_last_message_dispatched = none;
  raw_ring_buffer = raw;
  cooked_ring_buffer = cooked;
  running_count = count;
  high_watermark = 2;
  aborted = false;
}

-- One block is free, and one message waits, at 0.
abbrev pub half : MessageQueue ℕ
half = queue (ring 0 1 1) (ring 4294967295 0 1) 1

pub half-Owns : Owns half (8 ∷ []) ((0, 5) ∷ []) []
half-Owns = record {
  raw = ring-Represents 0 1 (8 ∷ []) (omega arith) (omega arith) refl (omega arith) (refl, tt);
  raw_ready = ring-IsReady 0 1 1;
  raw_room = refl;
  cooked =
      ring-Represents 4294967295 0 (0 ∷ []) (omega arith) (omega arith) refl (omega arith)
        (refl, tt);
  cooked_ready = ring-IsReady 4294967295 0 1;
  cooked_room = refl;
  storage = refl;
  positive = omega arith;
  running = refl;
  high = omega arith;
  high_range = omega arith;
  all_there = refl;
  alive = (refl, tt);
  free_blocks = ((1, omega arith, refl), tt);
  waiting_blocks = ((0, omega arith, refl), tt);
  held_blocks = tt;
  shares = Perm.swap 0 8 [];
}

-- No block is free, and two messages wait.
abbrev full : MessageQueue ℕ
full = queue (ring 1 1 0) (ring 4294967295 1 2) 2

full-Owns : Owns full [] ((0, 5) ∷ (8, 13) ∷ []) []
full-Owns = record {
  raw = ring-Represents 1 1 [] (omega arith) (omega arith) refl (omega arith) tt;
  raw_ready = ring-IsReady 1 1 0;
  raw_room = refl;
  cooked =
      ring-Represents 4294967295 1 (0 ∷ 8 ∷ []) (omega arith) (omega arith) refl (omega arith)
        (refl, (refl, tt));
  cooked_ready = ring-IsReady 4294967295 1 2;
  cooked_room = refl;
  storage = refl;
  positive = omega arith;
  running = refl;
  high = omega arith;
  high_range = omega arith;
  all_there = refl;
  alive = (refl, (refl, tt));
  free_blocks = tt;
  waiting_blocks = ((0, omega arith, refl), ((1, omega arith, refl), tt));
  held_blocks = tt;
  shares = Perm.refl (0 ∷ 8 ∷ []);
}

-- Both blocks are free, and no message waits.
abbrev idle : MessageQueue ℕ
idle = queue (ring 4294967295 1 2) (ring 1 1 0) 0

idle-Owns : Owns idle (0 ∷ 8 ∷ []) [] []
idle-Owns = record {
  raw =
      ring-Represents 4294967295 1 (0 ∷ 8 ∷ []) (omega arith) (omega arith) refl (omega arith)
        (refl, (refl, tt));
  raw_ready = ring-IsReady 4294967295 1 2;
  raw_room = refl;
  cooked = ring-Represents 1 1 [] (omega arith) (omega arith) refl (omega arith) tt;
  cooked_ready = ring-IsReady 1 1 0;
  cooked_room = refl;
  storage = refl;
  positive = omega arith;
  running = refl;
  high = omega arith;
  high_range = omega arith;
  all_there = refl;
  alive = tt;
  free_blocks = ((0, omega arith, refl), ((1, omega arith, refl), tt));
  waiting_blocks = tt;
  held_blocks = tt;
  shares = Perm.refl (0 ∷ 8 ∷ []);
}

-- What the client's functions do to a number.
abbrev add : ℕ → ℕ → Outcome (Unit {0}) × ℕ
add m w = (returns tt, w + m)

abbrev wake : ℕ → Outcome (Unit {0}) × ℕ
wake w = (returns tt, w * 2)

abbrev refuse : ℕ → Outcome (Unit {0}) × ℕ
refuse w = (throws (client 3), w)

abbrev number : ℕ → ℕ
number m = m

put_sends_example :
    let c = put 8 0 (returns 7) half in
    (c.progress ≡ done (returns tt)) × Owns c.queue [] ((0, 5) ∷ (8, 7) ∷ []) []
put_sends_example = put_sends half 8 8 [] ((0, 5) ∷ []) [] 7 (omega arith) half-Owns

put_throws_example :
    let c = put 8 0 (throws (client 1)) half in
    (c.progress ≡ done (throws (client 1))) × Owns c.queue (8 ∷ []) ((0, 5) ∷ []) []
put_throws_example = put_throws half 8 8 [] ((0, 5) ∷ []) [] (client 1) (omega arith) half-Owns

get_and_dispatch_delivers_example :
    let d = get_and_dispatch_with number add wake half 10 in
    (d.call.progress ≡ done (returns tt))
    × (d.world ≡ 25)
    × Owns d.call.queue (8 ∷ 0 ∷ []) [] []
    × (d.call.queue.objects 0 ≡ none)
    × (d.call.queue.name_of_last_message_dispatched ≡ some 5)
get_and_dispatch_delivers_example =
    get_and_dispatch_delivers number add wake half 10 0 5 (8 ∷ []) [] [] half-Owns 20 refl refl

purge_empties_example :
    let c = purge full in (c.progress ≡ done (returns tt)) × Owns c.queue (0 ∷ 8 ∷ []) [] []
purge_empties_example = purge_empties full [] ((0, 5) ∷ (8, 13) ∷ []) full-Owns

construct-Owns_all_example :
    (q : MessageQueue ℕ) × (construct (λ _. 9) (λ _. 170) 3 13 true ≡ returns q)
    × Owns q (blocks q) [] []
    × (q.requested_num_elements ≡ 3)
    × (q.element_size ≡ get_padded_type_alloc_size 13)
construct-Owns_all_example =
    construct-Owns_all (λ _. 9) (λ _. 170) 3 13 true (omega arith) (omega arith) (omega arith)
      (omega arith)

base_address_returned_example :
    let q = (cooked_wait_and_get half).queue in
    let c = give_back_cooked (0 + 4) (returns tt) [] q in
    (c.progress ≡ done (returns tt))
    × Represents c.queue.raw_ring_buffer (8 ∷ 4 ∷ [])
    × (¬ IsBlock q (0 + 4))
unfolding cooked_wait_and_get
base_address_returned_example =
    base_address_returned (cooked_wait_and_get half).queue 0 4 (8 ∷ []) [] [] (returns tt)
      (omega arith) (omega arith) (cooked_wait_and_get_takes half 0 5 (8 ∷ []) [] [] half-Owns).1

abbrev locked : MessageQueue ℕ
locked = record half { locked = true }

locked-Owns : Owns locked (8 ∷ []) ((0, 5) ∷ []) []
locked-Owns = record {
  raw = half-Owns.raw;
  raw_ready = half-Owns.raw_ready;
  raw_room = refl;
  cooked = half-Owns.cooked;
  cooked_ready = half-Owns.cooked_ready;
  cooked_room = refl;
  storage = refl;
  positive = half-Owns.positive;
  running = refl;
  high = half-Owns.high;
  high_range = half-Owns.high_range;
  all_there = refl;
  alive = half-Owns.alive;
  free_blocks = half-Owns.free_blocks;
  waiting_blocks = half-Owns.waiting_blocks;
  held_blocks = tt;
  shares = half-Owns.shares;
}
