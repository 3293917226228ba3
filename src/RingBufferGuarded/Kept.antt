-- ===== src/RingBufferGuarded/Kept.antt =====
-- What `get` and `put` of a guarded ring leave as it is.
use reiser_rt_core.Prelude.{◌<◌, ◌≡◌, false, arith}
use reiser_rt_core.Prelude.Words.{max32}
use reiser_rt_core.RingBufferSimple.Steps.{num_elements-put, num_elements-get}
use reiser_rt_core.Semaphore.{take_with, take_turn, give_with, give_turn}
use reiser_rt_core.RingBufferGuarded.{RingBufferGuarded, ready, get, put}
use reiser_rt_core.RingBufferGuarded.Contents.{Fits}

-- A buffer in regular use.
pub record IsReady {A : Type 0} (b : RingBufferGuarded A) : Type 0 where
  pub in_state : b.state ≡ ready
  pub no_abort : b.semaphore.abort_flag ≡ false
  pub fits : Fits b
  pub range : b.semaphore.max_available_count < max32

module _ {A : Type 0} (b : RingBufferGuarded A) (h : IsReady b) where
  pub get-IsReady :
      IsReady (get b).buffer
      × ((get b).buffer.semaphore.max_available_count ≡ b.semaphore.max_available_count)
  unfolding get take_with take_turn
  get-IsReady =
      let r = h.in_state in
      let n = h.no_abort in
      let f = h.fits in
      let g = h.range in
      let k = num_elements-get b.ring in
      (
        record {
          in_state = ground arith;
          no_abort = ground arith;
          fits = ground arith;
          range = ground arith;
        },
        ground arith,
      )

  pub put-IsReady :
      (v : A)
      → IsReady (put b v).buffer
        × ((put b v).buffer.semaphore.max_available_count ≡ b.semaphore.max_available_count)
  unfolding put give_with give_turn
  put-IsReady v =
      let r = h.in_state in
      let n = h.no_abort in
      let f = h.fits in
      let g = h.range in
      let k = num_elements-put b.ring v in
      (
        record {
          in_state = ground arith;
          no_abort = ground arith;
          fits = ground arith;
          range = ground arith;
        },
        ground arith,
      )
