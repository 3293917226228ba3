-- ===== src/MessageQueue/Passing.antt =====
-- What the steps of several threads on one message queue keep.
use reiser_rt_core.Prelude.{
  ℕ, ◌+◌, ◌≡◌, refl, sym, ◌∙◌, true, some, none, List, [], ◌∷◌, ◌++◌, arith, if◌then◌else◌, All,
}
use reiser_rt_core.Prelude.Families.{update}
use reiser_rt_core.Outcome.{returns}
use reiser_rt_core.RingBufferGuarded.{done}
use reiser_rt_core.MemoryPool.{wiped}
use reiser_rt_core.MessageQueue.{
  MessageQueue, raw_wait_and_get, raw_put_and_notify, cooked_put_and_notify, cooked_wait_and_get,
}
use reiser_rt_core.MessageQueue.Messages.{give_back_cooked}
use reiser_rt_core.MessageQueue.Contents.{Placed, Owns}
use reiser_rt_core.MessageQueue.Threads.{Pending, running, Shared}
use reiser_rt_core.MessageQueue.Flight.{taken, placed}

-- The calls within a dispatch.
abbrev pub is_running : {M : Type 0} → Pending M → ℕ
is_running (running a m) = 1
is_running _ = 0

abbrev pub dispatching : {M : Type 0} → List (Pending M) → ℕ
dispatching [] = 0
dispatching (c ∷ cs) = is_running c + dispatching cs

-- The message at its address is alive.
abbrev pub Alive : {M : Type 0} → MessageQueue M → List (Placed M) → Type 0
Alive q xs = All (λ x. q.objects x.0 ≡ some x.1) xs

-- With a dispatch mutex, it is held by the call within a dispatch.
abbrev pub Excludes : {M : Type 0} → MessageQueue M → ℕ → Type 0
Excludes q k = q.dispatch_locking ≡ true → k ≡ (if q.locked then 1 else 0)

pub record Inv {M : Type 0} (s : Shared M) : Type 0 where
  pub free : List ℕ
  pub waiting : List (Placed M)
  pub owns : Owns s.queue free waiting (taken s.calls)
  pub alive : Alive s.queue (placed s.calls)
  pub in_order : s.sent ≡ s.received ++ waiting
  pub exclusive : Excludes s.queue (dispatching s.calls)

-- What the calls of the rings leave alone.
abbrev pub SameLock : {M : Type 0} → MessageQueue M → MessageQueue M → Type 0
SameLock q p = (p.dispatch_locking ≡ q.dispatch_locking) × (p.locked ≡ q.locked)

module _ {M : Type 0} where
  pub dispatching_split :
      (before : List (Pending M)) (c : Pending M) (after : List (Pending M))
      → dispatching (before ++ c ∷ after) ≡ is_running c + dispatching (before ++ after)
  dispatching_split [] c after = refl
  dispatching_split (d ∷ before) c after = omega (arith, dispatching_split before c after)

module _ {M : Type 0} (q : MessageQueue M) where
  pub raw_get_lock : SameLock q (raw_wait_and_get q).queue
  unfolding raw_wait_and_get
  raw_get_lock = (ground arith, ground arith)

  pub raw_put_lock : (a : ℕ) → SameLock q (raw_put_and_notify a q).queue
  unfolding raw_put_and_notify
  raw_put_lock a = (ground arith, ground arith)

  pub cooked_get_lock :
      SameLock q (cooked_wait_and_get q).queue × ((cooked_wait_and_get q).queue.objects ≡ q.objects)
  unfolding cooked_wait_and_get
  cooked_get_lock = ((refl, refl), refl)

  pub cooked_put_lock :
      (a : ℕ)
      → SameLock q (cooked_put_and_notify a q).queue
        × ((cooked_put_and_notify a q).queue.objects ≡ q.objects)
  unfolding cooked_put_and_notify
  cooked_put_lock a = ((refl, refl), refl)

  pub raw_get_objects :
      (a : ℕ)
      → (raw_wait_and_get q).progress ≡ done (returns a)
      → (raw_wait_and_get q).queue.objects ≡ wiped q.objects a q.element_size
  unfolding raw_wait_and_get
  raw_get_objects a e = ground arith

  pub give_back_queue :
      (a : ℕ)
      → (give_back_cooked {B = Unit {0}} a (returns tt) [] q).queue
        ≡ (raw_put_and_notify a (record q { objects = update q.objects a none })).queue
  unfolding give_back_cooked
  give_back_queue a = ground arith

  pub Excludes-same :
      (p : MessageQueue M) {j k : ℕ} → SameLock q p → j ≡ k → Excludes q j → Excludes p k
  Excludes-same p same_lock e h l = rw (sym e, same_lock.1) (h (sym same_lock.0 ∙ l))
