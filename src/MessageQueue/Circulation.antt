-- ===== src/MessageQueue/Circulation.antt =====
-- The steps of the calls that put a message, and what is left beside one call.
use mathlib.Core.List.{append_assoc}
use reiser_rt_core.Prelude.{
  ℕ, ◌+◌, ◌≡◌, ◌≢◌, refl, sym, ap, subst, ◌∙◌, some, List, [], ◌∷◌, ◌++◌, arith, All,
}
use reiser_rt_core.Prelude.Families.{update}
use reiser_rt_core.Outcome.{returns}
use reiser_rt_core.RingBufferGuarded.{done}
use reiser_rt_core.MessageQueue.{raw_wait_and_get, raw_put_and_notify, cooked_put_and_notify}
use reiser_rt_core.MessageQueue.Contents.{Owns, IsBlock}
use reiser_rt_core.MessageQueue.Blocks.{alive-wiped, alive-update}
use reiser_rt_core.MessageQueue.RawBlocks.{
  raw_wait_and_get_takes, raw_wait_and_get_waits, raw_put_and_notify_returns,
}
use reiser_rt_core.MessageQueue.Waiting.{cooked_put_and_notify_sends}
use reiser_rt_core.MessageQueue.Sending.{Owns-update}
use reiser_rt_core.MessageQueue.Threads.{Pending, making, made, Shared}
use reiser_rt_core.MessageQueue.Flight.{
  block, holds, taken, placed, All-placed_split, All-placed, All-addresses, held_apart, Owns-calls,
}
use reiser_rt_core.MessageQueue.Passing.{
  is_running, dispatching, Alive, Excludes, Inv, dispatching_split, raw_get_lock, raw_put_lock,
  cooked_put_lock, raw_get_objects, Excludes-same,
}

module _ {M : Type 0} {s : Shared M} (v : Inv s) where
  pub takes-Inv :
      (a : ℕ)
      → (raw_wait_and_get s.queue).progress ≡ done (returns a)
      → Inv (record s { queue = (raw_wait_and_get s.queue).queue; calls = making a ∷ s.calls })
  takes-Inv a e =
      let (free, f) = first_free v.free refl in
      let h = subst (λ xs. Owns s.queue xs v.waiting (taken s.calls)) f v.owns in
      let owns = (raw_wait_and_get_takes s.queue a free v.waiting (taken s.calls) h).1 in
      let same_lock = raw_get_lock s.queue in
      record {
        free = free;
        waiting = v.waiting;
        owns = owns;
        alive = rw (raw_get_objects s.queue a e) (
            alive-wiped s.queue a (placed s.calls) h.free_blocks.0
              (All-placed (λ b. a ≢ b) s.calls (held_apart _ owns))
              (All-addresses (IsBlock s.queue) (placed s.calls)
                (All-placed (IsBlock s.queue) s.calls h.held_blocks))
              v.alive);
        in_order = v.in_order;
        exclusive =
            Excludes-same s.queue (raw_wait_and_get s.queue).queue same_lock (omega arith)
              v.exclusive;
      }
    where
      first_free : (xs : List ℕ) → v.free ≡ xs → (ys : List ℕ) × (v.free ≡ a ∷ ys)
      first_free [] f = cc (
        e,
        (raw_wait_and_get_waits s.queue v.waiting (taken s.calls)
            (subst (λ xs. Owns s.queue xs v.waiting (taken s.calls)) f v.owns)).0,
      )
      first_free (b ∷ ys) f =
          let got =
            (raw_wait_and_get_takes s.queue b ys v.waiting (taken s.calls)
              (subst (λ xs. Owns s.queue xs v.waiting (taken s.calls)) f v.owns)).0 in
          let same : b ≡ a = cc (e, got) in (ys, f ∙ ap (λ x. x ∷ ys) same)

  -- What is left when one call is looked at alone.
  module _ (before after : List (Pending M)) (c : Pending M)
      (at : s.calls ≡ before ++ c ∷ after) where
    pub alone : Owns s.queue v.free v.waiting (block c ∷ taken (before ++ after))
    alone =
        Owns-calls s.queue before after c
          (subst (λ cs. Owns s.queue v.free v.waiting (taken cs)) at v.owns)

    pub others-Alive : Alive s.queue (holds c) × Alive s.queue (placed (before ++ after))
    others-Alive =
        All-placed_split _ before c after (subst (λ cs. Alive s.queue (placed cs)) at v.alive)

    pub others_apart : All (λ x. block c ≢ x.0) (placed (before ++ after))
    others_apart = All-placed (λ b. block c ≢ b) (before ++ after) (held_apart _ alone)

    pub excludes : Excludes s.queue (is_running c + dispatching (before ++ after))
    excludes l = sym (ap dispatching at ∙ dispatching_split before c after) ∙ v.exclusive l

  pub makes-Inv :
      (before after : List (Pending M)) (a : ℕ) (m : M)
      → s.calls ≡ before ++ making a ∷ after
      → Inv (record s {
        queue = record s.queue { objects = update s.queue.objects a (some m) };
        calls = made a m ∷ before ++ after;
      })
  makes-Inv before after a m at = record {
    free = v.free;
    waiting = v.waiting;
    owns = Owns-update s.queue a (some m) (alone before after (making a) at);
    alive = (
      ground arith,
      alive-update s.queue.objects a (some m) (placed (before ++ after))
          (others_apart before after (making a) at) (others-Alive before after (making a) at).1,
    );
    in_order = v.in_order;
    exclusive = excludes before after (making a) at;
  }

  pub fails-Inv :
      (before after : List (Pending M)) (a : ℕ)
      → s.calls ≡ before ++ making a ∷ after
      → Inv (record s { queue = (raw_put_and_notify a s.queue).queue; calls = before ++ after })
  fails-Inv before after a at =
      let (p, n, owns, objects, noted) =
        raw_put_and_notify_returns s.queue a v.free v.waiting (taken (before ++ after))
          (alone before after (making a) at) in
      let same_lock = raw_put_lock s.queue a in
      record {
        free = v.free ++ a ∷ [];
        waiting = v.waiting;
        owns = owns;
        alive = rw objects (others-Alive before after (making a) at).1;
        in_order = v.in_order;
        exclusive =
            Excludes-same s.queue (raw_put_and_notify a s.queue).queue same_lock (omega arith)
              (excludes before after (making a) at);
      }

  pub sends-Inv :
      (before after : List (Pending M)) (a : ℕ) (m : M)
      → s.calls ≡ before ++ made a m ∷ after
      → Inv (record s {
        queue = (cooked_put_and_notify a s.queue).queue;
        calls = before ++ after;
        sent = s.sent ++ (a, m) ∷ [];
      })
  sends-Inv before after a m at =
      let alives = others-Alive before after (made a m) at in
      let (p, n, owns) =
        cooked_put_and_notify_sends s.queue a m v.free v.waiting (taken (before ++ after))
          (alone before after (made a m) at) alives.0.0 in
      let (same_lock, objects) = cooked_put_lock s.queue a in
      record {
        free = v.free;
        waiting = v.waiting ++ (a, m) ∷ [];
        owns = owns;
        alive = rw objects alives.1;
        in_order =
            ap (λ xs. xs ++ (a, m) ∷ []) v.in_order
            ∙ append_assoc s.received v.waiting ((a, m) ∷ []);
        exclusive =
            Excludes-same s.queue (cooked_put_and_notify a s.queue).queue same_lock (omega arith)
              (excludes before after (made a m) at);
      }
