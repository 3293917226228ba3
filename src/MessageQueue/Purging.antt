-- ===== src/MessageQueue/Purging.antt =====
-- `purge` of a message queue, where no other thread is inside a call.
use mathlib.Core.List.{append_assoc, append-nil}
use reiser_rt_core.Prelude.{ℕ, suc, ◌≡◌, refl, subst, none, List, [], ◌∷◌, ◌++◌, arith, length}
use reiser_rt_core.Prelude.Families.{update}
use reiser_rt_core.Outcome.{returns}
use reiser_rt_core.RingBufferGuarded.{done}
use reiser_rt_core.MessageQueue.{
  MessageQueue, Sent, raw_put_and_notify, cooked_wait_and_get, get_running_state_statistics,
}
use reiser_rt_core.MessageQueue.Messages.{give_back_cooked, purge, purge_loop, purge_round}
use reiser_rt_core.MessageQueue.Contents.{Placed, addresses, Owns}
use reiser_rt_core.MessageQueue.RawBlocks.{raw_put_and_notify_returns}
use reiser_rt_core.MessageQueue.Waiting.{cooked_wait_and_get_takes}
use reiser_rt_core.MessageQueue.Sending.{Owns-update}

module _ {M : Type 0} where
  Owns-free :
      {q : MessageQueue M} {xs ys held : List ℕ} {waiting : List (Placed M)}
      → xs ≡ ys
      → Owns q xs waiting held
      → Owns q ys waiting held
  Owns-free {q} {held} {waiting} e h = subst (λ zs. Owns q zs waiting held) e h

  -- The queue with the message at `a` destroyed, and what returning its block makes of it.
  abbrev destroyed : MessageQueue M → ℕ → MessageQueue M
  destroyed q a =
      let p = (cooked_wait_and_get q).queue in record p { objects = update p.objects a none }

  purge_loop_step :
      (q : MessageQueue M) (n a : ℕ) (sent : List Sent)
      → (cooked_wait_and_get q).progress ≡ done (returns a)
      → (raw_put_and_notify a (destroyed q a)).progress ≡ done (returns tt)
      → purge_loop (suc n) sent q
        ≡ purge_loop n
            ((sent ++ (cooked_wait_and_get q).notices)
              ++ (raw_put_and_notify a (destroyed q a)).notices)
            (raw_put_and_notify a (destroyed q a)).queue
  unfolding purge_loop purge_round give_back_cooked
  purge_loop_step q n a sent e d = ground arith

  purge_loop_empties :
      (waiting : List (Placed M)) (q : MessageQueue M) (free : List ℕ) (sent : List Sent)
      → Owns q free waiting []
      → let c = purge_loop (length waiting) sent q in
        (c.progress ≡ done (returns tt)) × Owns c.queue (free ++ addresses waiting) [] []
  purge_loop_empties [] q free sent h = unfold purge_loop in (refl, rw append-nil h)
  purge_loop_empties ((a, m) ∷ waiting) q free sent h =
      let (e, got, there) = cooked_wait_and_get_takes q a m free waiting [] h in
      let (d, n, owns, same, named) =
        raw_put_and_notify_returns (destroyed q a) a free waiting []
          (Owns-update (cooked_wait_and_get q).queue a none got) in
      let (p, rest) =
        purge_loop_empties waiting (raw_put_and_notify a (destroyed q a)).queue (free ++ a ∷ [])
          ((sent ++ (cooked_wait_and_get q).notices)
            ++ (raw_put_and_notify a (destroyed q a)).notices)
          owns in
      rw (purge_loop_step q (length waiting) a sent e d)
        (p, Owns-free (append_assoc free (a ∷ []) (addresses waiting)) rest)

  -- A queue in use of which no caller holds a block: purge returns without a wait, leaves no
  -- message, and frees their blocks, oldest first.
  pub purge_empties :
      (q : MessageQueue M) (free : List ℕ) (waiting : List (Placed M))
      → Owns q free waiting []
      → let c = purge q in
        (c.progress ≡ done (returns tt)) × Owns c.queue (free ++ addresses waiting) [] []
  unfolding purge get_running_state_statistics
  purge_empties q free waiting h =
      subst
        (λ n.
          ((purge_loop n [] q).progress ≡ done (returns tt))
          × Owns (purge_loop n [] q).queue (free ++ addresses waiting) [] [])
        (omega (arith, h.running)) (purge_loop_empties waiting q free [] h)
