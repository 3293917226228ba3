-- ===== src/RingBufferGuarded/Fifo.antt =====
-- The calls of src/RingBufferGuarded.hpp keep the ring a queue: as function objects of the
-- semaphore they neither throw nor lose the order of the elements.
use reiser_rt_core.Prelude.{
  ◌≢◌, dec_lt, ℕ, suc, ◌≤◌, ◌<◌, ◌≡◌, refl, sym, ap, ◌∙◌, List, [], ◌∷◌, ◌++◌, arith, length,
  length-append,
}
use mathlib.Core.List.{append_assoc, append-nil}
use reiser_rt_core.Outcome.{returns}
use reiser_rt_core.RingBufferSimple.Contents as RingContents
use reiser_rt_core.RingBufferSimple.Steps.{
  put_appends, get_takes, num_elements-get, num_elements-put,
}
use reiser_rt_core.Semaphore.Threads.{Operation}
use reiser_rt_core.Semaphore.Discipline.{Discipline}
use reiser_rt_core.RingBufferGuarded.Ledger.{Ledger, get_op, put_op, get_op_lem, put_op_lem}

module _ {A : Type 0} where
  -- The threads' function objects.
  abbrev pub IsGet : Operation (Ledger A) → Type 0
  IsGet op = op ≡ get_op

  abbrev pub IsPut : Operation (Ledger A) → Type 0
  IsPut op = (v : A) × (op ≡ put_op v)

  -- The ring holds `waiting`, which the semaphore counts; what was stored is what was fetched and
  -- what waits, in this order.
  pub record IsQueue (room : ℕ) (count : ℕ) (w : Ledger A) : Type 0 where
    pub waiting : List A
    pub ring : RingContents.Represents w.ring waiting
    pub space : room ≤ w.ring.num_elements
    pub counted : count ≡ length waiting
    pub in_order : w.stored ≡ w.fetched ++ waiting

  pub get_op-IsQueue :
      {room n : ℕ} (w : Ledger A) (xs : List A)
      → RingContents.Represents w.ring xs
      → room ≤ w.ring.num_elements
      → suc n ≡ length xs
      → w.stored ≡ w.fetched ++ xs
      → ((get_op w).0 ≡ returns tt) × IsQueue room n (get_op w).1
  get_op-IsQueue w [] h s c o = absurd (omega (arith, c))
  get_op-IsQueue w (x ∷ xs) h s c o =
      let (e, h') = get_takes xs x h in
      rw (get_op_lem w x e) (
        refl,
        record {
          waiting = xs;
          ring = h';
          space = rw (num_elements-get w.ring) s;
          counted = omega (arith, c);
          in_order = o ∙ sym (append_assoc w.fetched (x ∷ []) xs);
        },
      )

  pub put_op-IsQueue :
      {room n : ℕ} (w : Ledger A) (v : A)
      → n < room
      → IsQueue room n w
      → ((put_op v w).0 ≡ returns tt) × IsQueue room (suc n) (put_op v w).1
  put_op-IsQueue w v l q =
      let (e, h') = put_appends q.waiting v q.ring (omega (arith, l, q.space, q.counted)) in
      rw (put_op_lem w v e) (
        refl,
        record {
          waiting = q.waiting ++ v ∷ [];
          ring = h';
          space = rw (num_elements-put w.ring v) q.space;
          counted = omega (arith, q.counted, length-append q.waiting (v ∷ []));
          in_order = ap (λ s. s ++ v ∷ []) q.in_order ∙ append_assoc w.fetched q.waiting (v ∷ []);
        },
      )

  pub IsQueue-Discipline : (room : ℕ) → Discipline IsGet IsPut room (IsQueue room)
  IsQueue-Discipline room = record {
    take_returns = λ op n w ok q. rw ok (taken w q).0;
    take_keeps = λ op n w ok q. rw ok (taken w q).1;
    give_returns = λ op n w ok l q. rw ok.1 (put_op-IsQueue w ok.0 l q).0;
    give_keeps = λ op n w ok l q. rw ok.1 (put_op-IsQueue w ok.0 l q).1;
  }
    where
      taken :
          {n : ℕ} (w : Ledger A)
          → IsQueue room (suc n) w
          → ((get_op w).0 ≡ returns tt) × IsQueue room n (get_op w).1
      taken w q = get_op-IsQueue w q.waiting q.ring q.space q.counted q.in_order

module _ {A : Type 0} {room n : ℕ} (w : Ledger A) (q : IsQueue room n w) where
  pub nothing_waits : n ≡ 0 → w.stored ≡ w.fetched
  nothing_waits z = none_left q.waiting (z' ∙ z) q.in_order
    where
      z' : length q.waiting ≡ n
      z' = sym q.counted

      none_left : (xs : List A) → length xs ≡ 0 → w.stored ≡ w.fetched ++ xs → w.stored ≡ w.fetched
      none_left [] e o = o ∙ append-nil w.fetched
      none_left (x ∷ xs) e o = absurd (omega (arith, e))

  pub something_waits : w.stored ≢ w.fetched → 0 < n
  something_waits more = elim (dec_lt 0 n) [
    | yes l ↦ l
    | no nl ↦ absurd (more (nothing_waits (omega (arith, nl))))
  ]
