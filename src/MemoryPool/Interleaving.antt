-- ===== src/MemoryPool/Interleaving.antt =====
-- The steps of several threads on one pool of src/MemoryPoolBase.cpp, one by one.
use reiser_rt_core.Prelude.{
  ℕ, ◌^◌, ◌<◌, ◌≡◌, ap, subst, refl, List, [], ◌∷◌, ◌++◌, arith, length, length-append,
  length_split, true, some,
}
use reiser_rt_core.Prelude.Occurrences.{occurrences, occurrences-append}
use reiser_rt_core.Outcome.{Exception, returns, throws}
use reiser_rt_core.RingBufferSimple.Contents.{Represents, elements_bounds}
use reiser_rt_core.RingBufferSimple.Steps.{
  put_appends, get_takes, get_none, num_elements-get, num_elements-put,
}
use reiser_rt_core.MemoryPool.{MemoryPool, memset}
use reiser_rt_core.MemoryPool.Threads.{
  RunningState, load, after_get, after_return, exchange, ring_get, ring_put, Pc, outside, has,
  has_seen, has_counted, put, put_seen, Shared, goes, Step, gets, get_throws, get_loads,
  get_exchanges, get_fails, clears, puts, put_loads, put_exchanges, put_fails, Reach, here, next,
}
use reiser_rt_core.MemoryPool.Accesses.{exchange_get, exchange_return, exchange-load}
use reiser_rt_core.MemoryPool.Memory.{length-fill}
use reiser_rt_core.MemoryPool.Sharing.{in_hand, holding, taking, putting, Inv, SameSizes, Moves-Inv}

same-SameSizes : (p : MemoryPool) → SameSizes p p
same-SameSizes p = (refl, refl, refl, refl, refl)

-- A ring that returns a block had it first; one that throws is empty and left as it was.
got_first :
    (p : MemoryPool) (free : List ℕ) (raw : ℕ)
    → Represents p.ring_buffer free
    → (ring_get p).0 ≡ returns raw
    → (xs : List ℕ) × (free ≡ raw ∷ xs)
unfolding ring_get
got_first p [] raw h o = cc (o, ap (λ z. z.0) (get_none h))
got_first p (x ∷ xs) raw h o =
    let e : x ≡ raw = cc (o, (get_takes xs x h).0) in (xs, ap (λ y. y ∷ xs) e)

pub ring_get_throws :
    (p : MemoryPool) (free : List ℕ) (x : Exception)
    → Represents p.ring_buffer free
    → (ring_get p).0 ≡ throws x
    → (free ≡ []) × ((ring_get p).1 ≡ p)
unfolding ring_get
ring_get_throws p [] x h o = rw (get_none h) (refl, refl)
ring_get_throws p (y ∷ ys) x h o = cc (o, (get_takes ys y h).0)

length-memset :
    (bytes cleared : List ℕ) (i v n : ℕ)
    → memset bytes i v n ≡ some cleared
    → length cleared ≡ length bytes
unfolding memset
length-memset bytes cleared i v n e = ground (arith, length-fill bytes i n v)

module _ {n : ℕ} {s : Shared} (v : Inv n s) {i : ℕ} (l : i < n) where
  few : length v.free < 2 ^ 32
  few = omega (arith, elements_bounds s.pool.ring_buffer v.ring.sized, v.ring.fits)

  -- A thread that only looks, or tries the exchange in vain.
  looks-Inv :
      {x : Pc} (p : Pc)
      → s.pc i ≡ x
      → holding p ≡ holding x
      → ((a : ℕ) → in_hand a p ≡ in_hand a x)
      → putting p ≡ putting x
      → taking p ≡ taking x
      → Inv n (goes s i p)
  looks-Inv p e h a' pu ta = Moves-Inv v l e p (record {
    ring = v.ring;
    sizes = same-SameSizes s.pool;
    all_there = rw h refl;
    shares = λ a. rw (a' a) refl;
    range = v.range;
    running = λ d t r. rw (pu, ta) r;
  })

  gets-Inv :
      (raw : ℕ)
      → s.pc i ≡ outside
      → (ring_get s.pool).0 ≡ returns raw
      → Inv n (record (goes s i (has raw)) { pool = (ring_get s.pool).1 })
  unfolding ring_get
  gets-Inv raw e o =
      let (xs, f) = got_first s.pool v.free raw v.ring o in
      let h = (get_takes xs raw (subst (Represents s.pool.ring_buffer) f v.ring)).1 in
      Moves-Inv v l e (has raw) (record {
        ring = h;
        sizes = (refl, refl, refl, num_elements-get s.pool.ring_buffer, refl);
        all_there = omega (arith, ap length f);
        shares = λ a. omega (arith, ap (occurrences a) f);
        range = v.range;
        running = λ d t r. omega (arith, r, ap length f);
      })

  get_exchanges-Inv :
      (raw : ℕ) (seen : RunningState)
      → s.pc i ≡ has_seen raw seen
      → (exchange seen (after_get seen) s.pool).0 ≡ true
      → Inv n
          (record (goes s i (has_counted raw)) { pool = (exchange seen (after_get seen) s.pool).1 })
  get_exchanges-Inv raw seen e won =
      rw (exchange_get seen s.pool won, exchange-load s.pool (after_get (load s.pool)))
        (Moves-Inv v l e (has_counted raw) (record {
          ring = v.ring;
          sizes = same-SameSizes s.pool;
          all_there = refl;
          shares = λ a. refl;
          range = omega arith;
          running = λ d t r. omega (arith, r);
        }))

  clears-Inv :
      (raw : ℕ) (bytes : List ℕ)
      → s.pc i ≡ has_counted raw
      → memset s.pool.arena raw 0 s.pool.padded_element_size ≡ some bytes
      → Inv n (record (goes s i outside) {
        pool = record s.pool { arena = bytes };
        clients = raw ∷ s.clients;
      })
  clears-Inv raw bytes e m = Moves-Inv v l e outside (record {
    ring = v.ring;
    sizes = (
      refl,
      refl,
      refl,
      refl,
      length-memset s.pool.arena bytes raw 0 s.pool.padded_element_size m,
    );
    all_there = omega arith;
    shares = λ a. omega arith;
    range = v.range;
    running = λ d t r. r;
  })

  puts-Inv :
      (raw : ℕ) (before after : List ℕ)
      → s.pc i ≡ outside
      → s.clients ≡ before ++ raw ∷ after
      → Inv n (record (goes s i put) { pool = (ring_put raw s.pool).1; clients = before ++ after })
  unfolding ring_put
  puts-Inv raw before after e c = Moves-Inv v l e put (record {
    ring = (put_appends v.free raw v.ring room).1;
    sizes = (refl, refl, refl, num_elements-put s.pool.ring_buffer raw, refl);
    all_there =
        omega (arith, ap length c, length_split before raw after, length-append v.free (raw ∷ []));
    shares = λ a. omega (
      arith,
      ap (occurrences a) c,
      occurrences-append a before after,
      occurrences-append a before (raw ∷ after),
      occurrences-append a v.free (raw ∷ []),
    );
    range = v.range;
    running = λ d t r. omega (arith, r, length-append v.free (raw ∷ []));
  })
    where
      room : length v.free < s.pool.ring_buffer.num_elements
      room = omega (arith, v.size, v.all_there, ap length c, length_split before raw after)

  put_exchanges-Inv :
      (seen : RunningState)
      → s.pc i ≡ put_seen seen
      → (exchange seen (after_return seen) s.pool).0 ≡ true
      → Inv n (record (goes s i outside) { pool = (exchange seen (after_return seen) s.pool).1 })
  put_exchanges-Inv seen e won =
      rw (exchange_return seen s.pool won, exchange-load s.pool (after_return (load s.pool)))
        (Moves-Inv v l e outside (record {
          ring = v.ring;
          sizes = same-SameSizes s.pool;
          all_there = refl;
          shares = λ a. refl;
          range = omega arith;
          running = λ d t r. omega (arith, r);
        }))

pub Step-Inv : {n : ℕ} {s t : Shared} → Step n s t → Inv n s → Inv n t
Step-Inv {n} {s} (gets i raw l e o) v = gets-Inv v l raw e o
Step-Inv {n} {s} (get_throws i x l e o) v = rw (ring_get_throws s.pool v.free x v.ring o).1 v
Step-Inv {n} {s} (get_loads i raw l e) v =
    looks-Inv v l (has_seen raw (load s.pool)) e refl (λ a. refl) refl refl
Step-Inv {n} {s} (get_exchanges i raw seen l e won) v = get_exchanges-Inv v l raw seen e won
Step-Inv {n} {s} (get_fails i raw seen l e) v =
    looks-Inv v l (has_seen raw (load s.pool)) e refl (λ a. refl) refl refl
Step-Inv {n} {s} (clears i raw bytes l e m) v = clears-Inv v l raw bytes e m
Step-Inv {n} {s} (puts i raw before after l e c) v = puts-Inv v l raw before after e c
Step-Inv {n} {s} (put_loads i l e) v =
    looks-Inv v l (put_seen (load s.pool)) e refl (λ a. refl) refl refl
Step-Inv {n} {s} (put_exchanges i seen l e won) v = put_exchanges-Inv v l seen e won
Step-Inv {n} {s} (put_fails i seen l e) v =
    looks-Inv v l (put_seen (load s.pool)) e refl (λ a. refl) refl refl

pub Reach-Inv : {n : ℕ} {s t : Shared} → Inv n s → Reach n s t → Inv n t
Reach-Inv v here = v
Reach-Inv v (next r st) = Step-Inv st (Reach-Inv v r)
