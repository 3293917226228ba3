-- ===== src/MemoryPool/Sharing.antt =====
-- What every step of several threads on one pool of src/MemoryPoolBase.cpp keeps: where the blocks
-- are, and how far the running count is from the number of free ones.
use reiser_rt_core.Prelude.{ℕ, ◌+◌, ◌*◌, ◌%◌, ◌^◌, ◌<◌, ◌≡◌, sym, ap, ◌∙◌, List, arith, length}
use reiser_rt_core.Prelude.Families.{update, total, total-update}
use reiser_rt_core.Prelude.Occurrences.{same, occurrences}
use reiser_rt_core.Prelude.Words.{u32}
use reiser_rt_core.RingBufferSimple.Contents.{Represents}
use reiser_rt_core.MemoryPool.{MemoryPool, pointer_size, get_padded_type_alloc_size}
use reiser_rt_core.MemoryPool.Ownership.{blocks}
use reiser_rt_core.MemoryPool.Threads.{
  Pc, outside, has, has_seen, has_counted, put, put_seen, Shared,
}

-- How often the address `a` is in the hands of a thread within `getRawBlock`.
abbrev pub in_hand : ℕ → Pc → ℕ
in_hand a outside = 0
in_hand a (has raw) = same raw a
in_hand a (has_seen raw seen) = same raw a
in_hand a (has_counted raw) = same raw a
in_hand a put = 0
in_hand a (put_seen seen) = 0

-- The blocks that it holds, the ones of them that it has not counted yet, and the ones that it has
-- put back and not counted yet.
abbrev pub holding : Pc → ℕ
holding outside = 0
holding (has raw) = 1
holding (has_seen raw seen) = 1
holding (has_counted raw) = 1
holding put = 0
holding (put_seen seen) = 0

abbrev pub taking : Pc → ℕ
taking outside = 0
taking (has raw) = 1
taking (has_seen raw seen) = 1
taking (has_counted raw) = 0
taking put = 0
taking (put_seen seen) = 0

abbrev pub putting : Pc → ℕ
putting outside = 0
putting (has raw) = 0
putting (has_seen raw seen) = 0
putting (has_counted raw) = 0
putting put = 1
putting (put_seen seen) = 1

pub record Inv (n : ℕ) (s : Shared) : Type 0 where
  pub free : List ℕ
  pub ring : Represents s.pool.ring_buffer free
  pub size : s.pool.pool_size ≡ s.pool.ring_buffer.num_elements
  pub padded : s.pool.padded_element_size ≡ get_padded_type_alloc_size s.pool.element_size
  pub positive : 0 < s.pool.element_size
  pub aligned : s.pool.element_size % pointer_size ≡ 0
  pub storage : length s.pool.arena ≡ s.pool.element_size * s.pool.pool_size
  pub all_there : length free + (total holding n s.pc + length s.clients) ≡ s.pool.pool_size
  pub shares :
      (a : ℕ)
      → occurrences a free + (total (in_hand a) n s.pc + occurrences a s.clients)
        ≡ occurrences a (blocks s.pool)
  pub range : s.pool.running_count < 2 ^ 32
  pub running :
      u32 (s.pool.running_count + total putting n s.pc) ≡ u32 (length free + total taking n s.pc)

-- What a change of the place of one thread does to a sum.
pub total-goes :
    (w : Pc → ℕ) {n : ℕ} (s : Shared) {i : ℕ} {x : Pc} (p : Pc)
    → i < n
    → s.pc i ≡ x
    → total w n (update s.pc i p) + w x ≡ w p + total w n s.pc
total-goes w {n} s {i} p l e =
    ap (λ y. total w n (update s.pc i p) + w y) (sym e) ∙ total-update w n i s.pc p l

-- The pool `q` has the sizes of `p`.
abbrev pub SameSizes : MemoryPool → MemoryPool → Type 0
SameSizes p q =
    (q.pool_size ≡ p.pool_size)
    × (q.element_size ≡ p.element_size)
    × (q.padded_element_size ≡ p.padded_element_size)
    × (q.ring_buffer.num_elements ≡ p.ring_buffer.num_elements)
    × (length q.arena ≡ length p.arena)

module _ {n : ℕ} {s : Shared} (v : Inv n s) {i : ℕ} {x : Pc} (l : i < n) (e : s.pc i ≡ x)
    (p : Pc) where
  -- What a thread that goes from `x` to `p` owes the invariant: it moves blocks, with what it
  -- counts of them, and loses none.
  pub record Moves (q : MemoryPool) (cs free : List ℕ) : Type 0 where
    pub ring : Represents q.ring_buffer free
    pub sizes : SameSizes s.pool q
    pub all_there :
        length free + (holding p + length cs) ≡ length v.free + (holding x + length s.clients)
    pub shares :
        (a : ℕ)
        → occurrences a free + (in_hand a p + occurrences a cs)
          ≡ occurrences a v.free + (in_hand a x + occurrences a s.clients)
    pub range : q.running_count < 2 ^ 32
    pub running :
        (d t : ℕ)
        → u32 (s.pool.running_count + (putting x + d)) ≡ u32 (length v.free + (taking x + t))
        → u32 (q.running_count + (putting p + d)) ≡ u32 (length free + (taking p + t))

  pub Moves-Inv :
      {q : MemoryPool} {cs free : List ℕ}
      → Moves q cs free
      → Inv n (record { pool = q; clients = cs; pc = update s.pc i p })
  Moves-Inv {q} {cs} {free} m = record {
    free = free;
    ring = m.ring;
    size = m.sizes.0 ∙ v.size ∙ sym m.sizes.3;
    padded = rw (m.sizes.2, m.sizes.1) v.padded;
    positive = rw m.sizes.1 v.positive;
    aligned = rw m.sizes.1 v.aligned;
    storage = m.sizes.4 ∙ rw (m.sizes.0, m.sizes.1) v.storage;
    all_there = omega (arith, m.all_there, v.all_there, m.sizes.0, to holding);
    shares = λ a. rw (m.sizes.0, m.sizes.1) (omega (arith, m.shares a, v.shares a, to (in_hand a)));
    range = m.range;
    running = counts;
  }
    where
      to : (w : Pc → ℕ) → total w n (update s.pc i p) + w x ≡ w p + total w n s.pc
      to w = total-goes w s p l e

      rest :
          (d : ℕ) × (t : ℕ) × (total putting n s.pc ≡ putting x + d)
          × (total taking n s.pc ≡ taking x + t)
      rest = (
        total putting n (update s.pc i outside),
        total taking n (update s.pc i outside),
        omega (arith, total-goes putting s outside l e),
        omega (arith, total-goes taking s outside l e),
      )

      counts :
          u32 (q.running_count + total putting n (update s.pc i p))
          ≡ u32 (length free + total taking n (update s.pc i p))
      counts =
          let (d, t, ed, et) = rest in
          let now = m.running d t (rw (sym ed, sym et) v.running) in
          let ep : total putting n (update s.pc i p) ≡ putting p + d =
            omega (arith, ed, to putting) in
          let et' : total taking n (update s.pc i p) ≡ taking p + t =
            omega (arith, et, to taking) in
          rw (ep, et') now
