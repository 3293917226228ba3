-- ===== src/BlockPool/Arrays.antt =====
-- The arrays of a pool, from its constructor and getBlock to the deleter.
use native.Mathlib.Nat.{mul-div_cancel_left, mod-eq_of_lt}
use reiser_rt_core.Prelude.{
  ℕ, ◌+◌, ◌*◌, ◌/◌, ◌<◌, ◌^◌, ◌%◌, ◌≡◌, length, refl, ap, ◌∙◌, Option, none, some, List, [], ◌∷◌,
  ◌++◌, arith, get_elem?,
}
use reiser_rt_core.Prelude.Families.{update}
use reiser_rt_core.Outcome.{Outcome, Exception, returns, throws}
use reiser_rt_core.MemoryPool.{pointer_size, to_pool, get_raw_block, return_raw_block, wiped}
use reiser_rt_core.MemoryPool.Ownership.{Owns, sizes-get_raw_block}
use reiser_rt_core.MemoryPool.Construction.{construct-Owns}
use reiser_rt_core.MemoryPool.Lending.{get_raw_block_lends}
use reiser_rt_core.MemoryPool.Returning.{return_raw_block_regains}
use reiser_rt_core.BlockPool.{
  BlockPool, ElementKind, is_scalar, is_nothrow_default_constructible, may_throw, construct,
  get_block, delete_block, destroy_array, cooked_elements, make_elements,
}
use reiser_rt_core.BlockPool.Elements.{
  ended, made, length-made, destroy_array_all, make_elements-built, make_elements-throws,
  scalars_cleared,
}

-- The constructor notes the number of elements of a block, and makes blocks of just their size.
construct-sizes :
    {T : Type 0} (garbage bytes : ℕ → ℕ) (requested n size_of : ℕ) {p : BlockPool T}
    → size_of * n * 2 ^ 20 < 2 ^ 64
    → construct garbage bytes requested n size_of ≡ returns p
    → (p.elements_per_block ≡ n) × (p.pool.element_size ≡ size_of * n)
unfolding construct
construct-sizes garbage bytes requested n size_of {p} fits c =
    let small : size_of * n % 2 ^ 64 ≡ size_of * n = mod-eq_of_lt (omega arith) in
    let (m, cm, owns, e, k) =
      construct-Owns garbage bytes requested (size_of * n % 2 ^ 64) (omega (arith, small, fits)) in
    ground (arith, cm, e, small)

cooked_elements-made :
    {T : Type 0} (kind : ElementKind) (scalar : List (Option ℕ) → T) (size_of : ℕ)
    (cook : ℕ → Outcome T) (f : ℕ → T) (q : BlockPool T) (a : ℕ)
    → ((j : ℕ) → j < q.elements_per_block → cook j ≡ returns (f j))
    → ((j : ℕ) → j < size_of * q.elements_per_block → get_elem? q.pool.arena (a + j) ≡ some 0)
    → cooked_elements kind scalar size_of cook a q
      ≡ returns (made kind scalar size_of f q.elements_per_block)
unfolding cooked_elements
cooked_elements-made is_scalar scalar size_of cook f q a h cleared =
    ap returns (scalars_cleared scalar q.pool.arena a size_of q.elements_per_block cleared)
cooked_elements-made is_nothrow_default_constructible scalar size_of cook f q a h cleared =
    make_elements-built cook f q.elements_per_block 0 (λ j l. h j (omega (arith, l)))
cooked_elements-made may_throw scalar size_of cook f q a h cleared =
    make_elements-built cook f q.elements_per_block 0 (λ j l. h j (omega (arith, l)))

module _ {T : Type 0} (p : BlockPool T) (kind : ElementKind) (scalar : List (Option ℕ) → T)
    (size_of : ℕ) (cook : ℕ → Outcome T) where
  got_at :
      (a : ℕ) (xs : List T)
      → (get_raw_block p.pool).0 ≡ returns a
      → let m = (get_raw_block p.pool).1 in
        let arrays = wiped p.arrays a m.padded_element_size in
        cooked_elements kind scalar size_of cook a (record p { pool = m; arrays = arrays })
          ≡ returns xs
        → get_block kind scalar size_of cook p
          ≡ (returns a, record p { pool = m; arrays = update arrays a (some xs) })
  unfolding get_block
  got_at a xs e c = ground arith

  get_failed :
      (a : ℕ) (x : Exception)
      → (get_raw_block p.pool).0 ≡ returns a
      → (return_raw_block (get_raw_block p.pool).1 a).0 ≡ returns tt
      → make_elements cook p.elements_per_block 0 ≡ throws x
      → ((get_block may_throw scalar size_of cook p).0 ≡ throws x)
        × ((get_block may_throw scalar size_of cook p).1.pool
            ≡ (return_raw_block (get_raw_block p.pool).1 a).1)
  unfolding get_block
  get_failed a x e r c = ground arith

deleted_at :
    {T : Type 0} (q : BlockPool T) (kind : ElementKind) (size_of a : ℕ) (ys zs : List T)
    → q.arrays a ≡ some ys
    → destroy_array kind (q.pool.element_size / size_of) (some ys) ≡ some zs
    → (return_raw_block q.pool a).0 ≡ returns tt
    → delete_block to_pool kind size_of a q ≡ (
      returns zs,
      record {
        pool = (return_raw_block q.pool a).1;
        elements_per_block = q.elements_per_block;
        arrays = update q.arrays a none;
      },
    )
unfolding delete_block
deleted_at q kind size_of a ys zs e d r = rw e (rw d (ground arith))

-- A pool `p` as its constructor has made `p0`, with other blocks lent.
abbrev pub SameShape : {T : Type 0} → BlockPool T → BlockPool T → Type 0
SameShape p0 p =
    (p.elements_per_block ≡ p0.elements_per_block) × (p.pool.element_size ≡ p0.pool.element_size)

module _ {T : Type 0} (garbage bytes : ℕ → ℕ) (requested n size_of : ℕ) {p0 : BlockPool T}
    (fits : size_of * n * 2 ^ 20 < 2 ^ 64) (pos : 0 < size_of)
    (aligned : size_of * n % pointer_size ≡ 0)
    (constructed : construct garbage bytes requested n size_of ≡ returns p0) (p : BlockPool T)
    (same : SameShape p0 p) (a : ℕ) (free lent : List ℕ) (h : Owns p.pool (a ∷ free) lent)
    (scalar : List (Option ℕ) → T) (cook : ℕ → Outcome T) where
  shape : (p.elements_per_block ≡ n) × (p.pool.element_size ≡ size_of * n)
  shape =
      let (k, e) = construct-sizes garbage bytes requested n size_of fits constructed in
      (same.0 ∙ k, same.1 ∙ e)

  whole : p.pool.element_size % pointer_size ≡ 0
  whole = rw shape.1 aligned

  -- A pool that was constructed for `n` elements to a block, of `size_of` bytes, together a whole
  -- number of pointers, not empty and small enough that 2 ^ 20 of them have an address; one block
  -- free, and element constructors that return. getBlock returns the address of the oldest free
  -- block, where an array of `n` elements is alive, in order what the constructors have made, or
  -- cleared memory if they are scalars. The deleter, with its division of the element size of the
  -- pool by the size of an element, then destroys every element once and in order, or none if they
  -- are scalars, and makes the block the last free one.
  pub get_delete :
      (kind : ElementKind) (f : ℕ → T)
      → ((i : ℕ) → i < n → cook i ≡ returns (f i))
      → let (o, p1) = get_block kind scalar size_of cook p in
        let (d, p2) = delete_block to_pool kind size_of a p1 in
        let array = made kind scalar size_of f n in
        (o ≡ returns a)
        × Owns p1.pool free (a ∷ lent)
        × (p1.arrays a ≡ some array)
        × (d ≡ returns (ended kind array))
        × Owns p2.pool (free ++ a ∷ []) lent
        × (p2.arrays a ≡ none)
  get_delete kind f cooks =
      let (e, owns, w) = get_raw_block_lends p.pool a free lent a whole h in
      let (r, back, kept) = return_raw_block_regains (get_raw_block p.pool).1 a free [] lent owns in
      let m = (get_raw_block p.pool).1 in
      let array = made kind scalar size_of f n in
      let q : BlockPool T = record {
        pool = m;
        elements_per_block = p.elements_per_block;
        arrays = wiped p.arrays a m.padded_element_size;
      } in
      let p1 : BlockPool T = record {
        pool = m;
        elements_per_block = p.elements_per_block;
        arrays = update q.arrays a (some array);
      } in
      let alive : p1.arrays a ≡ some array = ground arith in
      let count : m.element_size / size_of ≡ length array =
        rw ((sizes-get_raw_block p.pool).0, shape.1, length-made kind scalar size_of f n)
          (mul-div_cancel_left n pos) in
      let cooked : cooked_elements kind scalar size_of cook a q ≡ returns array =
        cooked_elements-made kind scalar size_of cook f q a (rw shape.0 cooks) (rw shape.0 cleared)
        ∙ ap (λ k. returns (made kind scalar size_of f k)) shape.0 in
      rw
        (
          got_at p kind scalar size_of cook a array e cooked,
          deleted_at p1 kind size_of a array (ended kind array) alive
              (destroy_array_all kind array _ count) r,
        )
        (refl, owns, alive, refl, back, ground arith)
    where
      cleared :
          (j : ℕ) → j < size_of * n → get_elem? (get_raw_block p.pool).1.arena (a + j) ≡ some 0
      cleared j l =
          let (e, owns, w) = get_raw_block_lends p.pool a free lent (a + j) whole h in
          let s = shape.1 in ground (arith, w)

  -- For such a pool, with a free block, of a type whose constructors may throw: if one throws and
  -- those before it have returned, getBlock throws the same, and the block is the last free one.
  pub get_block_throws :
      (f : ℕ → T) (k : ℕ) (x : Exception)
      → k < n
      → ((i : ℕ) → i < k → cook i ≡ returns (f i))
      → cook k ≡ throws x
      → let (o, q) = get_block may_throw scalar size_of cook p in
        (o ≡ throws x) × Owns q.pool (free ++ a ∷ []) lent
  get_block_throws f k x l before at =
      let (e, owns, w) = get_raw_block_lends p.pool a free lent a whole h in
      let (r, back, kept) = return_raw_block_regains (get_raw_block p.pool).1 a free [] lent owns in
      let z : 0 + k ≡ k = omega arith in
      let thrown : make_elements cook n 0 ≡ throws x =
        make_elements-throws cook f x k n 0 l (λ j m. before j (omega (arith, m))) (rw z at) in
      let (o, q) = get_failed p may_throw scalar size_of cook a x e r (rw shape.0 thrown) in
      (o, rw q back)
