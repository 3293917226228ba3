-- ===== src/RingBufferSimple/Steps.antt =====
-- What `put` and `get` do to a ring that holds given elements.
use native.Mathlib.Nat.{mod-lt, one-le-pow, pow-le-pow_right}
use reiser_rt_core.Prelude.{
  ℕ, zero, suc, ◌+◌, ◌-◌, ◌%◌, ◌^◌, ◌<◌, ◌≡◌, refl, ap, sym, ◌∙◌, List, [], ◌∷◌, ◌++◌, arith,
  length, set, length-set, length-append,
}
use reiser_rt_core.Prelude.Words.{u32}
use reiser_rt_core.Outcome.{returns, throws, ring_buffer_underflow, ring_buffer_overflow}
use reiser_rt_core.RingBufferSimple.{
  RingBufferSimple, num_bits_for_ne, mask_for_nb, allocate, construct, get, put,
}
use reiser_rt_core.RingBufferSimple.Sizing.{num_bits_for_ne_least}
use reiser_rt_core.RingBufferSimple.Contents.{
  IsSized, Represents, slot, u32-slot, elements_bounds, Holds-congr, Holds-append,
}

module _ {ℓ} {A : Type ℓ} where
  pub length-allocate : (n : ℕ) (garbage : ℕ → A) → length (allocate n garbage) ≡ n
  unfolding allocate
  length-allocate zero garbage = refl
  length-allocate (suc n) garbage = ap suc (length-allocate n garbage)

  construct-IsSized : (garbage : ℕ → A) (requested : ℕ) → IsSized (construct garbage requested)
  unfolding construct mask_for_nb
  construct-IsSized garbage requested = ground (
    arith,
    num_bits_for_ne_least requested,
    one-le-pow (num_bits_for_ne requested) 2,
    pow-le-pow_right {n = 2} (omega arith) (num_bits_for_ne_least requested).3,
    length-allocate (u32 (2 ^ num_bits_for_ne requested - 1 + 1)) garbage,
  )

  pub elements_of_construct :
      (garbage : ℕ → A) (requested : ℕ)
      → (construct garbage requested).num_elements ≡ 2 ^ num_bits_for_ne requested
  unfolding construct
  elements_of_construct garbage requested = (construct-IsSized garbage requested).elements

  -- A new ring is well-formed and empty.
  pub construct-Represents :
      (garbage : ℕ → A) (requested : ℕ) → Represents (construct garbage requested) []
  unfolding construct
  construct-Represents garbage requested = record {
    sized = construct-IsSized garbage requested;
    get_range = omega arith;
    put_range = omega arith;
    count = refl;
    fits = omega arith;
    held = tt;
  }

  -- The index that the next `put` writes, and the rings after a `put` and a `get` that succeed.
  abbrev tail : RingBufferSimple A → ℕ
  tail r = (r.put_count + 1) % r.num_elements

  abbrev after_put : RingBufferSimple A → A → RingBufferSimple A
  after_put r v = record r {
    put_count = u32 (r.put_count + 1);
    element_buf = set r.element_buf (tail r) v;
  }

  abbrev after_get : RingBufferSimple A → RingBufferSimple A
  after_get r = record r { get_count = u32 (r.get_count + 1) }

  module _ {r : RingBufferSimple A} where
    pub put_full :
        {xs : List A} (v : A)
        → Represents r xs
        → length xs ≡ r.num_elements
        → put r v ≡ (throws ring_buffer_overflow, r)
    unfolding put
    put_full v h e = ground (arith, elements_bounds r h.sized)

    pub get_none : Represents r [] → get r ≡ (throws ring_buffer_underflow, r)
    unfolding get
    get_none h = ground (arith, elements_bounds r h.sized)

    pub get_some : {x : A} {xs : List A} → Represents r (x ∷ xs) → get r ≡ (returns x, after_get r)
    unfolding get
    get_some h = ground (arith, elements_bounds r h.sized, slot r (r.get_count + 1) h.sized)

    tail-lt : IsSized r → tail r < length r.element_buf
    tail-lt s =
        omega (arith, s.storage, elements_bounds r s, mod-lt (r.put_count + 1) {m = r.num_elements})

    pub put_room :
        {xs : List A} (v : A)
        → Represents r xs
        → length xs < r.num_elements
        → put r v ≡ (returns tt, after_put r v)
    unfolding put
    put_room v h lt =
        ground (arith, elements_bounds r h.sized, slot r (r.put_count + 1) h.sized, tail-lt h.sized)

    -- That index lies just behind the last element.
    tail_behind :
        {xs : List A} → Represents r xs → tail r ≡ (r.get_count + suc (length xs)) % r.num_elements
    tail_behind {xs} h =
        sym (u32-slot r (r.put_count + 1) h.sized)
        ∙ ap (λ (t : ℕ). t % r.num_elements) same
        ∙ u32-slot r (r.get_count + suc (length xs)) h.sized
      where
        same : u32 (r.put_count + 1) ≡ u32 (r.get_count + suc (length xs))
        same = omega (arith, h.count, h.get_range, h.put_range, h.fits, elements_bounds r h.sized)

    pub put_room-Represents :
        (xs : List A) (v : A)
        → Represents r xs
        → length xs < r.num_elements
        → Represents (after_put r v) (xs ++ v ∷ [])
    put_room-Represents xs v h lt = record {
      sized = record {
        bits = h.sized.bits;
        elements = h.sized.elements;
        mask = h.sized.mask;
        storage = length-set r.element_buf (tail r) v ∙ h.sized.storage;
      };
      get_range = h.get_range;
      put_range = omega arith;
      count = omega (
        arith,
        h.count,
        h.get_range,
        h.put_range,
        length-append xs (v ∷ []),
        elements_bounds r h.sized,
      );
      fits = omega (arith, length-append xs (v ∷ []));
      held =
          Holds-append r.element_buf r.num_elements r.get_count (tail r) v xs h.sized.storage lt
            (tail_behind h) h.held;
    }

    pub get_some-Represents :
        {x : A} {xs : List A} → Represents r (x ∷ xs) → Represents (after_get r) xs
    get_some-Represents {xs} h = record {
      sized = record {
        bits = h.sized.bits;
        elements = h.sized.elements;
        mask = h.sized.mask;
        storage = h.sized.storage;
      };
      get_range = omega arith;
      put_range = h.put_range;
      count = omega (arith, h.count, h.get_range, h.put_range, h.fits, elements_bounds r h.sized);
      fits = omega (arith, h.fits);
      held =
          Holds-congr r.element_buf r.num_elements (r.get_count + 1) (u32 (r.get_count + 1)) xs
            (sym (u32-slot r (r.get_count + 1) h.sized)) h.held.1;
    }

module _ {ℓ} {A : Type ℓ} {r : RingBufferSimple A} (xs : List A) (v : A) where
  pub put_appends :
      Represents r xs
      → length xs < r.num_elements
      → ((put r v).0 ≡ returns tt) × Represents (put r v).1 (xs ++ v ∷ [])
  put_appends h room = rw (put_room v h room) (refl, put_room-Represents xs v h room)

  pub get_takes : Represents r (v ∷ xs) → ((get r).0 ≡ returns v) × Represents (get r).1 xs
  get_takes h = rw (get_some h) (refl, get_some-Represents h)

pub num_elements-put {ℓ} :
    {A : Type ℓ} (r : RingBufferSimple A) (v : A) → (put r v).1.num_elements ≡ r.num_elements
unfolding put
num_elements-put r v = ground arith

pub num_elements-get {ℓ} :
    {A : Type ℓ} (r : RingBufferSimple A) → (get r).1.num_elements ≡ r.num_elements
unfolding get
num_elements-get r = ground arith
