-- ===== src/RingBufferGuarded/Priming.antt =====
-- `prime` fills a ring that was constructed for it.
use mathlib.Core.List.{append_assoc, append-nil}
use reiser_rt_core.Prelude.{
  ℕ, zero, suc, ◌+◌, ◌^◌, ◌≤◌, ◌<◌, ◌≡◌, refl, sym, ap, subst, ◌∙◌, true, false, List, [], ◌∷◌,
  ◌++◌, arith, dec_lt, length, length-append, built, length-built,
}
use reiser_rt_core.Prelude.Words.{max32}
use reiser_rt_core.Outcome.{Exception, Outcome, returns, throws, ring_buffer_overflow}
use reiser_rt_core.RingBufferSimple as Ring
use reiser_rt_core.RingBufferSimple.{RingBufferSimple}
use reiser_rt_core.RingBufferSimple.Contents as RingContents
use reiser_rt_core.RingBufferSimple.Contents.{elements_bounds}
use reiser_rt_core.RingBufferSimple.Steps.{
  put_appends, put_full, num_elements-put, elements_of_construct, construct-Represents,
}
use reiser_rt_core.RingBufferSimple.Sizing.{clamp-ge, num_bits_for_ne_least}
use reiser_rt_core.Semaphore.Counts.{IsBounded, construct-IsBounded, construct_full}
use reiser_rt_core.RingBufferGuarded.{
  RingBufferGuarded, needs_priming, ready, construct, prime, prime_loop, prime_round,
}
use reiser_rt_core.RingBufferGuarded.Contents.{Represents, Fits}

module _ {A : Type 0} (f : ℕ → A) where
  -- The priming function, and the loop where no abort is seen.
  abbrev pub builds : ℕ → Outcome A
  builds j = returns (f j)

  abbrev filled : ℕ → ℕ → RingBufferSimple A → Outcome (Unit {0}) × RingBufferSimple A
  filled = prime_loop builds (λ _. false)

  filled_step :
      (n i : ℕ) (r : RingBufferSimple A)
      → (Ring.put r (f i)).0 ≡ returns tt
      → filled (suc n) i r ≡ filled n (i + 1) (Ring.put r (f i)).1
  unfolding prime_loop prime_round
  filled_step n i r e = ground arith

  filled_stop :
      (n i : ℕ) (r : RingBufferSimple A) {x : Exception}
      → (Ring.put r (f i)).0 ≡ throws x
      → (filled (suc n) i r).0 ≡ throws x
  unfolding prime_loop prime_round
  filled_stop n i r e = ground arith

  -- The loop stores what the function builds, as long as it fits.
  prime_loop_fills :
      (n i : ℕ) (r : RingBufferSimple A) (xs : List A)
      → RingContents.Represents r xs
      → length xs + n ≤ r.num_elements
      → let (o, r') = filled n i r in
        (o ≡ returns tt)
        × RingContents.Represents r' (xs ++ built f i n)
        × (r'.num_elements ≡ r.num_elements)
  prime_loop_fills zero i r xs h fits = unfold prime_loop in (refl, rw append-nil h, refl)
  prime_loop_fills (suc n) i r xs h fits =
      let (e, h') = put_appends xs (f i) h (omega arith) in
      let (o, h'', same) =
        prime_loop_fills n (i + 1) (Ring.put r (f i)).1 (xs ++ f i ∷ []) h'
          (omega (arith, num_elements-put r (f i), length-append xs (f i ∷ []))) in
      rw (filled_step n i r e) (
        o,
        subst (RingContents.Represents _) (append_assoc xs (f i ∷ []) (built f (i + 1) n)) h'',
        same ∙ num_elements-put r (f i),
      )

  -- What does not fit makes the ring throw.
  prime_loop_overflows :
      (n i : ℕ) (r : RingBufferSimple A) (xs : List A)
      → RingContents.Represents r xs
      → r.num_elements < length xs + n
      → (filled n i r).0 ≡ throws ring_buffer_overflow
  prime_loop_overflows zero i r xs h over = absurd (omega (arith, h.fits))
  prime_loop_overflows (suc n) i r xs h over = elim (dec_lt (length xs) r.num_elements) [
    | yes room ↦
        let (e, h') = put_appends xs (f i) h room in
        rw (filled_step n i r e) (
          prime_loop_overflows n (i + 1) (Ring.put r (f i)).1 (xs ++ f i ∷ []) h'
            (omega (arith, num_elements-put r (f i), length-append xs (f i ∷ []))))
    | no full ↦ filled_stop n i r (ap (λ p. p.0) (put_full (f i) h (omega (arith, h.fits))))
  ]

  -- The count says how many elements are primed.
  prime_fills :
      (b : RingBufferGuarded A)
      → b.state ≡ needs_priming
      → RingContents.Represents b.ring []
      → IsBounded b.semaphore
      → b.semaphore.available_count ≤ b.ring.num_elements
      → let (o, b') = prime builds (λ _. false) b in
        (o ≡ returns tt)
        × (b'.state ≡ ready)
        × Represents b' (built f 0 b.semaphore.available_count)
        × (b'.ring.num_elements ≡ b.ring.num_elements)
        × (b'.semaphore ≡ b.semaphore)
  unfolding prime
  prime_fills b s h bounded room =
      let n = b.semaphore.available_count in
      let (o, r, same) = prime_loop_fills n 0 b.ring [] h (omega arith) in
      rw (s, o)
        (
          refl,
          refl,
          record { ring = r; bounded = bounded; count = sym (length-built f 0 n) },
          same,
          refl,
        )

  prime_overflows :
      (b : RingBufferGuarded A)
      → b.state ≡ needs_priming
      → RingContents.Represents b.ring []
      → b.ring.num_elements < b.semaphore.available_count
      → (prime builds (λ _. false) b).0 ≡ throws ring_buffer_overflow
  unfolding prime
  prime_overflows b s h over =
      rw (s, prime_loop_overflows b.semaphore.available_count 0 b.ring [] h (omega arith))

module _ {A : Type 0} (garbage : ℕ → A) (f : ℕ → A) (requested : ℕ) where
  abbrev pub unprimed : RingBufferGuarded A
  unprimed = construct garbage requested true

  pub elements_enough : requested ≤ 2 ^ 20 → requested ≤ unprimed.ring.num_elements
  unfolding construct
  elements_enough h = omega (
    arith,
    elements_of_construct garbage requested,
    clamp-ge requested h,
    (num_bits_for_ne_least requested).0,
  )

  elements_few : unprimed.ring.num_elements ≤ 2 ^ 20
  unfolding construct
  elements_few = (elements_bounds _ (construct-Represents garbage requested).sized).1

  -- Priming a new buffer of 1 to 2 ^ 20 requested elements, with a function that does not throw
  -- and no abort, calls the function at 0 up to the request, stores what it builds in that order,
  -- and makes the buffer ready, with a count for each element and no more than the ring has room
  -- for.
  pub prime_lem :
      0 < requested
      → requested ≤ 2 ^ 20
      → let (o, b) = prime (builds f) (λ _. false) unprimed in
        (o ≡ returns tt) × (b.state ≡ ready) × Represents b (built f 0 requested) × Fits b
  unfolding construct
  prime_lem some_there h =
      let (count, most) = construct_full requested some_there (omega arith) in
      let (o, s, r, same, kept) =
        prime_fills f unprimed refl (construct-Represents garbage requested)
          (construct-IsBounded requested requested (omega arith))
          (omega (arith, elements_enough h, count)) in
      (
        o,
        s,
        subst (λ n. Represents (prime (builds f) (λ _. false) unprimed).1 (built f 0 n)) count r,
        omega (arith, ap (λ s. s.max_available_count) kept, most, same, elements_enough h),
      )

  -- Priming leaves the semaphore as it was constructed.
  pub prime_semaphore :
      0 < requested
      → requested ≤ 2 ^ 20
      → (prime (builds f) (λ _. false) unprimed).1.semaphore ≡ unprimed.semaphore
  unfolding construct
  prime_semaphore some_there h =
      let (count, most) = construct_full requested some_there (omega arith) in
      let (o, s, r, same, kept) =
        prime_fills f unprimed refl (construct-Represents garbage requested)
          (construct-IsBounded requested requested (omega arith))
          (omega (arith, elements_enough h, count)) in
      kept

  -- A request beyond 2 ^ 20 elements, and of at most 2 ^ 32 - 1: prime, with a function that does
  -- not throw and no abort, throws the overflow exception of the ring.
  pub prime_too_many :
      2 ^ 20 < requested
      → requested ≤ max32
      → (prime (builds f) (λ _. false) unprimed).0 ≡ throws ring_buffer_overflow
  unfolding construct
  prime_too_many h range =
      let (count, most) = construct_full requested (omega arith) range in
      prime_overflows f unprimed refl (construct-Represents garbage requested)
        (omega (arith, count, elements_few))
