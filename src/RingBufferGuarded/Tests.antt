-- ===== src/RingBufferGuarded/Tests.antt =====
-- Guarded rings of src/RingBufferGuarded.hpp at work.
use mathlib.Core.List.{foldl}
use mathlib.Core.List.{List, map}
use reiser_rt_core.Prelude.{
  ℕ, ◌+◌, ◌*◌, ◌<◌, ◌≡◌, refl, ◌⊎◌, false, [], ◌∷◌, ◌++◌, arith, length, built,
}
use reiser_rt_core.Outcome.{returns}
use reiser_rt_core.RingBufferSimple.Contents as RingContents
use reiser_rt_core.Semaphore.{signal_take}
use reiser_rt_core.RingBufferGuarded.{
  State, ready, terminal, RingBufferGuarded, done, blocked, abort, get, put, prime, flush,
}
use reiser_rt_core.RingBufferGuarded.Contents.{Represents, Fits}
use reiser_rt_core.RingBufferGuarded.Calls.{Fetches, get-Fetches, put_stores}
use reiser_rt_core.RingBufferGuarded.Aborting.{
  LateCall, gets, get_wakes, puts, turns, told, abort_final,
}
use reiser_rt_core.RingBufferGuarded.Priming.{builds, unprimed, prime_lem}
use reiser_rt_core.RingBufferGuarded.Flushing.{accepts, flush_empties}

-- A buffer of two elements that holds the element 7, in a given state.
abbrev one : State → RingBufferGuarded ℕ
one state = record {
  ring = record {
    get_count = 4294967295;
    put_count = 0;
    num_bits = 1;
    num_elements_mask = 1;
    num_elements = 2;
    element_buf = 7 ∷ 0 ∷ [];
  };
  semaphore = record {
    available_count = 1;
    max_available_count = 2;
    take_pending_count = 0;
    give_pending_count = 0;
    abort_flag = false;
  };
  state = state;
}

one-Represents : (state : State) → Represents (one state) (7 ∷ [])
one-Represents state = record {
  ring = record {
    sized = record { bits = omega arith; elements = refl; mask = refl; storage = refl };
    get_range = omega arith;
    put_range = omega arith;
    count = refl;
    fits = omega arith;
    held = (refl, tt);
  };
  bounded = record { available = omega arith; range = omega arith };
  count = refl;
}

get-Fetches_example : Fetches (7 ∷ []) (get (one ready))
get-Fetches_example = get-Fetches (one ready) refl refl (7 ∷ []) (one-Represents ready)

put_stores_example :
    let g = put (one ready) 9 in
    ((length {A = ℕ} (7 ∷ []) ≡ 2) × (g.progress ≡ blocked) × Represents g.buffer (7 ∷ []))
    ⊎ ((length {A = ℕ} (7 ∷ []) < 2)
        × (g.progress ≡ done (returns tt))
        × (g.notices ≡ signal_take ∷ [])
        × Represents g.buffer ((7 ∷ []) ++ 9 ∷ []))
put_stores_example =
    put_stores (one ready) refl refl (7 ∷ []) 9 (one-Represents ready) (omega arith) (omega arith)

abbrev late : List (LateCall ℕ)
late = get_wakes ∷ puts 9 ∷ gets ∷ []

abort_final_example :
    let (ps, c) = turns late (abort (one ready)).0 in
    (ps ≡ map told late) × (c.state ≡ terminal) × Represents c (7 ∷ [])
abort_final_example = abort_final late (one ready) (7 ∷ []) (one-Represents ready)

prime_lem_example :
    let (o, b) = prime (builds (λ i. i * 8)) (λ _. false) (unprimed (λ _. 0) (λ i. i * 8) 3) in
    (o ≡ returns tt) × (b.state ≡ ready) × Represents b (built (λ i. i * 8) 0 3) × Fits b
prime_lem_example = prime_lem (λ _. 0) (λ i. i * 8) 3 (omega arith) (omega arith)

flush_empties_example :
    let (o, b, v) = flush (accepts (λ s x. s + x)) (one terminal) 100 in
    (o ≡ returns tt) × RingContents.Represents b.ring [] × (v ≡ foldl (λ s x. s + x) 100 (7 ∷ []))
flush_empties_example =
    flush_empties (λ s x. s + x) (one terminal) 100 (7 ∷ []) refl (one-Represents terminal)
