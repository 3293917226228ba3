-- ===== src/MessageQueue/Flight.antt =====
-- The blocks and the messages of the calls in flight.
use mathlib.Core.List.{
  Mem, Nodup, Nodup-cons, Nodup-append, perm_middle, mem-cons_self, mem-cons_of_mem,
}
use mathlib.Core.List.Perm
use reiser_rt_core.Prelude.{
  ℕ, ◌≡◌, ◌≢◌, refl, ap, subst, List, [], ◌∷◌, ◌++◌, arith, length_split, All, All-append,
  All-split,
}
use reiser_rt_core.MemoryPool.Lifetime.{Nodup-blocks}
use reiser_rt_core.MessageQueue.{MessageQueue}
use reiser_rt_core.MessageQueue.Contents.{IsBlock, Placed, addresses, Owns}
use reiser_rt_core.MessageQueue.Threads.{Pending, making, made, fetched, named, running, ending}

module _ {M : Type 0} where
  abbrev pub block : Pending M → ℕ
  block (making a) = a
  block (made a m) = a
  block (fetched a m) = a
  block (named a m) = a
  block (running a m) = a
  block (ending a) = a

  -- The message that a call holds.
  abbrev pub holds : Pending M → List (Placed M)
  holds (making a) = []
  holds (made a m) = (a, m) ∷ []
  holds (fetched a m) = (a, m) ∷ []
  holds (named a m) = (a, m) ∷ []
  holds (running a m) = (a, m) ∷ []
  holds (ending a) = []

  abbrev pub taken : List (Pending M) → List ℕ
  taken [] = []
  taken (c ∷ cs) = block c ∷ taken cs

  abbrev pub placed : List (Pending M) → List (Placed M)
  placed [] = []
  placed (c ∷ cs) = holds c ++ placed cs

  pub taken-append :
      (before after : List (Pending M)) → taken (before ++ after) ≡ taken before ++ taken after
  taken-append [] after = refl
  taken-append (c ∷ before) after = ap (λ xs. block c ∷ xs) (taken-append before after)

  All-append_both :
      (P : Placed M → Type 0) (xs ys : List (Placed M)) → All P (xs ++ ys) → All P xs × All P ys
  All-append_both P [] ys h = (tt, h)
  All-append_both P (x ∷ xs) ys h = let (a, b) = All-append_both P xs ys h.1 in ((h.0, a), b)

  pub All-placed_split :
      (P : Placed M → Type 0) (before : List (Pending M)) (c : Pending M) (after : List (Pending M))
      → All P (placed (before ++ c ∷ after))
      → All P (holds c) × All P (placed (before ++ after))
  All-placed_split P [] c after h = All-append_both P (holds c) (placed after) h
  All-placed_split P (d ∷ before) c after h =
      let (at_d, rest) = All-append_both P (holds d) (placed (before ++ c ∷ after)) h in
      let (at_c, others) = All-placed_split P before c after rest in
      (at_c, All-append P (holds d) (placed (before ++ after)) at_d others)

  -- What holds of the blocks of calls holds of the places of their messages.
  at_holds : (P : ℕ → Type 0) (c : Pending M) → P (block c) → All (λ x. P x.0) (holds c)
  at_holds P (making a) h = tt
  at_holds P (made a m) h = (h, tt)
  at_holds P (fetched a m) h = (h, tt)
  at_holds P (named a m) h = (h, tt)
  at_holds P (running a m) h = (h, tt)
  at_holds P (ending a) h = tt

  pub All-placed :
      (P : ℕ → Type 0) (cs : List (Pending M)) → All P (taken cs) → All (λ x. P x.0) (placed cs)
  All-placed P [] h = tt
  All-placed P (c ∷ cs) h =
      All-append _ (holds c) (placed cs) (at_holds P c h.0) (All-placed P cs h.1)

  pub All-addresses :
      (P : ℕ → Type 0) (xs : List (Placed M)) → All (λ x. P x.0) xs → All P (addresses xs)
  All-addresses P [] h = tt
  All-addresses P (x ∷ xs) h = (h.0, All-addresses P xs h.1)

All-ne : (a : ℕ) (xs : List ℕ) → ¬ Mem a xs → All (λ b. a ≢ b) xs
All-ne a [] h = tt
All-ne a (x ∷ xs) h = (
  (λ e. h (subst (λ b. Mem a (b ∷ xs)) e mem-cons_self)),
  All-ne a xs (λ m. h (mem-cons_of_mem x m)),
)

module _ {M : Type 0} (q : MessageQueue M) {free : List ℕ} {waiting : List (Placed M)} where
  -- What is held is a list of different blocks.
  pub held-Nodup : {held : List ℕ} → Owns q free waiting held → Nodup held
  held-Nodup {held} h =
      (Nodup-append.0 (
        Perm.nodup (Perm.symm h.shares)
          (Nodup-blocks q.element_size q.requested_num_elements 0 h.positive))).1

  pub held_apart : {a : ℕ} {held : List ℕ} → Owns q free waiting (a ∷ held) → All (λ b. a ≢ b) held
  held_apart {a} {held} h = All-ne a held (Nodup-cons.0 (held-Nodup h)).0

  -- The order of what is held is of no account.
  pub Owns-rotate :
      (before after : List ℕ) (a : ℕ)
      → Owns q free waiting (before ++ a ∷ after)
      → Owns q free waiting (a ∷ before ++ after)
  Owns-rotate before after a h = record {
    raw = h.raw;
    raw_ready = h.raw_ready;
    raw_room = h.raw_room;
    cooked = h.cooked;
    cooked_ready = h.cooked_ready;
    cooked_room = h.cooked_room;
    storage = h.storage;
    positive = h.positive;
    running = omega (arith, h.running, length_split before a after);
    high = h.high;
    high_range = h.high_range;
    all_there = omega (arith, h.all_there, length_split before a after);
    alive = h.alive;
    free_blocks = h.free_blocks;
    waiting_blocks = h.waiting_blocks;
    held_blocks = All-split (IsBlock q) before a after h.held_blocks;
    shares =
        Perm.trans
          (Perm.append (Perm.refl (free ++ addresses waiting))
            (Perm.symm (perm_middle before after)))
          h.shares;
  }

  pub Owns-calls :
      (before after : List (Pending M)) (c : Pending M)
      → Owns q free waiting (taken (before ++ c ∷ after))
      → Owns q free waiting (block c ∷ taken (before ++ after))
  Owns-calls before after c h = rw (taken-append before after) (
      Owns-rotate (taken before) (taken after) (block c)
        (subst (Owns q free waiting) (taken-append before (c ∷ after)) h))
