-- ===== src/MessageQueue/Blocks.antt =====
-- Different blocks of a message queue do not meet, so a block that a caller holds is not a
-- message's.
use mathlib.Core.List.{
  Perm, Mem, Nodup, Nodup-cons, perm_middle, mem-cons_self, mem-cons_of_mem, mem-append_left,
  mem-append_right,
}
use mathlib.Core.List.Perm
use reiser_rt_core.Prelude.{
  ℕ, ◌+◌, ◌*◌, ◌≤◌, ◌<◌, ◌≡◌, ◌≢◌, sym, ap, subst, ◌∙◌, ◌⊎◌, inl, inr, Option, some, List, [], ◌∷◌,
  ◌++◌, arith, dec_lt, ℕ_discrete, All,
}
use reiser_rt_core.Prelude.Families.{update}
use reiser_rt_core.MemoryPool.Lifetime.{Nodup-blocks}
use reiser_rt_core.MessageQueue.{MessageQueue}
use reiser_rt_core.MemoryPool.{wiped}
use reiser_rt_core.MessageQueue.Contents.{IsBlock, blocks, Placed, addresses}

pub later : (i j s : ℕ) → i < j → i * s + s ≤ j * s
later i j s h = grind arith

module _ {M : Type 0} where
  All-apart : (a : ℕ) (xs : List (Placed M)) → ¬ Mem a (addresses xs) → All (λ x. a ≢ x.0) xs
  All-apart a [] h = tt
  All-apart a (x ∷ xs) h = (
    (λ e. h (subst (λ b. Mem a (b ∷ addresses xs)) e mem-cons_self)),
    All-apart a xs (λ m. h (mem-cons_of_mem x.0 m)),
  )

  -- A block that a caller holds is not the place of a message that waits.
  pub apart :
      (q : MessageQueue M) (a : ℕ) (free : List ℕ) (waiting : List (Placed M)) (held : List ℕ)
      → 0 < q.element_size
      → Perm ((free ++ addresses waiting) ++ a ∷ held) (blocks q)
      → All (λ x. a ≢ x.0) waiting
  apart q a free waiting held pos shares =
      All-apart a waiting (λ m. alone.0 (mem-append_left held (mem-append_right free m)))
    where
      alone :
          (¬ Mem a ((free ++ addresses waiting) ++ held))
          × Nodup ((free ++ addresses waiting) ++ held)
      alone = Nodup-cons.0 (
          Perm.nodup (Perm.trans (Perm.symm shares) (perm_middle (free ++ addresses waiting) held))
            (Nodup-blocks q.element_size q.requested_num_elements 0 pos))

  -- Different blocks do not meet.
  block_outside :
      (q : MessageQueue M) (a b : ℕ)
      → IsBlock q a
      → IsBlock q b
      → a ≢ b
      → (b < a) ⊎ (a + q.element_size ≤ b)
  block_outside q a b (i, hi, ea) (j, hj, eb) ne = elim (dec_lt i j) [
    | yes less ↦ inr (omega (arith, ea, eb, later i j q.element_size less))
    | no more ↦ elim (ℕ_discrete i j) [
      | yes same ↦ absurd (ne (ea ∙ ap (λ (t : ℕ). t * q.element_size) same ∙ sym eb))
      | no other ↦ inl (omega (arith, ea, eb, ne, later j i q.element_size (omega arith)))
    ]
  ]

  pub block_inside :
      (q : MessageQueue M) (a : ℕ)
      → IsBlock q a
      → a + q.element_size ≤ q.element_size * q.requested_num_elements
  block_inside q a (i, lt, e) = grind (arith, e)

  pub alive-wiped :
      (q : MessageQueue M) (a : ℕ) (waiting : List (Placed M))
      → IsBlock q a
      → All (λ x. a ≢ x.0) waiting
      → All (IsBlock q) (addresses waiting)
      → All (λ x. q.objects x.0 ≡ some x.1) waiting
      → All (λ x. wiped q.objects a q.element_size x.0 ≡ some x.1) waiting
  alive-wiped q a [] b ne bs h = tt
  alive-wiped q a (x ∷ xs) b ne bs h =
      let out = block_outside q a x.0 b bs.0 ne.0 in
      let e = h.0 in (ground (arith, out), alive-wiped q a xs b ne.1 bs.1 h.1)

  pub alive-update :
      (objects : ℕ → Option M) (a : ℕ) (x : Option M) (waiting : List (Placed M))
      → All (λ x. a ≢ x.0) waiting
      → All (λ x. objects x.0 ≡ some x.1) waiting
      → All (λ y. update objects a x y.0 ≡ some y.1) waiting
  alive-update objects a x [] ne h = tt
  alive-update objects a x (y ∷ ys) ne h =
      let e = h.0 in let n = ne.0 in (ground arith, alive-update objects a x ys ne.1 h.1)
