-- ===== src/Heap/Coalesce.antt =====
-- The two steps of `coalesce`.
use solace_os.Base.{
  ℕ, ◌≡◌, ◌≢◌, refl, sym, ap, ◌∙◌, ◌⊎◌, inl, inr, Bool, true, false, not, ◌&&◌, List, [], ◌∷◌, ◌++◌,
  ◌==◌, if◌then◌else◌, Bool-cases, ==_of_ne, subst,
}
use mathlib.Core.List.{append_assoc}
use solace_os.Heap.{
  Kheap, heap_header_size, remove_from_free_list, absorb, clear, coalesce_forward,
  coalesce_backward,
}
use solace_os.Heap.Chain.{last_of, has-ne, has-here, next_in-Chain, prev_in-Chain}
use solace_os.Heap.FreeList.{next_of, prev_of}
use solace_os.Heap.Valid.{is_free_at}
use solace_os.Heap.Merge
use solace_os.Heap.FirstFit.{mem_split}
use solace_os.Heap.Loose.{Loose, Coalesced, stay, right_in, join}

-- A list is empty or has a last element.
pub snoc_cases : (us : List ℕ) → (us ≡ []) ⊎ ((xs : List ℕ) × (x : ℕ) × (us ≡ xs ++ x ∷ []))
snoc_cases [] = inl refl
snoc_cases (u ∷ us) = elim (snoc_cases us) [
  | inl e ↦ inr ([], u, ap (λ l. u ∷ l) e)
  | inr (xs, x, e) ↦ inr (u ∷ xs, x, ap (λ l. u ∷ l) e)
]

-- The test that both steps of `coalesce` make of a neighbour `n`.
module _ {ℓ} {A : Type ℓ} (free : ℕ → Bool) (n r : ℕ) (change : ℕ → A) (keep : A) (e : n ≡ r) where
  step_used : free r ≡ false → (if not (n == 0) && free n then change n else keep) ≡ keep
  step_used f = rw (e, f) (elim (Bool-cases (r == 0)) [ inl q ↦ rw q | inr q ↦ rw q ])

  pub step_free :
      r ≢ 0 → free r ≡ true → (if not (n == 0) && free n then change n else keep) ≡ change r
  step_free d f = rw (e, f, ==_of_ne r 0 d)

step_none {ℓ} :
    {A : Type ℓ} (free : ℕ → Bool) (n : ℕ) (change : ℕ → A) (keep : A)
    → n ≡ 0
    → (if not (n == 0) && free n then change n else keep) ≡ keep
step_none free n change keep e = rw e

module _ (h : Kheap) (b : ℕ) where
  abbrev forward : ℕ → Kheap
  forward r = clear r heap_header_size (absorb b r (remove_from_free_list r h))

  abbrev backward : ℕ → ℕ × Kheap
  backward l = (l, clear b heap_header_size (absorb l b (remove_from_free_list l h)))

  forward_none : next_of h b ≡ 0 → coalesce_forward b h ≡ h
  unfolding coalesce_forward
  forward_none e = step_none (is_free_at h) (next_of h b) forward h e

  backward_none : prev_of h b ≡ 0 → coalesce_backward b h ≡ (b, h)
  unfolding coalesce_backward
  backward_none e = step_none (is_free_at h) (prev_of h b) backward (b, h) e

  module _ (r : ℕ) where
    forward_used : next_of h b ≡ r → is_free_at h r ≡ false → coalesce_forward b h ≡ h
    unfolding coalesce_forward
    forward_used e f = step_used (is_free_at h) (next_of h b) r forward h e f

    forward_free :
        next_of h b ≡ r → r ≢ 0 → is_free_at h r ≡ true → coalesce_forward b h ≡ forward r
    unfolding coalesce_forward
    forward_free e d f = step_free (is_free_at h) (next_of h b) r forward h e d f

    backward_used : prev_of h b ≡ r → is_free_at h r ≡ false → coalesce_backward b h ≡ (b, h)
    unfolding coalesce_backward
    backward_used e f = step_used (is_free_at h) (prev_of h b) r backward (b, h) e f

    backward_free :
        prev_of h b ≡ r → r ≢ 0 → is_free_at h r ≡ true → coalesce_backward b h ≡ backward r
    unfolding coalesce_backward
    backward_free e d f = step_free (is_free_at h) (prev_of h b) r backward (b, h) e d f

module _ (h : Kheap) (frees : List ℕ) (b : ℕ) where
  forward_at :
      (us ws : List ℕ)
      → Loose h (us ++ b ∷ ws) frees b
      → Coalesced h (us ++ b ∷ ws) b (coalesce_forward b h) b
  forward_at us [] s =
      let e = next_in-Chain (next_of h) (prev_of h) b [] us 0 h.heap_start s.valid.chain in
      rw (forward_none h b e) (stay h (us ++ b ∷ []) frees b s)
  forward_at us (r ∷ zs) s =
      let e = next_in-Chain (next_of h) (prev_of h) b (r ∷ zs) us 0 h.heap_start s.valid.chain in
      let i = right_in h us zs frees b r in
      elim (Bool-cases (is_free_at h r)) [
        | inl f ↦
            rw
              (forward_free h b r e (λ q. has-ne 0 r (us ++ b ∷ r ∷ zs) s.valid.non_null i (sym q))
                f)
              (join h us zs frees b r b r s i f (inl (refl, refl)))
        | inr f ↦ rw (forward_used h b r e f) (stay h (us ++ b ∷ r ∷ zs) frees b s)
      ]

  pub forward_lem :
      (phys : List ℕ) → Loose h phys frees b → Coalesced h phys b (coalesce_forward b h) b
  forward_lem phys s =
      let (us, ws, e) = mem_split b phys s.block in
      subst (λ ps. Coalesced h ps b (coalesce_forward b h) b) (sym e)
        (forward_at us ws (subst (λ ps. Loose h ps frees b) e s))

  -- The block that `coalesce_backward` returns.
  abbrev pub Back : List ℕ → ℕ × Kheap → Type 0
  Back phys r = Coalesced h phys b r.1 r.0

  backward_next :
      (xs ws : List ℕ) (l : ℕ)
      → Loose h (xs ++ l ∷ b ∷ ws) frees b
      → Back (xs ++ l ∷ b ∷ ws) (coalesce_backward b h)
  backward_next xs ws l s =
      let e = Merge.prev-right h xs ws frees l b s.valid s.out in
      let i = has-here l xs (b ∷ ws) in
      elim (Bool-cases (is_free_at h l)) [
        | inl f ↦
            rw
              (backward_free h b l e (λ q. has-ne 0 l (xs ++ l ∷ b ∷ ws) s.valid.non_null i (sym q))
                f)
              (join h xs ws frees l b b l s i f (inr (refl, refl)))
        | inr f ↦ rw (backward_used h b l e f) (stay h (xs ++ l ∷ b ∷ ws) frees b s)
      ]

  backward_at :
      (us ws : List ℕ)
      → Loose h (us ++ b ∷ ws) frees b
      → Back (us ++ b ∷ ws) (coalesce_backward b h)
  backward_at us ws s = elim (snoc_cases us) [
    | inl q ↦
        let e = prev_in-Chain (next_of h) (prev_of h) b ws us 0 h.heap_start s.valid.chain in
        rw (backward_none h b (e ∙ ap (last_of 0) q)) (stay h (us ++ b ∷ ws) frees b s)
    | inr (xs, l, q) ↦
        let e : us ++ b ∷ ws ≡ xs ++ l ∷ b ∷ ws = rw q (append_assoc xs (l ∷ []) (b ∷ ws)) in
        subst (λ ps. Back ps (coalesce_backward b h)) (sym e)
          (backward_next xs ws l (subst (λ ps. Loose h ps frees b) e s))
  ]

  pub backward_lem : (phys : List ℕ) → Loose h phys frees b → Back phys (coalesce_backward b h)
  backward_lem phys s =
      let (us, ws, e) = mem_split b phys s.block in
      subst (λ ps. Back ps (coalesce_backward b h)) (sym e)
        (backward_at us ws (subst (λ ps. Loose h ps frees b) e s))
