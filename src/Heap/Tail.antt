-- ===== src/Heap/Tail.antt =====
-- The last block of the heap, which `expand_heap` may merge with its first new page.
use solace_os.Base.{
  ℕ, ◌≡◌, ◌≢◌, sym, ◌∙◌, ◌⊎◌, inl, inr, true, false, List, ◌∷◌, ◌++◌, arith, ◌==◌, Bool-cases,
}
use solace_os.Heap.{Kheap, add_to_free_list, remove_from_free_list}
use solace_os.Heap.Chain.{
  has, last_of-ne, head_of-ne, head_of-Chain, prev_in-Chain, next_in-Chain, has-middle,
}
use solace_os.Heap.FreeList.{next_free_of, prev_free_of, IsFreeList}
use solace_os.Heap.Valid.{is_free_at}

-- The block `a` has no links of the free list.
abbrev pub IsUnlinked : Kheap → ℕ → Type 0
IsUnlinked h a = (next_free_of h a ≡ 0) × (prev_free_of h a ≡ 0)

-- There is no last block, or it is in use, or on the free list, or has no links of it.
abbrev pub IsTail : Kheap → List ℕ → ℕ → Type 0
IsTail h frees a =
    (a ≡ 0)
    ⊎ (is_free_at h a ≡ false)
    ⊎ (has a frees ≡ true)
    ⊎ ((has a frees ≡ false) × IsUnlinked h a)

-- Two heaps agree on the links of the free list at `a`.
abbrev pub SameLinks : Kheap → Kheap → ℕ → Type 0
SameLinks h g a = (next_free_of g a ≡ next_free_of h a) × (prev_free_of g a ≡ prev_free_of h a)

pub unlinked_still : (h g : Kheap) (a : ℕ) → SameLinks h g a → IsUnlinked h a → IsUnlinked g a
unlinked_still h g a s u = (s.0 ∙ u.0, s.1 ∙ u.1)

add-SameLinks_at :
    (b : ℕ) (h : Kheap) (a : ℕ)
    → a ≢ 0
    → b ≢ a
    → h.free_list_head ≢ a
    → SameLinks h (add_to_free_list b h) a
unfolding add_to_free_list
add-SameLinks_at b h a z d n = (ground (arith, z, d, n), ground (arith, z, d, n))

remove-SameLinks_at :
    (b : ℕ) (h : Kheap) (a : ℕ)
    → a ≢ 0
    → b ≢ a
    → prev_free_of h b ≢ a
    → next_free_of h b ≢ a
    → SameLinks h (remove_from_free_list b h) a
unfolding remove_from_free_list
remove-SameLinks_at b h a z d p n = (ground (arith, z, d, p, n), ground (arith, z, d, p, n))

module _ (h : Kheap) (a : ℕ) (z : a ≢ 0) where
  -- A block off the free list keeps its links when another is put on it.
  pub add-SameLinks :
      (frees : List ℕ) (b : ℕ)
      → IsFreeList h frees
      → has a frees ≡ false
      → b ≢ a
      → SameLinks h (add_to_free_list b h) a
  add-SameLinks frees b f o d = add-SameLinks_at b h a z d (λ e.
      head_of-ne a frees z o (
        sym (head_of-Chain (next_free_of h) (prev_free_of h) 0 h.free_list_head frees f.chain) ∙ e))

  -- So it does when another is taken off.
  pub remove-SameLinks :
      (b : ℕ) (ys zs : List ℕ)
      → IsFreeList h (ys ++ b ∷ zs)
      → has a (ys ++ b ∷ zs) ≡ false
      → SameLinks h (remove_from_free_list b h) a
  remove-SameLinks b ys zs f o =
      let m = has-middle a b ys zs o in
      remove-SameLinks_at b h a z (λ e. ground (arith, m, e))
        (λ e. last_of-ne a ys z m.0 (
          sym (prev_in-Chain (next_free_of h) (prev_free_of h) b zs ys 0 h.free_list_head f.chain)
          ∙ e))
        (λ e. head_of-ne a zs z m.2 (
          sym (next_in-Chain (next_free_of h) (prev_free_of h) b zs ys 0 h.free_list_head f.chain)
          ∙ e))

  -- And when a block without links is taken off that was not on it.
  pub drop-SameLinks : (b : ℕ) → b ≢ a → IsUnlinked h b → SameLinks h (remove_from_free_list b h) a
  drop-SameLinks b d u = remove-SameLinks_at b h a z d (λ e. z (sym e ∙ u.1)) (λ e. z (sym e ∙ u.0))

-- A step that leaves the last block as it is.
pub same-IsTail :
    (h g : Kheap) (frees rest : List ℕ) (a : ℕ)
    → IsTail h frees a
    → (a ≢ 0 → is_free_at g a ≡ is_free_at h a)
    → (has a frees ≡ true → has a rest ≡ true)
    → (a ≢ 0 → has a frees ≡ false → (has a rest ≡ false) × SameLinks h g a)
    → IsTail g rest a
same-IsTail h g frees rest a t f l u = elim (Bool-cases (a == 0)) [
  | inl e ↦ inl (ground (arith, e))
  | inr d ↦
      let z : a ≢ 0 = ground (arith, d) in
      elim t [
        | inl e ↦ inl e
        | inr (inl e) ↦ inr (inl (f z ∙ e))
        | inr (inr (inl i)) ↦ inr (inr (inl (l i)))
        | inr (inr (inr (o, k))) ↦
            let (p, s) = u z o in inr (inr (inr (p, unlinked_still h g a s k)))
      ]
]
