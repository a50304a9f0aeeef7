-- ===== src/Heap/Free.antt =====
-- `kfree` on a valid heap.
use solace_os.Base.{
  ℕ, ◌+◌, ◌≤◌, ◌<◌, ◌≡◌, ◌≢◌, sym, ◌∙◌, inl, inr, Bool, true, false, not, ◌||◌, List, ◌∷◌, arith,
  ◌==◌, if◌then◌else◌, Bool-cases, ==-eq, ==-ne, ==_self, ==_of_ne, u64_mod, subst, sub64,
}
use solace_os.Heap.{
  Kheap, heap_header_size, modify, add_to_free_list, coalesce_forward, coalesce_backward, coalesce,
  kfree,
}
use solace_os.Heap.Chain.{has, has-ne}
use solace_os.Heap.FreeList.{add-SameLayout, is_free-add_to_free_list}
use solace_os.Heap.Valid.{size_of, is_free_at, IsHeap, add_to_free_list-IsHeap, set_is_free-IsHeap}
use solace_os.Heap.Loose.{AllListed, Keeps, Loose, Coalesced, true_ne, followed_by}
use solace_os.Heap.Coalesce.{forward_lem, backward_lem}

-- What `kfree` has done when it is given the data of the block `b`: the heap is valid, every block
-- that is marked free is on the free list, a block of that list begins at or before `b` and is at
-- least as large as `b` was, and every other block in use is as it was.
pub record Freed (h : Kheap) (phys : List ℕ) (b : ℕ) (g : Kheap) : Type 0 where
  pub all_blocks : List ℕ
  pub free_blocks : List ℕ
  pub valid : IsHeap g all_blocks free_blocks
  pub marked : AllListed g all_blocks free_blocks
  pub home : ℕ
  pub on_list : has home free_blocks ≡ true
  pub below : home ≤ b
  pub large : size_of h b ≤ size_of g home
  pub keeps : Keeps h phys b g all_blocks home

-- `kfree` puts the block that `coalesce` returns on the free list.
Coalesced-Freed :
    (h g : Kheap) (phys : List ℕ) (b m : ℕ)
    → Coalesced h phys b g m
    → Freed h phys b (add_to_free_list m g)
Coalesced-Freed h g phys b m c = record {
  all_blocks = c.all_blocks;
  free_blocks = m ∷ c.free_blocks;
  valid =
      add_to_free_list-IsHeap g c.all_blocks c.free_blocks c.loose.valid m c.loose.block
        c.loose.out;
  marked = λ a i f. elim (Bool-cases (m == a)) [
    | inl e ↦ rw (==-eq m a e, ==_self a)
    | inr e ↦
        let was : is_free_at g a ≡ true = sym (is_free-add_to_free_list m g a ∙ rw e) ∙ f in
        ground (arith, c.loose.marked a i was (==-ne m a e))
  ];
  home = m;
  on_list = rw (==_self m);
  below = c.below;
  large = rw (size m) (c.large);
  keeps = λ a i f d.
      let (other, j, u, e) = c.keeps a i f d in
      (other, j, is_free-add_to_free_list m g a ∙ rw (==_of_ne m a other) u, size a ∙ e);
}
  where
    size : (a : ℕ) → size_of (add_to_free_list m g) a ≡ size_of g a
    size a = (add-SameLayout m g).size a

-- The guards of `coalesce` and of `kfree`.
coalesce_guard {ℓ} :
    {A : Type ℓ} (t u : Bool) (x y : A) → t ≡ false → u ≡ true → (if t || not u then x else y) ≡ y
coalesce_guard t u x y e f = rw (e, f)

kfree_guard {ℓ} :
    {A : Type ℓ} (t : Bool) (free : ℕ → Bool) (n b : ℕ) (change : ℕ → A) (keep : A)
    → t ≡ false
    → n ≡ b
    → free b ≡ false
    → (if t then keep else if free n then keep else change n) ≡ change b
kfree_guard t free n b change keep e p f = rw (e, p, f)

coalesce_free :
    (h : Kheap) (b : ℕ)
    → b ≢ 0
    → is_free_at h b ≡ true
    → coalesce b h ≡ coalesce_backward b (coalesce_forward b h)
unfolding coalesce
coalesce_free h b n f =
    coalesce_guard (b == 0) (is_free_at h b) (b, h) (coalesce_backward b (coalesce_forward b h))
      (==_of_ne b 0 n) f

-- The block `b` marked as free.
abbrev unused : ℕ → Kheap → Kheap
unused b h = modify b (λ k. record k { is_free = true }) h

kfree_used :
    (h : Kheap) (b : ℕ)
    → b + heap_header_size < u64_mod
    → is_free_at h b ≡ false
    → kfree (b + heap_header_size) h
      ≡ add_to_free_list (coalesce b (unused b h)).0 (coalesce b (unused b h)).1
unfolding kfree
kfree_used h b l f =
    kfree_guard (b + heap_header_size == 0) (is_free_at h)
      (sub64 (b + heap_header_size) heap_header_size) b
      (λ x. add_to_free_list (coalesce x (unused x h)).0 (coalesce x (unused x h)).1) h
      (ground arith) (omega (arith, l)) f

module _ (h : Kheap) (phys frees : List ℕ) (b : ℕ) (v : IsHeap h phys frees)
    (marked : AllListed h phys frees) (is : has b phys ≡ true) (used : is_free_at h b ≡ false) where
  not_listed : has b frees ≡ false
  not_listed = elim (Bool-cases (has b frees)) [
    | inl i ↦ true_ne (is_free_at h b) (v.listed b i).1 used _
    | inr o ↦ o
  ]

  unused-Loose : Loose (unused b h) phys frees b
  unused-Loose = record {
    valid = set_is_free-IsHeap h phys frees v b is not_listed true;
    block = is;
    out = not_listed;
    marked = λ a i f d. marked a i (rw (==_of_ne b a d, is_free_at) at f);
  }

  steps :
      Coalesced
        (unused b h)
        phys
        b
        (coalesce_backward b (coalesce_forward b (unused b h))).1
        (coalesce_backward b (coalesce_forward b (unused b h))).0
  steps =
      let k = coalesce_forward b (unused b h) in
      let c = forward_lem (unused b h) frees b phys unused-Loose in
      followed_by (unused b h) k (coalesce_backward b k).1 phys b (coalesce_backward b k).0 c
        (backward_lem k c.free_blocks b c.all_blocks c.loose)

  -- The same, from the heap before the mark.
  rebase : (g : Kheap) (m : ℕ) → Coalesced (unused b h) phys b g m → Coalesced h phys b g m
  rebase g m c = record {
    all_blocks = c.all_blocks;
    free_blocks = c.free_blocks;
    loose = c.loose;
    keeps = λ a i f d.
        let (o, j, u, e) = c.keeps a i (rw (==_of_ne b a d, is_free_at) f) d in
        (o, j, u, e ∙ rw (==_of_ne b a d, size_of));
    below = c.below;
    large = rw (==_self b, size_of) at c.large;
  }

  coalesced : Coalesced h phys b (coalesce b (unused b h)).1 (coalesce b (unused b h)).0
  coalesced =
      let n : b ≢ 0 = λ e. has-ne 0 b phys v.non_null is (sym e) in
      let same = coalesce_free (unused b h) b n (rw (==_self b, is_free_at)) in
      subst (λ r. Coalesced h phys b r.1 r.0) (sym same) (rebase _ _ steps)

  -- On a valid heap in which every block that is marked free is on the free list, `kfree` of the data
  -- of a block in use leaves such a heap again. A block of its free list begins at or before the freed
  -- one and is at least as large, and every other block in use stays in use, with its size.
  pub kfree-Freed : Freed h phys b (kfree (b + heap_header_size) h)
  kfree-Freed =
      subst (Freed h phys b) (sym (kfree_used h b (omega (arith, v.fits b is)) used))
        (Coalesced-Freed h (coalesce b (unused b h)).1 phys b (coalesce b (unused b h)).0 coalesced)
