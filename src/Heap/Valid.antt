-- ===== src/Heap/Valid.antt =====
-- The invariant of the kernel heap, and the steps that keep it.
use solace_os.Base.{
  ℕ, ◌≤◌, ◌≡◌, refl, sym, ap, ◌∙◌, inl, inr, Bool, true, false, List, ◌∷◌, ◌++◌, arith, ◌==◌,
  Bool-cases, ==-eq, ==_self, ==_of_ne,
}
use solace_os.Memory.{in_range}
use solace_os.Frames.{pmm_max_address}
use solace_os.Heap.{HeapBlock, Kheap, modify, clear, add_to_free_list, remove_from_free_list}
use solace_os.Heap.Chain.{has, Chain, last_of, has-append, Chain-agree, has-ne, Distinct-middle}
use solace_os.Heap.FreeList.{
  next_of, prev_of, next_free_of, prev_free_of, IsFreeList, SameLayout, add-SameLayout,
  remove-SameLayout, is_free-add_to_free_list, is_free-remove_from_free_list,
  add_to_free_list-IsFreeList, remove_from_free_list-IsFreeList,
}
use solace_os.Heap.Layout.{end_of, Layout, Layout-agree}

abbrev pub size_of : Kheap → ℕ → ℕ
size_of h a = (h.blocks a).size

abbrev pub is_free_at : Kheap → ℕ → Bool
is_free_at h a = (h.blocks a).is_free

-- `phys` lists all blocks in increasing order of address, and `frees` the free list, head first. No
-- two blocks overlap, and none reaches past the end of the managed memory. A block on the free list
-- is a block of the heap that is marked free.
pub record IsHeap (h : Kheap) (phys frees : List ℕ) : Type 0 where
  pub chain : Chain (next_of h) (prev_of h) 0 h.heap_start phys
  pub last : h.heap_end ≡ last_of 0 phys
  pub layout : Layout (size_of h) phys
  pub fits : (a : ℕ) → has a phys ≡ true → end_of (size_of h) a ≤ pmm_max_address
  pub non_null : has 0 phys ≡ false
  pub free_list : IsFreeList h frees
  pub listed : (a : ℕ) → has a frees ≡ true → (has a phys ≡ true) × (is_free_at h a ≡ true)

-- A step that keeps the places, sizes and physical links of the blocks.
pub SameLayout-IsHeap :
    (h g : Kheap) (phys frees rest : List ℕ)
    → IsHeap h phys frees
    → SameLayout h g
    → IsFreeList g rest
    → ((a : ℕ) → has a rest ≡ true → (has a phys ≡ true) × (is_free_at g a ≡ true))
    → IsHeap g phys rest
SameLayout-IsHeap h g phys frees rest v s f l = record {
  chain = rw s.heap_start (
      Chain-agree (next_of h) (prev_of h) (next_of g) (prev_of g) 0 h.heap_start phys v.chain
        (λ a i. (s.next a, s.prev a)));
  last = s.heap_end ∙ v.last;
  layout = Layout-agree (size_of h) (size_of g) phys v.layout (λ a i. s.size a);
  fits = λ a i. rw (s.size a) (v.fits a i);
  non_null = v.non_null;
  free_list = f;
  listed = l;
}

module _ (h : Kheap) (phys : List ℕ) where
  -- A block taken off the free list, which is then marked as used.
  pub remove_from_free_list-IsHeap :
      (b : ℕ) (ys zs : List ℕ)
      → IsHeap h phys (ys ++ b ∷ zs)
      → IsHeap (remove_from_free_list b h) phys (ys ++ zs)
        × (is_free_at (remove_from_free_list b h) b ≡ false)
        × (has b (ys ++ zs) ≡ false)
  remove_from_free_list-IsHeap b ys zs v = (
    SameLayout-IsHeap h _ phys (ys ++ b ∷ zs) (ys ++ zs) v (remove-SameLayout b h)
        (remove_from_free_list-IsFreeList b h ys zs v.free_list) listed,
    is_free-remove_from_free_list b h b ∙ rw (==_self b),
    out,
  )
    where
      out : has b (ys ++ zs) ≡ false
      out = ground (arith, Distinct-middle b ys zs v.free_list.distinct, has-append b ys zs)

      was : (a : ℕ) → has a (ys ++ zs) ≡ true → has a (ys ++ b ∷ zs) ≡ true
      was a i = ground (arith, has-append a ys zs, has-append a ys (b ∷ zs))

      listed :
          (a : ℕ)
          → has a (ys ++ zs) ≡ true
          → (has a phys ≡ true) × (is_free_at (remove_from_free_list b h) a ≡ true)
      listed a i =
          let (p, f) = v.listed a (was a i) in
          (
            p,
            is_free-remove_from_free_list b h a
                ∙ rw (==_of_ne b a (has-ne b a (ys ++ zs) out i), f),
          )

  module _ (frees : List ℕ) (v : IsHeap h phys frees) (b : ℕ) (is : has b phys ≡ true)
      (out : has b frees ≡ false) where
    -- A block of the heap that is not on the free list goes on it.
    pub add_to_free_list-IsHeap : IsHeap (add_to_free_list b h) phys (b ∷ frees)
    add_to_free_list-IsHeap =
        SameLayout-IsHeap h _ phys frees (b ∷ frees) v (add-SameLayout b h)
          (add_to_free_list-IsFreeList b h frees v.free_list
            (λ e. has-ne 0 b phys v.non_null is (sym e)) out)
          listed
      where
        listed :
            (a : ℕ)
            → has a (b ∷ frees) ≡ true
            → (has a phys ≡ true) × (is_free_at (add_to_free_list b h) a ≡ true)
        listed a i = elim (Bool-cases (a == b)) [
          | inl e ↦
              (rw (==-eq a b e) is, is_free-add_to_free_list b h a ∙ rw (==-eq a b e, ==_self b))
          | inr e ↦
              let (p, f) = v.listed a (ground arith) in
              (p, is_free-add_to_free_list b h a ∙ ground (arith, f))
        ]

    -- The mark of a block that is not on the free list may be set either way.
    pub set_is_free-IsHeap :
        (m : Bool) → IsHeap (modify b (λ k. record k { is_free = m }) h) phys frees
    set_is_free-IsHeap m =
        SameLayout-IsHeap h _ phys frees frees v
          (record {
            size = λ a. ground arith;
            next = λ a. ground arith;
            prev = λ a. ground arith;
            heap_start = refl;
            heap_end = refl;
            pmm = refl;
          })
          (record {
            chain =
                Chain-agree (next_free_of h) (prev_free_of h) _ _ 0 h.free_list_head frees
                  v.free_list.chain (λ a i. (ground arith, ground arith));
            distinct = v.free_list.distinct;
            non_null = v.free_list.non_null;
          })
          (λ a i.
            let (p, f) = v.listed a i in
            (p, rw (==_of_ne b a (has-ne b a frees out i), is_free_at) f))

  -- Only the headers of the heap's own blocks matter.
  IsHeap-agree :
      (g : Kheap) (frees : List ℕ)
      → IsHeap h phys frees
      → ((a : ℕ) → has a phys ≡ true → g.blocks a ≡ h.blocks a)
      → g.heap_start ≡ h.heap_start
      → g.heap_end ≡ h.heap_end
      → g.free_list_head ≡ h.free_list_head
      → IsHeap g phys frees
  IsHeap-agree g frees v same e f k = record {
    chain = rw e (
        Chain-agree (next_of h) (prev_of h) (next_of g) (prev_of g) 0 h.heap_start phys v.chain
          (λ a i. (ap (λ b. b.next) (same a i), ap (λ b. b.prev) (same a i))));
    last = f ∙ v.last;
    layout =
        Layout-agree (size_of h) (size_of g) phys v.layout (λ a i. ap (λ b. b.size) (same a i));
    fits = λ a i. rw (ap {A = HeapBlock} (λ b. b.size) (same a i)) (v.fits a i);
    non_null = v.non_null;
    free_list = record {
      chain = rw k (
          Chain-agree (next_free_of h) (prev_free_of h) (next_free_of g) (prev_free_of g) 0
            h.free_list_head frees v.free_list.chain
            (λ a i.
              let p = (v.listed a i).0 in
              (ap (λ b. b.next_free) (same a p), ap (λ b. b.prev_free) (same a p))));
      distinct = v.free_list.distinct;
      non_null = v.free_list.non_null;
    };
    listed = λ a i. let (p, q) = v.listed a i in (p, ap (λ b. b.is_free) (same a p) ∙ q);
  }

  -- Memory that holds no header of the heap may be cleared.
  pub clear-IsHeap :
      (frees : List ℕ) (s n : ℕ)
      → IsHeap h phys frees
      → ((a : ℕ) → has a phys ≡ true → in_range s n a ≡ false)
      → IsHeap (clear s n h) phys frees
  unfolding clear
  clear-IsHeap frees s n v o = IsHeap-agree (clear s n h) frees v (λ a i. rw (o a i)) refl refl refl
