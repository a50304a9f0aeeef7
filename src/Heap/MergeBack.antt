-- ===== src/Heap/MergeBack.antt =====
-- The merge of the first new page with the last block, as `expand_heap` makes it.
use solace_os.Base.{
  ℕ, ◌≤◌, ◌≡◌, ◌≢◌, refl, sym, ap, ◌∙◌, subst, inl, inr, true, false, List, [], ◌∷◌, ◌++◌, arith,
  ◌==◌, Bool-cases, ==-eq, ==-ne, ==_of_ne,
}
use solace_os.Frames.{Pmm, test_bit}
use solace_os.Frames.Valid.{IsValid}
use solace_os.Frames.Alloc.{frame_address}
use solace_os.Heap.{Kheap, remove_from_free_list, absorb, merge_back}
use solace_os.Heap.Chain.{has, has-append}
use solace_os.Heap.FreeList.{prev_of, remove-SameLayout, is_free-remove_from_free_list}
use solace_os.Heap.Layout.{end_of}
use solace_os.Heap.Valid.{size_of, is_free_at, IsHeap, SameLayout-IsHeap}
use solace_os.Heap.Merge
use solace_os.Heap.Coalesce.{step_free}
use solace_os.Heap.Expand.{Ready}
use solace_os.Heap.Kept.{absorb-pmm, remove-pmm}
use solace_os.Heap.Tail.{IsUnlinked, SameLinks}

pub merge_back_free :
    (p l : ℕ) (h : Kheap)
    → prev_of h p ≡ l
    → l ≢ 0
    → is_free_at h l ≡ true
    → merge_back p h ≡ (l, absorb l p (remove_from_free_list l h))
unfolding merge_back
merge_back_free p l h e z f =
    step_free (is_free_at h) (prev_of h p) l (λ b. (b, absorb b p (remove_from_free_list b h)))
      (p, h) e z f

-- A block without links that is taken off the free list: the list is gone.
pub head-dropped :
    (b : ℕ) (h : Kheap) → IsUnlinked h b → (remove_from_free_list b h).free_list_head ≡ 0
unfolding remove_from_free_list
head-dropped b h u = ground (arith, u.0, u.1)

pub drop_from_free_list-IsHeap :
    (h : Kheap) (phys frees : List ℕ) (b : ℕ)
    → IsHeap h phys frees
    → IsUnlinked h b
    → IsHeap (remove_from_free_list b h) phys []
drop_from_free_list-IsHeap h phys frees b v u =
    SameLayout-IsHeap h (remove_from_free_list b h) phys frees [] v (remove-SameLayout b h)
      (record { chain = head-dropped b h u; distinct = tt; non_null = refl }) (λ a i. cc)

-- The last block `l`, taken off the free list, and the first new page `p` become one block.
module _ (f : ℕ) (g : Kheap) (us ps frees rest : List ℕ) (l p : ℕ)
    (r : Ready f g (us ++ l ∷ p ∷ ps) frees)
    (v : IsHeap (remove_from_free_list l g) (us ++ l ∷ p ∷ ps) rest)
    (out : has p rest ≡ false) where
  abbrev taken : Kheap
  taken = remove_from_free_list l g

  abbrev joined : Kheap
  joined = absorb l p taken

  member_right : has p (us ++ l ∷ p ∷ ps) ≡ true
  member_right = ground (arith, has-append p us (l ∷ p ∷ ps))

  joined-pmm : joined.pmm ≡ g.pmm
  joined-pmm = absorb-pmm l p taken ∙ remove-pmm l g

  in_old : (a : ℕ) → has a (us ++ l ∷ ps) ≡ true → has a (us ++ l ∷ p ∷ ps) ≡ true
  in_old a i = ground (arith, has-append a us (l ∷ ps), has-append a us (l ∷ p ∷ ps))

  positive : (a : ℕ) → has a (us ++ l ∷ p ∷ ps) ≡ true → a ≢ 0
  positive a i = Merge.positive_of taken us ps rest l p v out a i

  -- A block that is neither of them.
  pub joined-other :
      (a : ℕ)
      → has a (us ++ l ∷ p ∷ ps) ≡ true
      → l ≢ a
      → (size_of joined a ≡ size_of g a) × (is_free_at joined a ≡ is_free_at g a)
  joined-other a i d = (
    Merge.size-other taken us ps rest l p v out a (positive a i) d ∙ (remove-SameLayout l g).size a,
    (Merge.rest taken us ps rest l p v out a (positive a i)).2
        ∙ is_free-remove_from_free_list l g a
        ∙ rw (==_of_ne l a d),
  )

  pub joined-end : end_of (size_of joined) l ≤ end_of (size_of g) p
  joined-end = omega (
    arith,
    Merge.size-left taken us ps rest l p v out,
    Merge.below taken us ps rest l p v out,
    (remove-SameLayout l g).size l,
    (remove-SameLayout l g).size p,
  )

  joined-below : (a : ℕ) → has a (us ++ l ∷ ps) ≡ true → end_of (size_of joined) a ≤ frame_address f
  joined-below a i = elim (Bool-cases (l == a)) [
    | inl e ↦ rw (← ==-eq l a e) (omega (arith, joined-end, r.below p member_right))
    | inr d ↦ rw ((joined-other a (in_old a i) (==-ne l a d)).0) (r.below a (in_old a i))
  ]

  pub joined-Ready : Ready f joined (us ++ l ∷ ps) rest
  joined-Ready = record {
    heap = Merge.absorb-IsHeap taken us ps rest l p v out;
    frames = subst IsValid (sym joined-pmm) r.frames;
    used = λ j i. ap {A = Pmm} (λ s. test_bit j s.frame_bitmap) joined-pmm ∙ r.used j i;
    below = joined-below;
  }

  pub joined-SameLinks : (a : ℕ) → a ≢ 0 → SameLinks taken joined a
  joined-SameLinks a z = let k = Merge.rest taken us ps rest l p v out a z in (k.0, k.1)
