-- ===== src/Heap/Joining.antt =====
-- `merge_back` for every last block that the heap may have.
use solace_os.Base.{
  ℕ, ◌≤◌, ◌≡◌, ◌≢◌, refl, sym, ap, ◌∙◌, subst, inl, inr, true, false, List, [], ◌∷◌, ◌++◌, length,
  arith, Bool-cases,
}
use mathlib.Core.List.{append_assoc}
use solace_os.Heap.{Kheap, absorb, remove_from_free_list, merge_back}
use solace_os.Heap.Chain.{has, has-append, has-here, has-ne, last_of, last_of-append}
use solace_os.Heap.FreeList.{prev_of, next_free_of, prev_free_of}
use solace_os.Heap.Valid.{size_of, is_free_at, IsHeap, remove_from_free_list-IsHeap}
use solace_os.Heap.FirstFit.{mem_split}
use solace_os.Heap.Coalesce.{snoc_cases}
use solace_os.Heap.Expand.{Ready}
use solace_os.Heap.Pages.{IsLoosePage}
use solace_os.Heap.Start.{last_cases, merge_back_null, merge_back_used}
use solace_os.Heap.MergeBack.{merge_back_free, drop_from_free_list-IsHeap}
use solace_os.Heap.Merged
use solace_os.Heap.Merged.{Merged}
use solace_os.Heap.Tail.{IsTail, IsUnlinked, remove-SameLinks, drop-SameLinks}

length-remove : (ys zs : List ℕ) (x : ℕ) → length (ys ++ zs) ≤ length (ys ++ x ∷ zs)
length-remove [] zs x = omega arith
length-remove (y ∷ ys) zs x = omega (arith, length-remove ys zs x)

module _ (f : ℕ) (h g : Kheap) (phys frees ps : List ℕ) (p : ℕ)
    (ready : Ready f g (phys ++ p ∷ ps) frees)
    (listed : (a : ℕ) → has a frees ≡ true → has a phys ≡ true)
    (kept : (a : ℕ)
      → has a phys ≡ true
      → (size_of g a ≡ size_of h a)
        × (is_free_at g a ≡ is_free_at h a)
        × (next_free_of g a ≡ next_free_of h a)
        × (prev_free_of g a ≡ prev_free_of h a))
    (loose : (a : ℕ) → has a (p ∷ ps) ≡ true → IsLoosePage g a) where
  abbrev Result : Type 0
  Result = Merged f h phys frees (merge_back p g)

  no_merge : merge_back p g ≡ (p, g) → Result
  no_merge e = rw e (Merged.stays-Merged f h g phys frees ps p ready listed kept loose)

  prev-last : prev_of g p ≡ last_of 0 phys
  prev-last = Merged.prev-page f h g phys frees ps p ready listed kept loose

  nothing_before : last_of 0 phys ≡ 0 → Result
  nothing_before z = no_merge (merge_back_null p g (prev-last ∙ z))

  used_before : is_free_at h (last_of 0 phys) ≡ false → Result
  used_before u = elim (last_cases phys) [
    | inl z ↦ nothing_before z
    | inr i ↦
        no_merge
          (merge_back_used p g (ap (is_free_at g) prev-last ∙ (kept (last_of 0 phys) i).1 ∙ u))
  ]

  module _ (us : List ℕ) (l : ℕ) (e : phys ≡ us ++ l ∷ []) (free : is_free_at h l ≡ true) where
    last : last_of 0 phys ≡ l
    last = ap (last_of 0) e ∙ last_of-append 0 l us []

    whole : phys ++ p ∷ ps ≡ us ++ l ∷ p ∷ ps
    whole = rw (e, append_assoc)

    member : has l phys ≡ true
    member = ap (has l) e ∙ has-here l us []

    l-ne-null : l ≢ 0
    l-ne-null q =
        has-ne 0 l (phys ++ p ∷ ps) ready.heap.non_null
          (has-append l phys (p ∷ ps) ∙ ground (arith, member)) (sym q)

    heap : IsHeap g (us ++ l ∷ p ∷ ps) frees
    heap = subst (λ xs. IsHeap g xs frees) whole ready.heap

    merge : merge_back p g ≡ (l, absorb l p (remove_from_free_list l g))
    merge = merge_back_free p l g (prev-last ∙ last) l-ne-null ((kept l member).1 ∙ free)

    page-ne : (a : ℕ) → has a (p ∷ ps) ≡ true → (a ≢ 0) × (l ≢ a)
    page-ne a i = (
      λ q.
          has-ne 0 a (phys ++ p ∷ ps) ready.heap.non_null
            (has-append a phys (p ∷ ps) ∙ ground (arith, i)) (sym q),
      λ q.
          has-ne a l phys (Merged.page-new f h g phys frees ps p ready listed kept loose a i).0
            member (sym q),
    )

    off_list : (ys zs : List ℕ) → frees ≡ ys ++ l ∷ zs → Result
    off_list ys zs q =
        let r : IsHeap g (us ++ l ∷ p ∷ ps) (ys ++ l ∷ zs) =
          subst (λ fs. IsHeap g (us ++ l ∷ p ∷ ps) fs) q heap in
        let (v, _, o) = remove_from_free_list-IsHeap g (us ++ l ∷ p ∷ ps) l ys zs r in
        rw merge (
          Merged.joined-Merged f h g phys frees ps p ready listed kept loose us (ys ++ zs) l e free
            v o
            (λ a i. ap (has a) q ∙ ground (arith, i, has-append a ys zs, has-append a ys (l ∷ zs)))
            (subst (λ fs. length (ys ++ zs) ≤ length fs) (sym q) (length-remove ys zs l))
            (λ a i. remove-SameLinks g a (page-ne a i).0 l ys zs r.free_list (
              ap (has a) (sym q)
              ∙ (Merged.page-new f h g phys frees ps p ready listed kept loose a i).1)))

    -- The last block is free but not on the free list: the free list is lost.
    dropped : IsUnlinked h l → Result
    dropped u =
        let k = kept l member in
        let w : IsUnlinked g l = (k.2 ∙ u.0, k.3 ∙ u.1) in
        rw merge (
          Merged.joined-Merged f h g phys frees ps p ready listed kept loose us [] l e free
            (drop_from_free_list-IsHeap g (us ++ l ∷ p ∷ ps) frees l heap w) refl (λ a i. cc)
            (omega arith) (λ a i. drop-SameLinks g a (page-ne a i).0 l (page-ne a i).1 w))

    free_before : IsTail h frees (last_of 0 phys) → Result
    free_before t = elim t [
      | inl z ↦ nothing_before z
      | inr (inl u) ↦ used_before u
      | inr (inr (inl i)) ↦
          let (ys, zs, q) = mem_split l frees (ap (λ b. has b frees) (sym last) ∙ i) in
          off_list ys zs q
      | inr (inr (inr (o, u))) ↦ dropped (subst (IsUnlinked h) last u)
    ]

  -- Whatever the last block is, the heap stays valid.
  pub merge_back-Merged : IsTail h frees (last_of 0 phys) → Result
  merge_back-Merged t = elim (Bool-cases (is_free_at h (last_of 0 phys))) [
    | inr u ↦ used_before u
    | inl free ↦ elim (snoc_cases phys) [
      | inl e ↦ nothing_before (ap (last_of 0) e)
      | inr (us, l, e) ↦
          free_before us l e
            (ap (is_free_at h) (sym (ap (last_of 0) e ∙ last_of-append 0 l us [])) ∙ free) t
    ]
  ]
