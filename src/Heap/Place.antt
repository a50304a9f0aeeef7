-- ===== src/Heap/Place.antt =====
-- `place`, as far as the next expansion of the heap depends on it.
use solace_os.Base.{
  ℕ, ◌+◌, ◌≤◌, ◌≡◌, ◌≢◌, refl, sym, ap, ◌∙◌, subst, ◌⊎◌, inl, inr, true, false, List, [], ◌∷◌, ◌++◌,
  leb, add64, arith, ◌==◌, Bool-cases, ==-eq, ==-ne, ==_self, ==_of_ne,
}
use solace_os.Frames.{test_bit}
use solace_os.Frames.Valid.{IsValid}
use solace_os.Frames.Alloc.{frame_address}
use solace_os.Heap.{Kheap, heap_header_size, heap_min_block_size, clear, place, carve, split}
use solace_os.Heap.Chain.{has, has-append, has-here, has-ne, last_of, last_of-append}
use solace_os.Heap.FreeList.{add-SameLayout, remove-SameLayout}
use solace_os.Heap.Layout.{end_of}
use solace_os.Heap.Valid.{size_of, is_free_at, IsHeap}
use solace_os.Heap.FirstFit.{mem_split}
use solace_os.Heap.Split
use solace_os.Heap.Malloc.{
  Taken, finish, untouched, finish-block, removed, rest, cut, all, split_valid, not_listed,
  stays_listed, take_whole, take_part, room_of,
}
use solace_os.Heap.Expand.{Ready}
use solace_os.Frames.Kept.{Kept}
use solace_os.Heap.Kept.{place-Kept}
use solace_os.Heap.Start.{last_cases}
use solace_os.Heap.Tail.{IsTail, SameLinks, remove-SameLinks, add-SameLinks, same-IsTail}

-- A heap over frames that it fills in order, whose last block `expand_heap` can deal with.
pub record Steady (k : ℕ) (h : Kheap) (phys frees : List ℕ) : Type 0 where
  pub ready : Ready k h phys frees
  pub tail : IsTail h frees (last_of 0 phys)

-- The end of `kmalloc` leaves the free list alone.
finish-SameLinks :
    (k : Kheap) (phys frees : List ℕ) (b : ℕ)
    → IsHeap k phys frees
    → has b phys ≡ true
    → has b frees ≡ false
    → (a : ℕ) → has a phys ≡ true
    → SameLinks k (finish b k) a
unfolding clear
finish-SameLinks k phys frees b v i o a j =
    let u = untouched k phys frees b v i o a j in
    (ground (arith, u, ==_self b), ground (arith, u, ==_self b))

SameLinks-trans : (h g k : Kheap) (a : ℕ) → SameLinks h g a → SameLinks g k a → SameLinks h k a
SameLinks-trans h g k a s t = (t.0 ∙ s.0, t.1 ∙ s.1)

-- The last node is the first given, or does not depend on it.
last_shift : (x y : ℕ) (ws : List ℕ) → (last_of x ws ≡ x) ⊎ (last_of x ws ≡ last_of y ws)
last_shift x y [] = inl refl
last_shift x y (w ∷ ws) = inr refl

module _ (f : ℕ) (h : Kheap) (us ws ys zs : List ℕ) (b n : ℕ)
    (s : Steady f h (us ++ b ∷ ws) (ys ++ b ∷ zs)) (large : n ≤ size_of h b) where
  abbrev v : IsHeap h (us ++ b ∷ ws) (ys ++ b ∷ zs)
  v = s.ready.heap

  abbrev phys : List ℕ
  phys = us ++ b ∷ ws

  abbrev left : List ℕ
  left = ys ++ zs

  abbrev taken : Kheap
  taken = rest h us ws ys zs b n v large

  -- A block that was not on the free list is not on it.
  still_out : (a : ℕ) → has a (ys ++ b ∷ zs) ≡ false → (has a left ≡ false) × (b ≢ a)
  still_out a o = (
    ground (arith, o, has-append a ys (b ∷ zs), has-append a ys zs),
    λ e. has-ne a b (ys ++ b ∷ zs) o (has-here b ys zs) (sym e),
  )

  whole-links :
      (a : ℕ)
      → has a phys ≡ true
      → a ≢ 0
      → has a (ys ++ b ∷ zs) ≡ false
      → SameLinks h (finish b taken) a
  whole-links a i z o =
      let (r, g, q) = removed h us ws ys zs b n v large in
      SameLinks-trans h taken (finish b taken) a (remove-SameLinks h a z b ys zs v.free_list o)
        (finish-SameLinks taken phys left b r (has-here b us ws) q a i)

  last_old : last_of 0 phys ≢ 0 → has (last_of 0 phys) phys ≡ true
  last_old z = elim (last_cases phys) [ inl e ↦ absurd (z e) | inr i ↦ i ]

  -- The heap `g` that `place` leaves, given its lists.
  steady :
      (g : Kheap) (t : Taken h phys (ys ++ b ∷ zs) n b g)
      → IsValid g.pmm
      → ((j : ℕ) → test_bit j h.pmm.frame_bitmap ≡ true → test_bit j g.pmm.frame_bitmap ≡ true)
      → ((a : ℕ) → has a t.all_blocks ≡ true → end_of (size_of g) a ≤ frame_address f)
      → IsTail g t.free_blocks (last_of 0 t.all_blocks)
      → Steady f g t.all_blocks t.free_blocks
  steady g t w u e l = record {
    ready = record { heap = t.valid; frames = w; used = λ j q. u j (s.ready.used j q); below = e };
    tail = l;
  }

  whole : Taken h phys (ys ++ b ∷ zs) n b (finish b taken)
  whole = take_whole h us ws ys zs b n v large

  whole-below : (a : ℕ) → has a phys ≡ true → end_of (size_of (finish b taken)) a ≤ frame_address f
  whole-below a i =
      let (r, g, q) = removed h us ws ys zs b n v large in
      rw
        (
          (finish-block taken phys left b r (has-here b us ws) q a i).0,
          (remove-SameLayout b h).size a,
        )
        (s.ready.below a i)

  whole-IsTail : IsTail (finish b taken) left (last_of 0 phys)
  whole-IsTail = elim (Bool-cases (b == last_of 0 phys)) [
    | inl e ↦
        inr
          (inl (ap (is_free_at (finish b taken)) (sym (==-eq b (last_of 0 phys) e)) ∙ whole.in_use))
    | inr d ↦
        same-IsTail h (finish b taken) (ys ++ b ∷ zs) left (last_of 0 phys) s.tail
          (λ z. (whole.same (last_of 0 phys) (last_old z) (==-ne b (last_of 0 phys) d)).1)
          (λ i.
            stays_listed h us ws ys zs b n v large (last_of 0 phys) i (==-ne b (last_of 0 phys) d))
          (λ z o. ((still_out (last_of 0 phys) o).0, whole-links (last_of 0 phys) (last_old z) z o))
  ]

  module _ (room : n + heap_min_block_size ≤ size_of taken b) where
    abbrev fresh : ℕ
    fresh = cut h us ws ys zs b n v large room

    abbrev parts : List ℕ
    parts = all h us ws ys zs b n v large room

    part : Taken h phys (ys ++ b ∷ zs) n b (finish b (split n b taken))
    part = take_part h us ws ys zs b n v large room

    part-links :
        (a : ℕ)
        → has a phys ≡ true
        → a ≢ 0
        → has a (ys ++ b ∷ zs) ≡ false
        → (has a (fresh ∷ left) ≡ false) × SameLinks h (finish b (split n b taken)) a
    unfolding split
    part-links a i z o =
        let (r, g, q) = removed h us ws ys zs b n v large in
        let (p, d) = still_out a o in
        let e = has-ne fresh a phys (Split.fresh taken us ws left b n r room) i in
        (
          rw (==_of_ne a fresh (λ x. e (sym x))) p,
          SameLinks-trans h taken (finish b (split n b taken)) a
              (remove-SameLinks h a z b ys zs v.free_list o)
              (SameLinks-trans taken (split n b taken) (finish b (split n b taken)) a
                (SameLinks-trans taken (carve n b taken) (split n b taken) a
                  (let k = Split.rest-other taken us ws left b n r room a i in (k.0, k.1))
                  (add-SameLinks (carve n b taken) a z left fresh
                    (Split.carve-IsHeap taken us ws left b n r room).free_list p e))
                (finish-SameLinks (split n b taken) parts (fresh ∷ left) b
                  (split_valid h us ws ys zs b n v large room) (has-here b us (fresh ∷ ws))
                  (not_listed h us ws ys zs b n v large room) a
                  (Split.in_new taken us ws left b n r room a i))),
        )

    in_parts :
        (a : ℕ) → has a parts ≡ true → (a ≡ fresh) ⊎ (a ≡ b) ⊎ ((has a phys ≡ true) × (b ≢ a))
    in_parts a i = elim (Bool-cases (a == fresh)) [
      | inl e ↦ inl (==-eq a fresh e)
      | inr d ↦ elim (Bool-cases (a == b)) [
        | inl e ↦ inr (inl (==-eq a b e))
        | inr c ↦ inr (
            inr (
              ground (arith, i, d, c, has-append a us (b ∷ ws), has-append a us (b ∷ fresh ∷ ws)),
              λ e. ==-ne a b c (sym e),
            ))
      ]
    ]

    finish-part :
        (a : ℕ)
        → has a parts ≡ true
        → size_of (finish b (split n b taken)) a ≡ size_of (split n b taken) a
    finish-part a i =
        (finish-block (split n b taken) parts (fresh ∷ left) b
          (split_valid h us ws ys zs b n v large room) (has-here b us (fresh ∷ ws))
          (not_listed h us ws ys zs b n v large room) a i).0

    fresh-end : end_of (size_of (split n b taken)) fresh ≡ end_of (size_of taken) b
    unfolding split
    fresh-end =
        let (r, g, q) = removed h us ws ys zs b n v large in
        ap (λ k. fresh + heap_header_size + k) ((add-SameLayout fresh (carve n b taken)).size fresh)
        ∙ Split.size-fresh taken us ws left b n r room

    part-below :
        (a : ℕ)
        → has a parts ≡ true
        → end_of (size_of (finish b (split n b taken))) a ≤ frame_address f
    part-below a i =
        let (r, g, q) = removed h us ws ys zs b n v large in
        let old = s.ready.below b (has-here b us ws) in
        let e = (remove-SameLayout b h).size b in
        elim (in_parts a i) [
          | inl x ↦
              omega (arith, finish-part a i, ap (size_of (split n b taken)) x, x, fresh-end, old, e)
          | inr (inl x) ↦ omega (
            arith,
            finish-part a i,
            ap (size_of (split n b taken)) x,
            x,
            old,
            e,
            room,
            Split.size-split_block taken us ws left b n r room,
          )
          | inr (inr (j, d)) ↦ rw ((part.same a j d).0) (s.ready.below a j)
        ]

    part-IsTail : IsTail (finish b (split n b taken)) (fresh ∷ left) (last_of 0 parts)
    part-IsTail = elim (last_shift fresh b ws) [
      | inl e ↦
          let is : last_of 0 parts ≡ fresh = last_of-append 0 b us (fresh ∷ ws) ∙ e in
          inr (inr (inl (rw (is, ==_self fresh))))
      | inr e ↦
          let is : last_of 0 parts ≡ last_of 0 phys =
            last_of-append 0 b us (fresh ∷ ws) ∙ e ∙ sym (last_of-append 0 b us ws) in
          subst (IsTail (finish b (split n b taken)) (fresh ∷ left)) (sym is) old_tail
    ]
      where
        old_tail : IsTail (finish b (split n b taken)) (fresh ∷ left) (last_of 0 phys)
        old_tail = elim (Bool-cases (b == last_of 0 phys)) [
          | inl e ↦ inr (
              inl (
                ap (is_free_at (finish b (split n b taken))) (sym (==-eq b (last_of 0 phys) e))
                ∙ part.in_use))
          | inr d ↦
              same-IsTail h (finish b (split n b taken)) (ys ++ b ∷ zs) (fresh ∷ left)
                (last_of 0 phys) s.tail
                (λ z. (part.same (last_of 0 phys) (last_old z) (==-ne b (last_of 0 phys) d)).1)
                (λ i. ground (
                  arith,
                  stays_listed h us ws ys zs b n v large (last_of 0 phys) i
                      (==-ne b (last_of 0 phys) d),
                ))
                (λ z o. part-links (last_of 0 phys) (last_old z) z o)
        ]

  -- What `place` has done, for both of its branches.
  abbrev Placed : Kheap → Type 0
  Placed g = (t : Taken h phys (ys ++ b ∷ zs) n b g) × Steady f g t.all_blocks t.free_blocks

  place-Placed : Placed (place n b h).1
  unfolding place take_whole take_part whole part
  place-Placed =
      let k = place-Kept n b h s.ready.frames in
      elim (Bool-cases (leb (add64 n heap_min_block_size) (size_of taken b))) [
        | inl e ↦
            let room = room_of h us ws ys zs b n v large e in
            let kept : Kept h.pmm (finish b (split n b taken)).pmm = rw (place, e) at k in
            rw e (
              part room,
              steady (finish b (split n b taken)) (part room) kept.valid kept.used (part-below room)
                  (part-IsTail room),
            )
        | inr e ↦
            let kept : Kept h.pmm (finish b taken).pmm = rw (place, e) at k in
            rw e
              (whole, steady (finish b taken) whole kept.valid kept.used whole-below whole-IsTail)
      ]

-- `place` of a block of the free list that is large enough.
pub place-Steady :
    (f : ℕ) (h : Kheap) (phys frees : List ℕ) (b n : ℕ)
    → Steady f h phys frees
    → has b frees ≡ true
    → n ≤ size_of h b
    → (t : Taken h phys frees n b (place n b h).1) × Steady f
        (place n b h).1
        t.all_blocks
        t.free_blocks
place-Steady f h phys frees b n s i large =
    let (ys, zs, e) = mem_split b frees i in
    let (us, ws, k) = mem_split b phys (s.ready.heap.listed b i).0 in
    let go = place-Placed f h us ws ys zs b n (rw (← k, ← e) s) large in
    subst
      (λ fs.
        (t : Taken h phys fs n b (place n b h).1) × Steady f (place n b h).1 t.all_blocks
          t.free_blocks)
      (sym e)
      (subst
        (λ ps.
          (t : Taken h ps (ys ++ b ∷ zs) n b (place n b h).1) × Steady f (place n b h).1
            t.all_blocks t.free_blocks)
        (sym k) go)
