-- ===== src/Heap/Split.antt =====
-- The split of a block in `kmalloc`.
use solace_os.Base.{
  ℕ, ◌+◌, ◌≤◌, ◌≡◌, ◌≢◌, refl, sym, ◌∙◌, ◌⊎◌, inl, inr, true, false, List, [], ◌∷◌, ◌++◌, arith,
  ◌==◌, if◌then◌else◌, Bool-cases, ==-eq, ==-ne, ==_of_ne,
}
use solace_os.Frames.{pmm_max_address}
use solace_os.Heap.{Kheap, heap_header_size, heap_min_block_size, carve, split}
use solace_os.Heap.Chain.{
  has, last_of, head_of, has-append, Chain-agree, has-ne, has-here, next_in-Chain, ne_null-Chain,
  head_of-ne, has-middle, Distinct-middle, last_of-append,
}
use solace_os.Heap.Links.{Chain-insert}
use solace_os.Heap.FreeList.{
  next_of, prev_of, next_free_of, prev_free_of, add-SameLayout, is_free-add_to_free_list,
}
use solace_os.Heap.Layout.{end_of, Layout-Apart, Layout-Distinct, Layout-split}
use solace_os.Heap.Valid.{size_of, is_free_at, IsHeap, add_to_free_list-IsHeap}

module _ (h : Kheap) (us ws frees : List ℕ) (b n : ℕ) (v : IsHeap h (us ++ b ∷ ws) frees)
    (room : n + heap_min_block_size ≤ size_of h b) where
  -- The block that is cut off.
  abbrev pub cut : ℕ
  cut = b + heap_header_size + n

  abbrev pub carved : Kheap
  carved = carve n b h

  pub member : has b (us ++ b ∷ ws) ≡ true
  member = has-here b us ws

  -- The new block begins inside the old one, so it was no block.
  pub fresh : has cut (us ++ b ∷ ws) ≡ false
  fresh = elim (Bool-cases (has cut (us ++ b ∷ ws))) [
    | inl i ↦
        absurd
          (inside (Layout-Apart (size_of h) (us ++ b ∷ ws) b cut v.layout member i (omega arith)))
    | inr o ↦ o
  ]
    where
      inside : (end_of (size_of h) b ≤ cut) ⊎ (end_of (size_of h) cut ≤ b) → ⊥
      inside (inl p) = omega (arith, room)
      inside (inr p) = omega (arith, room)

  next-here : next_of h b ≡ head_of ws
  next-here = next_in-Chain (next_of h) (prev_of h) b ws us 0 h.heap_start v.chain

  next-ne-block : next_of h b ≢ b
  next-ne-block e =
      head_of-ne b ws (ne_null-Chain (next_of h) (prev_of h) b ws us 0 h.heap_start v.chain)
        (Distinct-middle b us ws (Layout-Distinct (size_of h) (us ++ b ∷ ws) v.layout)).1
        (sym next-here ∙ e)

  next-ne-fresh : next_of h b ≢ cut
  next-ne-fresh e =
      head_of-ne cut ws (omega arith) (has-middle cut b us ws fresh).2 (sym next-here ∙ e)

  pub size-block : size_of carved b ≡ n
  unfolding carve
  size-block = ground arith

  pub size-fresh : end_of (size_of carved) cut ≡ end_of (size_of h) b
  unfolding carve
  size-fresh = let f = v.fits b member in ground (arith, f, room, next-ne-fresh)

  next-fresh : next_of carved cut ≡ next_of h b
  unfolding carve
  next-fresh = ground (arith, next-ne-fresh)

  prev-fresh : prev_of carved cut ≡ b
  unfolding carve
  prev-fresh = ground (arith, next-ne-fresh)

  -- What the split does to a block other than the new one.
  module _ (a : ℕ) (i : has a (us ++ b ∷ ws) ≡ true) where
    other : cut ≢ a
    other = has-ne cut a (us ++ b ∷ ws) fresh i

    positive : a ≢ 0
    positive e = has-ne 0 a (us ++ b ∷ ws) v.non_null i (sym e)

    pub size-other : b ≢ a → size_of carved a ≡ size_of h a
    unfolding carve
    size-other d = ground (arith, other)

    links-other :
        (next_of carved a ≡ (if b == a then cut else next_of h a))
        × (prev_of carved a ≡ (if next_of h b == a then cut else prev_of h a))
    unfolding carve
    links-other = (ground (arith, other), ground (arith, other, positive, next-ne-block))

    pub rest-other :
        (next_free_of carved a ≡ next_free_of h a)
        × (prev_free_of carved a ≡ prev_free_of h a)
        × (is_free_at carved a ≡ is_free_at h a)
    unfolding carve
    rest-other = (ground (arith, other), ground (arith, other), ground (arith, other))

  statics :
      (carved.heap_start ≡ h.heap_start)
      × (carved.free_list_head ≡ h.free_list_head)
      × (carved.heap_end ≡ (if next_of h b == 0 then cut else h.heap_end))
  unfolding carve
  statics = (ground arith, ground arith, ground arith)

  in_old : (a : ℕ) → has a (us ++ b ∷ cut ∷ ws) ≡ true → a ≢ cut → has a (us ++ b ∷ ws) ≡ true
  in_old a i n = ground (arith, has-append a us (b ∷ ws), has-append a us (b ∷ cut ∷ ws))

  pub in_new : (a : ℕ) → has a (us ++ b ∷ ws) ≡ true → has a (us ++ b ∷ cut ∷ ws) ≡ true
  in_new a i = ground (arith, has-append a us (b ∷ ws), has-append a us (b ∷ cut ∷ ws))

  new_end :
      (xs : List ℕ)
      → has 0 xs ≡ false
      → last_of b (cut ∷ xs) ≡ (if head_of xs == 0 then cut else last_of b xs)
  new_end [] o = refl
  new_end (x ∷ xs) o = ground arith

  in_space :
      (a : ℕ) → has a (us ++ b ∷ cut ∷ ws) ≡ true → end_of (size_of carved) a ≤ pmm_max_address
  in_space a i = elim (Bool-cases (a == cut)) [
    | inl e ↦ rw (==-eq a cut e, size-fresh) (v.fits b member)
    | inr d ↦ elim (Bool-cases (b == a)) [
      | inl e ↦ rw (← ==-eq b a e, size-block) (omega (arith, room, v.fits b member))
      | inr k ↦
          let old = in_old a i (==-ne a cut d) in rw (size-other a old (==-ne b a k)) (v.fits a old)
    ]
  ]

  pub not_listed : has cut frees ≡ false
  not_listed = elim (Bool-cases (has cut frees)) [
    | inl i ↦ let bad : false ≡ true = sym fresh ∙ (v.listed cut i).0 in cc
    | inr o ↦ o
  ]

  pub carve-IsHeap : IsHeap carved (us ++ b ∷ cut ∷ ws) frees
  carve-IsHeap = record {
    chain = rw statics.0 (
        Chain-insert (next_of h) (prev_of h) (next_of carved) (prev_of carved) b cut ws us 0
          h.heap_start v.chain (Layout-Distinct (size_of h) (us ++ b ∷ ws) v.layout) (omega arith)
          links-other next-fresh prev-fresh);
    last =
        statics.2
        ∙ rw (next-here, v.last, last_of-append 0 b us ws, last_of-append 0 b us (cut ∷ ws))
            (sym (new_end ws (has-middle 0 b us ws v.non_null).2));
    layout =
        Layout-split (size_of h) (size_of carved) b cut ws us v.layout size-other
          (rw size-block refl) size-fresh;
    fits = in_space;
    non_null = ground (arith, has-append 0 us (b ∷ cut ∷ ws), has-middle 0 b us ws v.non_null);
    free_list = record {
      chain = rw statics.1 (
          Chain-agree (next_free_of h) (prev_free_of h) (next_free_of carved) (prev_free_of carved)
            0 h.free_list_head frees v.free_list.chain
            (λ a i. let r = rest-other a (v.listed a i).0 in (r.0, r.1)));
      distinct = v.free_list.distinct;
      non_null = v.free_list.non_null;
    };
    listed = λ a i. let (p, q) = v.listed a i in (in_new a p, (rest-other a p).2 ∙ q);
  }

  -- On a valid heap, a block with room for `n` bytes and a block of the least size behind them: the
  -- split leaves a valid heap with two blocks where the one was, the second in front of the free list.
  pub split-IsHeap : IsHeap (split n b h) (us ++ b ∷ cut ∷ ws) (cut ∷ frees)
  unfolding split
  split-IsHeap =
      add_to_free_list-IsHeap carved (us ++ b ∷ cut ∷ ws) frees carve-IsHeap cut
        (ground (arith, has-append cut us (b ∷ cut ∷ ws))) not_listed

  pub size-split_block : size_of (split n b h) b ≡ n
  unfolding split
  size-split_block = (add-SameLayout cut carved).size b ∙ size-block

  -- Every other block stays as it was.
  pub split-other :
      (a : ℕ)
      → has a (us ++ b ∷ ws) ≡ true
      → b ≢ a
      → (size_of (split n b h) a ≡ size_of h a) × (is_free_at (split n b h) a ≡ is_free_at h a)
  unfolding split
  split-other a i d = (
    (add-SameLayout cut carved).size a ∙ size-other a i d,
    is_free-add_to_free_list cut carved a ∙ rw (==_of_ne cut a (other a i)) (rest-other a i).2,
  )
