-- ===== src/Heap/Malloc.antt =====
-- `kmalloc` where the free list holds a block that is large enough.
use solace_os.Base.{
  ◌⊎◌, ℕ, ◌+◌, ◌≤◌, ◌<◌, ◌≡◌, ◌≢◌, refl, sym, ap, subst, ◌∙◌, inl, inr, true, false, List, ◌∷◌,
  ◌++◌, arith, some, leb, length, ◌==◌, if◌then◌else◌, Bool-cases, ==-eq, ==-ne, ==_self, ==_of_ne,
  add64,
}
use solace_os.Memory.{in_range}
use solace_os.Memory.Fill.{memset_lem}
use solace_os.Heap.{
  Kheap, heap_header_size, heap_min_block_size, modify, clear, split, remove_from_free_list,
  find_fit, place, kmalloc, align,
}
use solace_os.Heap.Chain.{has-append, has, has-here}
use solace_os.Heap.FreeList.{remove-SameLayout, is_free-remove_from_free_list}
use solace_os.Heap.Layout.{Apart, Layout-Apart}
use solace_os.Heap.Valid.{
  size_of, is_free_at, IsHeap, remove_from_free_list-IsHeap, set_is_free-IsHeap, clear-IsHeap,
}
use solace_os.Heap.Split
use solace_os.Heap.FirstFit.{first_fit, find_fit-first_fit, mem_split, first_fit-fits}

-- What `kmalloc` has done when it returns the data of the block `b`: a valid heap, in which `b` is in
-- use, has at least `n` bytes, all 0, that no other block overlaps, and in which every other block is
-- as it was.
pub record Taken (h : Kheap) (phys frees : List ℕ) (n b : ℕ) (g : Kheap) : Type 0 where
  pub all_blocks : List ℕ
  pub free_blocks : List ℕ
  pub valid : IsHeap g all_blocks free_blocks
  pub block : has b all_blocks ≡ true
  pub in_use : is_free_at g b ≡ false
  pub not_listed : has b free_blocks ≡ false
  pub large : n ≤ size_of g b
  pub kept : (a : ℕ) → has a phys ≡ true → has a all_blocks ≡ true
  pub same :
      (a : ℕ)
      → has a phys ≡ true
      → b ≢ a
      → (size_of g a ≡ size_of h a) × (is_free_at g a ≡ is_free_at h a)
  pub marked :
      (a : ℕ)
      → has a all_blocks ≡ true
      → is_free_at g a ≡ true
      → (has a free_blocks ≡ true) ⊎ ((has a phys ≡ true) × (is_free_at h a ≡ true) × (b ≢ a))
  pub still_listed : (a : ℕ) → has a frees ≡ true → b ≢ a → has a free_blocks ≡ true
  pub zeroed : (a : ℕ) → in_range (b + heap_header_size) (size_of g b) a ≡ true → g.pmm.mem a ≡ 0

-- The end of `kmalloc`: the block is marked as used, and its data is cleared.
abbrev pub finish : ℕ → Kheap → Kheap
finish b k =
    let used = modify b (λ x. record x { is_free = false }) k in
    clear (b + heap_header_size) (used.blocks b).size used

module _ (k : Kheap) (phys frees : List ℕ) (b : ℕ) (v : IsHeap k phys frees)
    (is : has b phys ≡ true) (out : has b frees ≡ false) where
  pub untouched :
      (a : ℕ) → has a phys ≡ true → in_range (b + heap_header_size) (size_of k b) a ≡ false
  untouched a i = elim (Bool-cases (a == b)) [
    | inl e ↦ rw (==-eq a b e) (ground arith)
    | inr d ↦ apart (Layout-Apart (size_of k) phys a b v.layout i is (==-ne a b d))
  ]
    where
      apart : Apart (size_of k) a b → in_range (b + heap_header_size) (size_of k b) a ≡ false
      apart (inl p) = ground arith
      apart (inr p) = ground arith

  pub finish-IsHeap : IsHeap (finish b k) phys frees
  finish-IsHeap =
      clear-IsHeap (modify b (λ x. record x { is_free = false }) k) phys frees
        (b + heap_header_size) _ (set_is_free-IsHeap k phys frees v b is out false)
        (λ a i. rw (==_self b) (untouched a i))

  pub finish-block :
      (a : ℕ)
      → has a phys ≡ true
      → (size_of (finish b k) a ≡ size_of k a)
        × (is_free_at (finish b k) a ≡ (if b == a then false else is_free_at k a))
  unfolding clear
  finish-block a i =
      let o = untouched a i in (ground (arith, o, ==_self b), ground (arith, o, ==_self b))

  finish-mem :
      (a : ℕ)
      → (finish b k).pmm.mem a
        ≡ (if in_range (b + heap_header_size) (size_of k b) a then 0 else k.pmm.mem a)
  unfolding clear
  finish-mem a = memset_lem (b + heap_header_size) 0 _ k.pmm.mem a ∙ rw (==_self b)

  pub finish-zeroed :
      (a : ℕ)
      → in_range (b + heap_header_size) (size_of (finish b k) b) a ≡ true
      → (finish b k).pmm.mem a ≡ 0
  finish-zeroed a i = finish-mem a ∙ rw (rw ((finish-block b is).0) at i)

module _ (h : Kheap) (us ws ys zs : List ℕ) (b n : ℕ) (v : IsHeap h (us ++ b ∷ ws) (ys ++ b ∷ zs))
    (large : n ≤ size_of h b) where
  abbrev pub rest : Kheap
  rest = remove_from_free_list b h

  pub removed :
      IsHeap rest (us ++ b ∷ ws) (ys ++ zs)
      × (is_free_at rest b ≡ false)
      × (has b (ys ++ zs) ≡ false)
  removed = remove_from_free_list-IsHeap h (us ++ b ∷ ws) b ys zs v

  pub rest-other :
      (a : ℕ) → b ≢ a → (size_of rest a ≡ size_of h a) × (is_free_at rest a ≡ is_free_at h a)
  rest-other a d =
      ((remove-SameLayout b h).size a, is_free-remove_from_free_list b h a ∙ rw (==_of_ne b a d))

  pub size-rest : size_of rest b ≡ size_of h b
  size-rest = (remove-SameLayout b h).size b

  -- A block that is marked free is not one in use.
  pub free-ne : (g : Kheap) (a : ℕ) → is_free_at g b ≡ false → is_free_at g a ≡ true → b ≢ a
  free-ne g a u f e = let bad : true ≡ false = sym f ∙ ap (is_free_at g) (sym e) ∙ u in cc

  pub stays_listed : (a : ℕ) → has a (ys ++ b ∷ zs) ≡ true → b ≢ a → has a (ys ++ zs) ≡ true
  stays_listed a i d = ground (arith, has-append a ys (b ∷ zs), has-append a ys zs)

  abbrev pub Same : Kheap → ℕ → Type 0
  Same g a = (size_of g a ≡ size_of h a) × (is_free_at g a ≡ is_free_at h a)

  pub whole-Same : (a : ℕ) → has a (us ++ b ∷ ws) ≡ true → b ≢ a → Same (finish b rest) a
  whole-Same a i d =
      let (r, f, o) = removed in
      let (s, g) = finish-block rest (us ++ b ∷ ws) (ys ++ zs) b r (has-here b us ws) o a i in
      let (t, k) = rest-other a d in (s ∙ t, g ∙ rw (==_of_ne b a d) k)

  -- The block is too small to be split, and is taken whole.
  unfoldable pub take_whole : Taken h (us ++ b ∷ ws) (ys ++ b ∷ zs) n b (finish b rest)
  take_whole =
      let (r, f, o) = removed in
      let m = has-here b us ws in
      record {
        all_blocks = us ++ b ∷ ws;
        free_blocks = ys ++ zs;
        valid = finish-IsHeap rest (us ++ b ∷ ws) (ys ++ zs) b r m o;
        block = m;
        in_use = (finish-block rest (us ++ b ∷ ws) (ys ++ zs) b r m o b m).1 ∙ rw (==_self b);
        not_listed = o;
        large = rw ((finish-block rest (us ++ b ∷ ws) (ys ++ zs) b r m o b m).0, size-rest) large;
        kept = λ a i. i;
        same = whole-Same;
        marked = λ a i g.
            let u = (finish-block rest (us ++ b ∷ ws) (ys ++ zs) b r m o b m).1 ∙ rw (==_self b) in
            let d = free-ne (finish b rest) a u g in inr (i, sym (whole-Same a i d).1 ∙ g, d);
        still_listed = stays_listed;
        zeroed = finish-zeroed rest (us ++ b ∷ ws) (ys ++ zs) b r m o;
      }

  module _ (room : n + heap_min_block_size ≤ size_of rest b) where
    abbrev pub cut : ℕ
    cut = b + heap_header_size + n

    abbrev pub all : List ℕ
    all = us ++ b ∷ cut ∷ ws

    pub split_valid : IsHeap (split n b rest) all (cut ∷ (ys ++ zs))
    split_valid = Split.split-IsHeap rest us ws (ys ++ zs) b n removed.0 room

    pub not_listed : has b (cut ∷ (ys ++ zs)) ≡ false
    not_listed = ground (arith, removed.2)

    pub part-in_use : is_free_at (finish b (split n b rest)) b ≡ false
    part-in_use =
        (finish-block (split n b rest) all (cut ∷ (ys ++ zs)) b split_valid
          (has-here b us (cut ∷ ws)) not_listed b (has-here b us (cut ∷ ws))).1
        ∙ rw (==_self b)

    pub part-Same :
        (a : ℕ) → has a (us ++ b ∷ ws) ≡ true → b ≢ a → Same (finish b (split n b rest)) a
    part-Same a i d =
        let j = Split.in_new rest us ws (ys ++ zs) b n removed.0 room a i in
        let (s, g) =
          finish-block (split n b rest) all (cut ∷ (ys ++ zs)) b split_valid
            (has-here b us (cut ∷ ws)) not_listed a j in
        let (t, k) = rest-other a d in
        let (p, q) = Split.split-other rest us ws (ys ++ zs) b n removed.0 room a i d in
        (s ∙ p ∙ t, g ∙ rw (==_of_ne b a d) (q ∙ k))

    in_old : (a : ℕ) → has a all ≡ true → cut ≢ a → has a (us ++ b ∷ ws) ≡ true
    in_old a i d = ground (arith, has-append a us (b ∷ ws), has-append a us (b ∷ cut ∷ ws))

    pub part-marked :
        (a : ℕ)
        → has a all ≡ true
        → is_free_at (finish b (split n b rest)) a ≡ true
        → (has a (cut ∷ (ys ++ zs)) ≡ true)
          ⊎ ((has a (us ++ b ∷ ws) ≡ true) × (is_free_at h a ≡ true) × (b ≢ a))
    part-marked a i f = elim (Bool-cases (cut == a)) [
      | inl e ↦ inl (rw (==-eq cut a e, ==_self a))
      | inr e ↦
          let j = in_old a i (==-ne cut a e) in
          let d = free-ne (finish b (split n b rest)) a part-in_use f in
          inr (j, sym (part-Same a j d).1 ∙ f, d)
    ]

    unfoldable pub take_part : Taken h (us ++ b ∷ ws) (ys ++ b ∷ zs) n b (finish b (split n b rest))
    take_part =
        let o = not_listed in
        let m = has-here b us (cut ∷ ws) in
        record {
          all_blocks = all;
          free_blocks = cut ∷ (ys ++ zs);
          valid = finish-IsHeap (split n b rest) all (cut ∷ (ys ++ zs)) b split_valid m o;
          block = m;
          in_use = part-in_use;
          not_listed = o;
          large =
              rw
                (
                  (finish-block (split n b rest) all (cut ∷ (ys ++ zs)) b split_valid m o b m).0,
                  Split.size-split_block rest us ws (ys ++ zs) b n removed.0 room,
                )
                (omega arith);
          kept = Split.in_new rest us ws (ys ++ zs) b n removed.0 room;
          same = part-Same;
          marked = part-marked;
          still_listed = λ a i d. ground (arith, stays_listed a i d);
          zeroed = finish-zeroed (split n b rest) all (cut ∷ (ys ++ zs)) b split_valid m o;
        }

  -- `place` hands out the block that it is given.
  place_lem : (place n b h).0 ≡ b + heap_header_size
  unfolding place
  place_lem = refl

  pub room_of :
      leb (add64 n heap_min_block_size) (size_of rest b) ≡ true
      → n + heap_min_block_size ≤ size_of rest b
  room_of e = let f = v.fits b (has-here b us ws) in ground (arith, e, f, large, size-rest)

  place-Taken : Taken h (us ++ b ∷ ws) (ys ++ b ∷ zs) n b (place n b h).1
  unfolding place
  place-Taken = elim (Bool-cases (leb (add64 n heap_min_block_size) (size_of rest b))) [
    | inl e ↦ rw e (take_part (room_of e))
    | inr e ↦ rw e take_whole
  ]

pub place-Taken_at :
    (h : Kheap) (phys frees : List ℕ) (b n : ℕ)
    → IsHeap h phys frees
    → has b frees ≡ true
    → n ≤ size_of h b
    → Taken h phys frees n b (place n b h).1
place-Taken_at h phys frees b n v i large =
    let (ys, zs, e) = mem_split b frees i in
    let (us, ws, k) = mem_split b phys (v.listed b i).0 in
    subst (λ fs. Taken h phys fs n b (place n b h).1) (sym e)
      (subst (λ ps. Taken h ps (ys ++ b ∷ zs) n b (place n b h).1) (sym k)
        (place-Taken h us ws ys zs b n (rw (← k, ← e) v) large))

pub kmalloc_hit :
    (h : Kheap) (size fuel fit : ℕ)
    → size ≢ 0
    → fit ≢ 0
    → find_fit fuel (align size) h.free_list_head h.blocks ≡ some fit
    → kmalloc fuel size h ≡ some (fit + heap_header_size, (place (align size) fit h).1)
unfolding kmalloc
kmalloc_hit h size fuel fit n d e = rw (==_of_ne size 0 n, e, ==_of_ne fit 0 d) refl

-- If every block of the old heap that is marked free is on its free list, this holds of the new heap.
pub Taken-AllListed :
    (h g : Kheap) (phys frees : List ℕ) (n b : ℕ) (t : Taken h phys frees n b g)
    → ((a : ℕ) → has a phys ≡ true → is_free_at h a ≡ true → has a frees ≡ true)
    → (a : ℕ) → has a t.all_blocks ≡ true
    → is_free_at g a ≡ true
    → has a t.free_blocks ≡ true
Taken-AllListed h g phys frees n b t l a i f = elim (t.marked a i f) [
  | inl e ↦ e
  | inr (j, k, d) ↦ t.still_listed a (l a j k) d
]

-- On a valid heap, for a size other than 0 that, rounded up to a multiple of 8 in 64 bits, some block
-- of the free list can hold: with a round of fuel for each free block and one more, `kmalloc` returns
-- the address behind the header of the first such block, and leaves a valid heap in which that block
-- is in use, off the free list, large enough and all 0, and every other block of the old heap has its
-- size and its mark.
pub kmalloc-first_fit :
    (h : Kheap) (phys frees : List ℕ) (size fuel : ℕ)
    → IsHeap h phys frees
    → size ≢ 0
    → length frees < fuel
    → first_fit (size_of h) (align size) frees ≢ 0
    → (g : Kheap) × (kmalloc fuel size h
        ≡ some (first_fit (size_of h) (align size) frees + heap_header_size, g))
      × Taken h phys frees (align size) (first_fit (size_of h) (align size) frees) g
kmalloc-first_fit h phys frees size fuel v n l d =
    let (i, large) = first_fit-fits (size_of h) (align size) frees d in
    (
      (place (align size) (first_fit (size_of h) (align size) frees) h).1,
      kmalloc_hit h size fuel (first_fit (size_of h) (align size) frees) n d
          (find_fit-first_fit h (align size) fuel 0 h.free_list_head frees v.free_list.chain l),
      place-Taken_at h phys frees (first_fit (size_of h) (align size) frees) (align size) v i large,
    )
