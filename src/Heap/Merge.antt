-- ===== src/Heap/Merge.antt =====
-- The merge of a block with the next one, as `coalesce` makes it: the first grows over the second,
-- which leaves the physical list and whose header is cleared.
use solace_os.Base.{
  ℕ, ◌+◌, ◌≤◌, ◌≡◌, ◌≢◌, refl, sym, ap, ◌∙◌, inl, inr, true, false, List, [], ◌∷◌, ◌++◌, arith,
  ◌==◌, if◌then◌else◌, Bool-cases, ==-eq, ==-ne, ==_self, ==_of_ne, subst,
}
use mathlib.Core.List.{append_assoc}
use solace_os.Memory.{in_range}
use solace_os.Frames.{pmm_max_address}
use solace_os.Heap.{HeapBlock, Kheap, heap_header_size, absorb, clear}
use solace_os.Heap.Chain.{
  has, Chain, last_of, head_of, has-append, Chain-agree, has-ne, has-here, next_in-Chain,
  prev_in-Chain, ne_null-Chain, head_of-ne, Distinct, Distinct-middle, last_of-append, has-last_of,
}
use solace_os.Heap.Links.{Chain-remove, head_after}
use solace_os.Heap.FreeList.{next_of, prev_of, next_free_of, prev_free_of}
use solace_os.Heap.Layout.{
  Apart, end_of, Layout, Layout-Apart, Layout-Distinct, Layout-merge, Layout-next,
}
use solace_os.Heap.Valid.{size_of, is_free_at, IsHeap, clear-IsHeap}

-- The end of the list stays what it is unless the removed node was the last.
end_after :
    (l r : ℕ) (zs : List ℕ)
    → has r zs ≡ false
    → (if last_of r zs == r then l else last_of r zs) ≡ last_of l zs
end_after l r [] o = rw (==_self r)
end_after l r (z ∷ zs) o =
    rw (
      ==_of_ne (last_of z zs) r
        (λ e. has-ne r (last_of z zs) (z ∷ zs) o (has-last_of z zs) (sym e)))

module _ (h : Kheap) (us zs frees : List ℕ) (l r : ℕ) (v : IsHeap h (us ++ l ∷ r ∷ zs) frees)
    (out : has r frees ≡ false) where
  abbrev pub grown : Kheap
  grown = absorb l r h

  append : (us ++ l ∷ []) ++ r ∷ zs ≡ us ++ l ∷ r ∷ zs
  append = rw append_assoc

  distinct : Distinct (us ++ l ∷ r ∷ zs)
  distinct = Layout-Distinct (size_of h) (us ++ l ∷ r ∷ zs) v.layout

  chain : Chain (next_of h) (prev_of h) 0 h.heap_start ((us ++ l ∷ []) ++ r ∷ zs)
  chain = rw append v.chain

  pub prev-right : prev_of h r ≡ l
  prev-right =
      prev_in-Chain (next_of h) (prev_of h) r zs (us ++ l ∷ []) 0 h.heap_start chain
      ∙ last_of-append 0 l us []

  next-right : next_of h r ≡ head_of zs
  next-right = next_in-Chain (next_of h) (prev_of h) r zs (us ++ l ∷ []) 0 h.heap_start chain

  -- Where the nodes are not.
  pub apart :
      (has l us ≡ false)
      × ((l == r) ≡ false)
      × (has l zs ≡ false)
      × (has r us ≡ false)
      × (has r zs ≡ false)
  apart =
      let (a, b, d) = Distinct-middle l us (r ∷ zs) distinct in
      let (c, e, k) = Distinct-middle r (us ++ l ∷ []) zs (rw append distinct) in
      (a, ground arith, ground arith, ground (arith, has-append r us (l ∷ [])), e)

  left-ne-null : l ≢ 0
  left-ne-null = ne_null-Chain (next_of h) (prev_of h) l (r ∷ zs) us 0 h.heap_start v.chain

  right-ne-null : r ≢ 0
  right-ne-null = ne_null-Chain (next_of h) (prev_of h) r zs (us ++ l ∷ []) 0 h.heap_start chain

  next-ne-left : next_of h r ≢ l
  next-ne-left e = head_of-ne l zs left-ne-null apart.2 (sym next-right ∙ e)

  member_left : has l (us ++ l ∷ r ∷ zs) ≡ true
  member_left = has-here l us (r ∷ zs)

  member_right : has r (us ++ l ∷ r ∷ zs) ≡ true
  member_right = ground (arith, has-append r us (l ∷ r ∷ zs))

  pub below : end_of (size_of h) l ≤ r
  below = Layout-next (size_of h) l r zs us v.layout

  -- No sum of the merge wraps.
  pub size-left : size_of grown l ≡ size_of h l + (size_of h r + heap_header_size)
  unfolding absorb
  size-left = let f = v.fits r member_right in ground (arith, below, f, next-ne-left)

  -- What the merge does to a block.
  module _ (a : ℕ) (positive : a ≢ 0) where
    pub size-other : l ≢ a → size_of grown a ≡ size_of h a
    unfolding absorb
    size-other d = ground (arith, next-ne-left)

    links :
        (next_of grown a ≡ (if l == a then next_of h r else next_of h a))
        × (prev_of grown a ≡ (if next_of h r == a then l else prev_of h a))
    unfolding absorb
    links = (ground (arith, next-ne-left), ground (arith, positive, next-ne-left))

    pub rest :
        (next_free_of grown a ≡ next_free_of h a)
        × (prev_free_of grown a ≡ prev_free_of h a)
        × (is_free_at grown a ≡ is_free_at h a)
    unfolding absorb
    rest =
        (ground (arith, next-ne-left), ground (arith, next-ne-left), ground (arith, next-ne-left))

  statics :
      (grown.heap_start ≡ h.heap_start)
      × (grown.free_list_head ≡ h.free_list_head)
      × (grown.heap_end ≡ (if h.heap_end == r then l else h.heap_end))
  unfolding absorb
  statics = (ground arith, ground arith, ground arith)

  in_old : (a : ℕ) → has a (us ++ l ∷ zs) ≡ true → has a (us ++ l ∷ r ∷ zs) ≡ true
  in_old a i = ground (arith, has-append a us (l ∷ zs), has-append a us (l ∷ r ∷ zs))

  pub in_new : (a : ℕ) → has a (us ++ l ∷ r ∷ zs) ≡ true → r ≢ a → has a (us ++ l ∷ zs) ≡ true
  in_new a i d = ground (arith, has-append a us (l ∷ zs), has-append a us (l ∷ r ∷ zs))

  pub ne-right : (a : ℕ) → has a (us ++ l ∷ zs) ≡ true → r ≢ a
  ne-right a i = has-ne r a (us ++ l ∷ zs) (ground (arith, has-append r us (l ∷ zs), apart)) i

  pub positive_of : (a : ℕ) → has a (us ++ l ∷ r ∷ zs) ≡ true → a ≢ 0
  positive_of a i e = has-ne 0 a (us ++ l ∷ r ∷ zs) v.non_null i (sym e)

  append_rest : (us ++ l ∷ []) ++ zs ≡ us ++ l ∷ zs
  append_rest = rw append_assoc

  head_stays : head_after (us ++ l ∷ []) (next_of h r) h.heap_start ≡ h.heap_start
  head_stays = go us
    where
      go : (ws : List ℕ) → head_after (ws ++ l ∷ []) (next_of h r) h.heap_start ≡ h.heap_start
      go [] = refl
      go (w ∷ ws) = refl

  Chain-absorb : Chain (next_of grown) (prev_of grown) 0 h.heap_start (us ++ l ∷ zs)
  Chain-absorb =
      subst (λ p. Chain (next_of grown) (prev_of grown) 0 p (us ++ l ∷ zs)) head_stays
        (rw (← append_rest) (
          Chain-remove (next_of h) (prev_of h) (next_of grown) (prev_of grown) r zs (us ++ l ∷ []) 0
            h.heap_start chain (rw append distinct) (rw append v.non_null)
            (λ a i. rw prev-right (links a (positive_of a (in_old a (rw append_rest at i)))))))

  heap_end_after : grown.heap_end ≡ last_of 0 (us ++ l ∷ zs)
  heap_end_after =
      statics.2
      ∙ rw (v.last, last_of-append 0 l us (r ∷ zs), last_of-append 0 l us zs)
          (end_after l r zs apart.4)

  in_space : (a : ℕ) → has a (us ++ l ∷ zs) ≡ true → end_of (size_of grown) a ≤ pmm_max_address
  in_space a i = elim (Bool-cases (l == a)) [
    | inl e ↦ rw (← ==-eq l a e, size-left) (omega (arith, v.fits r member_right, below))
    | inr d ↦ let o = in_old a i in rw (size-other a (positive_of a o) (==-ne l a d)) (v.fits a o)
  ]

  Layout-absorb : Layout (size_of grown) (us ++ l ∷ zs)
  Layout-absorb =
      Layout-merge (size_of h) (size_of grown) l r zs us v.layout
        (λ a i d. size-other a (positive_of a i) d) size-left

  pub absorb-IsHeap : IsHeap grown (us ++ l ∷ zs) frees
  absorb-IsHeap = record {
    chain = rw statics.0 Chain-absorb;
    last = heap_end_after;
    layout = Layout-absorb;
    fits = in_space;
    non_null = ground (arith, has-append 0 us (l ∷ zs), has-append 0 us (l ∷ r ∷ zs), v.non_null);
    free_list = record {
      chain = rw statics.1 (
          Chain-agree (next_free_of h) (prev_free_of h) (next_free_of grown) (prev_free_of grown) 0
            h.free_list_head frees v.free_list.chain
            (λ a i. let f = rest a (positive_of a (v.listed a i).0) in (f.0, f.1)));
      distinct = v.free_list.distinct;
      non_null = v.free_list.non_null;
    };
    listed = λ a i.
        let (p, q) = v.listed a i in
        (in_new a p (has-ne r a frees out i), (rest a (positive_of a p)).2 ∙ q);
  }

  -- The header of the block that is gone lies in no header that is left.
  clear_free : (a : ℕ) → has a (us ++ l ∷ zs) ≡ true → in_range r heap_header_size a ≡ false
  clear_free a i = go (
      Layout-Apart (size_of h) (us ++ l ∷ r ∷ zs) r a v.layout member_right (in_old a i)
        (ne-right a i))
    where
      go : Apart (size_of h) r a → in_range r heap_header_size a ≡ false
      go (inl p) = ground arith
      go (inr p) = ground arith

  abbrev pub merged : Kheap
  merged = clear r heap_header_size grown

  pub merged-IsHeap : IsHeap merged (us ++ l ∷ zs) frees
  merged-IsHeap =
      clear-IsHeap grown (us ++ l ∷ zs) frees r heap_header_size absorb-IsHeap clear_free

  cleared : (a : ℕ) → has a (us ++ l ∷ zs) ≡ true → merged.blocks a ≡ grown.blocks a
  unfolding clear
  cleared a i = rw (clear_free a i)

  size-grown :
      (x : ℕ)
      → has x (us ++ l ∷ r ∷ zs) ≡ true
      → size_of grown x
        ≡ (if l == x then size_of h l + (size_of h r + heap_header_size) else size_of h x)
  size-grown x k = elim (Bool-cases (l == x)) [
    | inl e ↦ rw (← ==-eq l x e, ==_self l) size-left
    | inr d ↦ rw d (size-other x (positive_of x k) (==-ne l x d))
  ]

  pub merged-block :
      (a : ℕ)
      → has a (us ++ l ∷ zs) ≡ true
      → (size_of merged a
          ≡ (if l == a then size_of h l + (size_of h r + heap_header_size) else size_of h a))
        × (is_free_at merged a ≡ is_free_at h a)
  merged-block a i =
      let o = in_old a i in
      (
        ap {A = HeapBlock} (λ b. b.size) (cleared a i) ∙ size-grown a o,
        ap {A = HeapBlock} (λ b. b.is_free) (cleared a i) ∙ (rest a (positive_of a o)).2,
      )
