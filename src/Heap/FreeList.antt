-- ===== src/Heap/FreeList.antt =====
-- `add_to_free_list` and `remove_from_free_list`: what they change, field by field, and that on a
-- well-formed free list they are the list operations.
use solace_os.Base.{
  ℕ, ◌≡◌, ◌≢◌, refl, sym, ◌∙◌, true, false, ◌||◌, List, [], ◌∷◌, ◌++◌, arith, ◌==◌, if◌then◌else◌,
  ==_of_ne,
}
use solace_os.Heap.{Kheap, add_to_free_list, remove_from_free_list}
use solace_os.Heap.Chain.{
  has, Distinct, Chain, last_of, head_of, has-append, Chain-cons, has-ne, has-last_of,
  next_in-Chain, prev_in-Chain, ne_null-Chain, head_of-ne, has-middle, head_of-Chain,
  Distinct-middle, last_of-ne,
}
use solace_os.Heap.Links.{head_after, Chain-remove}

abbrev pub next_of : Kheap → ℕ → ℕ
next_of h a = (h.blocks a).next

abbrev pub prev_of : Kheap → ℕ → ℕ
prev_of h a = (h.blocks a).prev

abbrev pub next_free_of : Kheap → ℕ → ℕ
next_free_of h a = (h.blocks a).next_free

abbrev pub prev_free_of : Kheap → ℕ → ℕ
prev_free_of h a = (h.blocks a).prev_free

-- The free list, head first, is `frees`.
pub record IsFreeList (h : Kheap) (frees : List ℕ) : Type 0 where
  pub chain : Chain (next_free_of h) (prev_free_of h) 0 h.free_list_head frees
  pub distinct : Distinct frees
  pub non_null : has 0 frees ≡ false

-- Two heaps agree but for the free list: same blocks in the same places, same statics.
pub record SameLayout (h g : Kheap) : Type 0 where
  pub size : (a : ℕ) → (g.blocks a).size ≡ (h.blocks a).size
  pub next : (a : ℕ) → (g.blocks a).next ≡ (h.blocks a).next
  pub prev : (a : ℕ) → (g.blocks a).prev ≡ (h.blocks a).prev
  pub heap_start : g.heap_start ≡ h.heap_start
  pub heap_end : g.heap_end ≡ h.heap_end
  pub pmm : g.pmm ≡ h.pmm

module _ (b : ℕ) (h : Kheap) where
  pub add-SameLayout : SameLayout h (add_to_free_list b h)
  unfolding add_to_free_list
  add-SameLayout = record {
    size = λ a. ground arith;
    next = λ a. ground arith;
    prev = λ a. ground arith;
    heap_start = ground arith;
    heap_end = ground arith;
    pmm = ground arith;
  }

  pub is_free-add_to_free_list :
      (a : ℕ) → ((add_to_free_list b h).blocks a).is_free ≡ ((b == a) || (h.blocks a).is_free)
  unfolding add_to_free_list
  is_free-add_to_free_list a = ground arith

  next_free-add :
      (a : ℕ)
      → next_free_of (add_to_free_list b h) a
        ≡ (if b == a then h.free_list_head else next_free_of h a)
  unfolding add_to_free_list
  next_free-add a = ground arith

  prev_free-add :
      (a : ℕ)
      → (b == a) ≡ false
      → a ≢ 0
      → prev_free_of (add_to_free_list b h) a
        ≡ (if h.free_list_head == a then b else prev_free_of h a)
  unfolding add_to_free_list
  prev_free-add a d n = ground arith

  prev_free-add_self : h.free_list_head ≢ b → prev_free_of (add_to_free_list b h) b ≡ 0
  unfolding add_to_free_list
  prev_free-add_self n = ground arith

  head-add : (add_to_free_list b h).free_list_head ≡ b
  unfolding add_to_free_list
  head-add = ground arith

  -- A block that is not NULL and not on a well-formed free list: `add_to_free_list` puts it in front,
  -- and the free list stays well-formed.
  pub add_to_free_list-IsFreeList :
      (frees : List ℕ)
      → IsFreeList h frees
      → b ≢ 0
      → has b frees ≡ false
      → IsFreeList (add_to_free_list b h) (b ∷ frees)
  add_to_free_list-IsFreeList frees f n o = record {
    chain = rw head-add (
        Chain-cons (next_free_of h) (prev_free_of h) _ _ h.free_list_head b frees f.chain n
          (o, f.distinct) next_free-add
          (λ a i.
            prev_free-add a (==_of_ne b a (has-ne b a frees o i))
              (λ e. has-ne 0 a frees f.non_null i (sym e)))
          (prev_free-add_self not_head));
    distinct = (o, f.distinct);
    non_null = ground (arith, f.non_null);
  }
    where
      not_head : h.free_list_head ≢ b
      not_head e = head_of-ne b frees n o (
          sym (head_of-Chain (next_free_of h) (prev_free_of h) 0 h.free_list_head frees f.chain)
          ∙ e)

  pub remove-SameLayout : SameLayout h (remove_from_free_list b h)
  unfolding remove_from_free_list
  remove-SameLayout = record {
    size = λ a. ground arith;
    next = λ a. ground arith;
    prev = λ a. ground arith;
    heap_start = ground arith;
    heap_end = ground arith;
    pmm = ground arith;
  }

  pub is_free-remove_from_free_list :
      (a : ℕ)
      → ((remove_from_free_list b h).blocks a).is_free
        ≡ (if b == a then false else (h.blocks a).is_free)
  unfolding remove_from_free_list
  is_free-remove_from_free_list a = ground arith

  module _ (pn : (h.blocks b).prev_free ≢ b) (nn : (h.blocks b).next_free ≢ b) where
    next_free-remove :
        (a : ℕ)
        → (b == a) ≡ false
        → a ≢ 0
        → next_free_of (remove_from_free_list b h) a
          ≡ (if prev_free_of h b == a then next_free_of h b else next_free_of h a)
    unfolding remove_from_free_list
    next_free-remove a d n = ground arith

    prev_free-remove :
        (a : ℕ)
        → (b == a) ≡ false
        → a ≢ 0
        → prev_free_of (remove_from_free_list b h) a
          ≡ (if next_free_of h b == a then prev_free_of h b else prev_free_of h a)
    unfolding remove_from_free_list
    prev_free-remove a d n = ground arith

    head-remove :
        (remove_from_free_list b h).free_list_head
        ≡ (if prev_free_of h b == 0 then next_free_of h b else h.free_list_head)
    unfolding remove_from_free_list
    head-remove = ground arith

  module _ (ys zs : List ℕ) (f : IsFreeList h (ys ++ b ∷ zs)) where
    around :
        (prev_free_of h b ≡ last_of 0 ys)
        × (next_free_of h b ≡ head_of zs)
        × (b ≢ 0)
        × (has b ys ≡ false)
        × (has b zs ≡ false)
        × Distinct (ys ++ zs)
    around =
        let (l, r, d) = Distinct-middle b ys zs f.distinct in
        (
          prev_in-Chain (next_free_of h) (prev_free_of h) b zs ys 0 h.free_list_head f.chain,
          next_in-Chain (next_free_of h) (prev_free_of h) b zs ys 0 h.free_list_head f.chain,
          ne_null-Chain (next_free_of h) (prev_free_of h) b zs ys 0 h.free_list_head f.chain,
          l,
          r,
          d,
        )

    prev-ne : prev_free_of h b ≢ b
    prev-ne e = last_of-ne b ys around.2 around.3 (sym around.0 ∙ e)

    next-ne : next_free_of h b ≢ b
    next-ne e = head_of-ne b zs around.2 around.4 (sym around.1 ∙ e)

    non_null_rest : has 0 (ys ++ zs) ≡ false
    non_null_rest = ground (arith, has-append 0 ys zs, has-middle 0 b ys zs f.non_null)

    in_rest : (a : ℕ) → has a (ys ++ zs) ≡ true → ((b == a) ≡ false) × (a ≢ 0)
    in_rest a i = (
      ==_of_ne b a (has-ne b a (ys ++ zs) (ground (arith, has-append b ys zs, around)) i),
      λ e. has-ne 0 a (ys ++ zs) non_null_rest i (sym e),
    )

    head_rest :
        (ws : List ℕ)
        → has 0 ws ≡ false
        → (if last_of 0 ws == 0 then next_free_of h b else h.free_list_head)
          ≡ head_after ws (next_free_of h b) h.free_list_head
    head_rest [] o = refl
    head_rest (w ∷ ws) o = rw (
        ==_of_ne (last_of w ws) 0
          (λ e. has-ne 0 (last_of w ws) (w ∷ ws) o (has-last_of w ws) (sym e)))

    -- A block on a well-formed free list: `remove_from_free_list` takes it out, and what is left is
    -- well-formed and in the same order.
    pub remove_from_free_list-IsFreeList : IsFreeList (remove_from_free_list b h) (ys ++ zs)
    remove_from_free_list-IsFreeList = record {
      chain =
          rw
            (
              head-remove prev-ne next-ne,
              around.0,
              head_rest ys (has-middle 0 b ys zs f.non_null).0,
            )
            (Chain-remove (next_free_of h) (prev_free_of h) _ _ b zs ys 0 h.free_list_head f.chain
              f.distinct f.non_null
              (λ a i.
                let (d, n) = in_rest a i in
                (next_free-remove prev-ne next-ne a d n, prev_free-remove prev-ne next-ne a d n)));
      distinct = around.5;
      non_null = non_null_rest;
    }
