-- ===== src/Heap/Merged.antt =====
-- `merge_back` in every case: what `expand_heap` then puts on the free list.
use solace_os.Base.{
  ℕ, ◌-◌, ◌≤◌, ◌≡◌, ◌≢◌, refl, sym, ap, ◌∙◌, subst, ◌⊎◌, inl, inr, true, false, List, [], ◌∷◌, ◌++◌,
  length, arith, ◌==◌, Bool-cases, ==-eq, ==_self,
}
use mathlib.Core.List.{append_assoc}
use solace_os.Frames.{page_size}
use solace_os.Heap.{Kheap, heap_header_size, remove_from_free_list, absorb}
use solace_os.Heap.Chain.{
  has, Distinct, has-append, has-here, has-ne, has-last_of, last_of, last_of-append, prev_in-Chain,
  Distinct-middle,
}
use solace_os.Heap.FreeList.{next_of, prev_of, next_free_of, prev_free_of, remove-SameLayout}
use solace_os.Heap.Layout.{Layout-Distinct}
use solace_os.Heap.Valid.{size_of, is_free_at, IsHeap}
use solace_os.Heap.Merge
use solace_os.Heap.Expand.{Ready}
use solace_os.Heap.Pages.{IsLoosePage}
use solace_os.Heap.MergeBack.{joined-Ready, joined-other, joined-SameLinks}
use solace_os.Heap.Tail.{IsUnlinked, SameLinks, unlinked_still}

Distinct-apart : (a : ℕ) (xs ys : List ℕ) → Distinct (xs ++ ys) → has a ys ≡ true → has a xs ≡ false
Distinct-apart a [] ys d i = refl
Distinct-apart a (x ∷ xs) ys d i = elim (Bool-cases (a == x)) [
  | inl e ↦
      let bad : true ≡ false =
        sym i
        ∙ ground (arith, has-append x xs ys, d.0, ==-eq a x e, ap (λ b. has b ys) (==-eq a x e)) in
      cc
  | inr n ↦ rw n (Distinct-apart a xs ys d.1 i)
]

-- The last node of a list that has one does not depend on what is before.
last_other : (x y : ℕ) (ps : List ℕ) (b : ℕ) → has b ps ≡ true → last_of x ps ≡ last_of y ps
last_other x y [] b i = cc
last_other x y (q ∷ ps) b i = refl

-- The block that goes on the free list, and the heap then: `phys` were the blocks of `h` before the
-- expansion, and `frees` its free list.
pub record Merged (f : ℕ) (h : Kheap) (phys frees : List ℕ) (r : ℕ × Kheap) : Type 0 where
  pub all_blocks : List ℕ
  pub free_blocks : List ℕ
  pub ready : Ready f r.1 all_blocks free_blocks
  pub block : has r.0 all_blocks ≡ true
  pub out : has r.0 free_blocks ≡ false
  pub shorter : length free_blocks ≤ length frees
  pub large : page_size - heap_header_size ≤ size_of r.1 r.0
  pub kept :
      (a : ℕ)
      → has a phys ≡ true
      → is_free_at h a ≡ false
      → (has a all_blocks ≡ true)
        × (r.0 ≢ a)
        × (is_free_at r.1 a ≡ false)
        × (size_of r.1 a ≡ size_of h a)
  pub last :
      (last_of 0 all_blocks ≡ r.0)
      ⊎ ((has (last_of 0 all_blocks) free_blocks ≡ false)
          × IsUnlinked r.1 (last_of 0 all_blocks)
          × (r.0 ≢ last_of 0 all_blocks))

module _ (f : ℕ) (h g : Kheap) (phys frees ps : List ℕ) (p : ℕ)
    (ready : Ready f g (phys ++ p ∷ ps) frees)
    (listed : (a : ℕ) → has a frees ≡ true → has a phys ≡ true)
    (kept : (a : ℕ)
      → has a phys ≡ true
      → (size_of g a ≡ size_of h a)
        × (is_free_at g a ≡ is_free_at h a)
        × (next_free_of g a ≡ next_free_of h a)
        × (prev_free_of g a ≡ prev_free_of h a))
    (loose : (a : ℕ) → has a (p ∷ ps) ≡ true → IsLoosePage g a) where
  distinct : Distinct (phys ++ p ∷ ps)
  distinct = Layout-Distinct (size_of g) (phys ++ p ∷ ps) ready.heap.layout

  -- A new page is no old block, and not on the free list.
  pub page-new : (a : ℕ) → has a (p ∷ ps) ≡ true → (has a phys ≡ false) × (has a frees ≡ false)
  page-new a i =
      let o = Distinct-apart a phys (p ∷ ps) distinct i in
      (
        o,
        elim (Bool-cases (has a frees)) [
          | inl j ↦ let bad : true ≡ false = sym (listed a j) ∙ o in cc
          | inr q ↦ q
        ],
      )

  page-unlinked : (a : ℕ) → has a (p ∷ ps) ≡ true → IsUnlinked g a
  page-unlinked a i = let l = loose a i in (l.2, l.3)

  p_in : has p (p ∷ ps) ≡ true
  p_in = rw (==_self p)

  pub prev-page : prev_of g p ≡ last_of 0 phys
  prev-page = prev_in-Chain (next_of g) (prev_of g) p ps phys 0 g.heap_start ready.heap.chain

  last_page : (ps ≡ []) ⊎ ((has (last_of p ps) ps ≡ true) × (p ≢ last_of p ps))
  last_page = go ps (Distinct-middle p phys ps distinct).1
    where
      go :
          (qs : List ℕ)
          → has p qs ≡ false
          → (qs ≡ []) ⊎ ((has (last_of p qs) qs ≡ true) × (p ≢ last_of p qs))
      go [] o = inl refl
      go (q ∷ qs) o = inr (has-last_of q qs, has-ne p (last_of q qs) (q ∷ qs) o (has-last_of q qs))

  -- No merge.
  pub stays-Merged : Merged f h phys frees (p, g)
  stays-Merged = record {
    all_blocks = phys ++ p ∷ ps;
    free_blocks = frees;
    ready = ready;
    block = has-here p phys ps;
    out = (page-new p p_in).1;
    shorter = omega arith;
    large = rw ((loose p p_in).0) (omega arith);
    kept = λ a i u.
        let k = kept a i in
        (
          ground (arith, has-append a phys (p ∷ ps), i),
          has-ne p a phys (page-new p p_in).0 i,
          k.1 ∙ u,
          k.0,
        );
    last = elim last_page [
      | inl e ↦ inl (last_of-append 0 p phys ps ∙ ap (last_of p) e)
      | inr (i, d) ↦
          let is = last_of-append 0 p phys ps in
          let j : has (last_of p ps) (p ∷ ps) ≡ true = ground (arith, i) in
          rw is (inr ((page-new (last_of p ps) j).1, page-unlinked (last_of p ps) j, d))
    ];
  }

  -- The last block `l` is free, and was taken off the free list, of which `rest` is left.
  module _ (us rest : List ℕ) (l : ℕ) (e : phys ≡ us ++ l ∷ []) (free : is_free_at h l ≡ true)
      (v : IsHeap (remove_from_free_list l g) (us ++ l ∷ p ∷ ps) rest) (out_l : has l rest ≡ false)
      (sub : (a : ℕ) → has a rest ≡ true → has a frees ≡ true)
      (shorter : length rest ≤ length frees)
      (links : (a : ℕ) → has a (p ∷ ps) ≡ true → SameLinks g (remove_from_free_list l g) a) where
    abbrev pub joined : Kheap
    joined = absorb l p (remove_from_free_list l g)

    whole : phys ++ p ∷ ps ≡ us ++ l ∷ p ∷ ps
    whole = rw (e, append_assoc)

    whole-Ready : Ready f g (us ++ l ∷ p ∷ ps) frees
    whole-Ready = subst (λ xs. Ready f g xs frees) whole ready

    page-out : (a : ℕ) → has a (p ∷ ps) ≡ true → has a rest ≡ false
    page-out a i = elim (Bool-cases (has a rest)) [
      | inl j ↦ let bad : true ≡ false = sym (sub a j) ∙ (page-new a i).1 in cc
      | inr q ↦ q
    ]

    in_whole : (a : ℕ) → has a phys ≡ true → has a (us ++ l ∷ p ∷ ps) ≡ true
    in_whole a i = ap (has a) (sym whole) ∙ has-append a phys (p ∷ ps) ∙ ground (arith, i)

    l_in : has l phys ≡ true
    l_in = ap (has l) e ∙ has-here l us []

    joined-kept :
        (a : ℕ)
        → has a phys ≡ true
        → is_free_at h a ≡ false
        → (has a (us ++ l ∷ ps) ≡ true)
          × (l ≢ a)
          × (is_free_at joined a ≡ false)
          × (size_of joined a ≡ size_of h a)
    joined-kept a i u =
        let d : l ≢ a = λ q. let bad : true ≡ false = sym free ∙ ap (is_free_at h) q ∙ u in cc in
        let k = kept a i in
        let o =
          joined-other f g us ps frees rest l p whole-Ready v (page-out p p_in) a (in_whole a i)
            d in
        (
          Merge.in_new (remove_from_free_list l g) us ps rest l p v (page-out p p_in) a
              (in_whole a i) (has-ne p a phys (page-new p p_in).0 i),
          d,
          o.1 ∙ k.1 ∙ u,
          o.0 ∙ k.0,
        )

    pub joined-Merged : Merged f h phys frees (l, joined)
    joined-Merged = record {
      all_blocks = us ++ l ∷ ps;
      free_blocks = rest;
      ready = joined-Ready f g us ps frees rest l p whole-Ready v (page-out p p_in);
      block = has-here l us ps;
      out = out_l;
      shorter = shorter;
      large = omega (
        arith,
        Merge.size-left (remove_from_free_list l g) us ps rest l p v (page-out p p_in),
        (remove-SameLayout l g).size p,
        (loose p p_in).0,
      );
      kept = joined-kept;
      last = last_joined;
    }
      where
        last_joined :
            (last_of 0 (us ++ l ∷ ps) ≡ l)
            ⊎ ((has (last_of 0 (us ++ l ∷ ps)) rest ≡ false)
                × IsUnlinked joined (last_of 0 (us ++ l ∷ ps))
                × (l ≢ last_of 0 (us ++ l ∷ ps)))
        last_joined = elim last_page [
          | inl q ↦ inl (last_of-append 0 l us ps ∙ ap (last_of l) q)
          | inr (i, d) ↦
              let b = last_of p ps in
              let is : last_of 0 (us ++ l ∷ ps) ≡ b =
                last_of-append 0 l us ps ∙ last_other l p ps b i in
              let j : has b (p ∷ ps) ≡ true = ground (arith, i) in
              let z : b ≢ 0 = λ q.
                has-ne 0 b (phys ++ p ∷ ps) ready.heap.non_null
                  (has-append b phys (p ∷ ps) ∙ ground (arith, j)) (sym q) in
              let s =
                joined-SameLinks f g us ps frees rest l p whole-Ready v (page-out p p_in) b z in
              rw is (
                inr (
                  page-out b j,
                  unlinked_still (remove_from_free_list l g) joined b s (
                      unlinked_still g (remove_from_free_list l g) b (links b j)
                        (page-unlinked b j)),
                  λ q. has-ne b l phys (page-new b j).0 l_in (sym q),
                ))
        ]
