-- ===== src/Heap/Pages.antt =====
-- All rounds of the loop of `expand_heap`.
use solace_os.Base.{
  ℕ, zero, suc, ◌+◌, ◌*◌, ◌-◌, ◌≤◌, ◌≡◌, ◌≢◌, refl, ◌∙◌, subst, inl, inr, Bool, true, false, List,
  [], ◌∷◌, ◌++◌, arith, ◌==◌, if◌then◌else◌, length, Bool-cases, ==_of_ne, ==-eq,
}
use mathlib.Core.List.{append-nil, append_assoc}
use solace_os.Frames.{page_size}
use solace_os.Heap.{Kheap, heap_header_size, take_frame, link_frame, expand_loop}
use solace_os.Heap.Chain.{has, has-append, head_of}
use solace_os.Heap.FreeList.{next_free_of, prev_free_of}
use solace_os.Heap.Valid.{size_of, is_free_at}
use solace_os.Heap.Grow.{Grown}
use solace_os.Heap.Expand.{Ready, exhausted, linked, round}

-- A page of its own: marked free, but with no links of the free list.
abbrev pub IsLoosePage : Kheap → ℕ → Type 0
IsLoosePage g a =
    (size_of g a ≡ page_size - heap_header_size)
    × (is_free_at g a ≡ true)
    × (next_free_of g a ≡ 0)
    × (prev_free_of g a ≡ 0)

-- What the loop has done, when it was to link `n` pages and had `new_block` before.
pub record Expanded (h : Kheap) (phys frees : List ℕ) (n new_block : ℕ) (r : Bool × ℕ × Kheap)
    : Type 0 where
  pub pages : List ℕ
  pub frontier : ℕ
  pub ready : Ready frontier r.2 (phys ++ pages) frees
  pub count : r.0 ≡ true → length pages ≡ n
  pub enough : n * page_size ≤ h.pmm.free_memory → r.0 ≡ true
  pub first : r.1 ≡ (if new_block == 0 then head_of pages else new_block)
  pub kept :
      (a : ℕ)
      → has a phys ≡ true
      → (size_of r.2 a ≡ size_of h a)
        × (is_free_at r.2 a ≡ is_free_at h a)
        × (next_free_of r.2 a ≡ next_free_of h a)
        × (prev_free_of r.2 a ≡ prev_free_of h a)
  pub loose : (a : ℕ) → has a pages ≡ true → IsLoosePage r.2 a

loop_end : (nb : ℕ) (h : Kheap) → expand_loop 0 nb h ≡ (true, nb, h)
unfolding expand_loop
loop_end nb h = refl

loop_stop :
    (n nb : ℕ) (h : Kheap)
    → (take_frame h).0 ≡ 0
    → expand_loop (suc n) nb h ≡ (false, nb, (take_frame h).1)
unfolding expand_loop
loop_stop n nb h e = rw (expand_loop, e) refl

loop_step :
    (n nb b : ℕ) (h : Kheap)
    → (take_frame h).0 ≡ b
    → b ≢ 0
    → expand_loop (suc n) nb h
      ≡ expand_loop n (if nb == 0 then b else nb) (link_frame b (take_frame h).1)
unfolding expand_loop
loop_step n nb b h e z = rw (expand_loop, e, ==_of_ne b 0 z) refl

chosen :
    (nb b first : ℕ)
    → b ≢ 0
    → (if (if nb == 0 then b else nb) == 0 then first else if nb == 0 then b else nb)
      ≡ (if nb == 0 then b else nb)
chosen nb b first z = elim (Bool-cases (nb == 0)) [
  | inl e ↦ rw (e, ==_of_ne b 0 z)
  | inr e ↦ rw (e, e)
]

module _ (h : Kheap) (phys frees : List ℕ) where
  nothing-Expanded :
      (k n nb : ℕ) (ok : Bool)
      → Ready k h phys frees
      → (ok ≡ true → 0 ≡ n)
      → (n * page_size ≤ h.pmm.free_memory → ok ≡ true)
      → Expanded h phys frees n nb (ok, nb, h)
  nothing-Expanded k n nb ok r c e = record {
    pages = [];
    frontier = k;
    ready = rw append-nil r;
    count = c;
    enough = e;
    first = elim (Bool-cases (nb == 0)) [ inl f ↦ rw (f, ==-eq nb 0 f) refl | inr f ↦ rw f ];
    kept = λ a i. (refl, refl, refl, refl);
    loose = λ a i. cc;
  }

  linked-Expanded :
      (n nb b : ℕ) (g : Kheap)
      → b ≢ 0
      → Grown h phys b g
      → g.pmm.free_memory + page_size ≡ h.pmm.free_memory
      → (r : Bool × ℕ × Kheap) → Expanded g (phys ++ b ∷ []) frees n (if nb == 0 then b else nb) r
      → Expanded h phys frees (suc n) nb r
  linked-Expanded n nb b g z w m r x = record {
    pages = b ∷ x.pages;
    frontier = x.frontier;
    ready = subst (λ l. Ready x.frontier r.2 l frees) (append_assoc phys (b ∷ []) x.pages) x.ready;
    count = λ e. omega (arith, x.count e);
    enough = λ e. x.enough (omega (arith, m, e));
    first = x.first ∙ chosen nb b (head_of x.pages) z;
    kept = λ a i.
        let k = w.kept a i in
        let l = x.kept a (has-append a phys (b ∷ []) ∙ ground (arith, i)) in
        (l.0 ∙ k.0, l.1 ∙ k.1, l.2 ∙ k.2, l.3 ∙ k.3);
    loose = λ a i. elim (Bool-cases (a == b)) [
      | inl e ↦
          let l = x.kept b (has-append b phys (b ∷ []) ∙ ground arith) in
          rw (==-eq a b e) (l.0 ∙ w.page.0, l.1 ∙ w.page.1, l.2 ∙ w.page.2, l.3 ∙ w.page.3)
      | inr e ↦ x.loose a (rw e at i)
    ];
  }

-- The loop keeps the invariant of the heap and of the frame allocator, and gets all its pages if there
-- is memory for them.
pub expand_loop-Expanded :
    (n nb k : ℕ) (h : Kheap) (phys frees : List ℕ)
    → Ready k h phys frees
    → Expanded h phys frees n nb (expand_loop n nb h)
expand_loop-Expanded zero nb k h phys frees r =
    rw (loop_end nb h) (nothing-Expanded h phys frees k 0 nb true r (λ e. refl) (λ e. refl))
expand_loop-Expanded (suc n) nb k h phys frees r = elim (round k h phys frees r) [
  | exhausted e same m ↦
      rw (loop_stop n nb h e, same)
        (nothing-Expanded h phys frees k (suc n) nb false r (λ f. cc)
          (λ l. absurd (omega (arith, l, m))))
  | linked i b e z g is w ready m ↦
      rw (loop_step n nb b h e z, is)
        (linked-Expanded h phys frees n nb b g z w m _ (
          expand_loop-Expanded n (if nb == 0 then b else nb) (i + 1) g (phys ++ b ∷ []) frees
            ready))
]
