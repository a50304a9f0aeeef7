-- ===== src/Heap/RoundTrip.antt =====
-- `kmalloc` followed by `kfree` of what it returned.
use solace_os.Base.{ℕ, ◌+◌, ◌<◌, ◌≡◌, ◌≢◌, ap, ◌∙◌, true, false, some, List, length}
use solace_os.Heap.{Kheap, heap_header_size, align, kmalloc, kfree}
use solace_os.Heap.Chain.{has}
use solace_os.Heap.Valid.{size_of, is_free_at, IsHeap}
use solace_os.Heap.Loose.{AllListed, true_ne}
use solace_os.Heap.Free.{Freed, kfree-Freed}
use solace_os.Heap.FirstFit.{first_fit, first_fit-fits}
use solace_os.Heap.Malloc.{Taken, Taken-AllListed, kmalloc-first_fit}

-- A valid heap in which every block that is marked free is on the free list, and every block that
-- was in use in `h` still is, with its size.
pub record Restored (h : Kheap) (phys : List ℕ) (g : Kheap) : Type 0 where
  pub all_blocks : List ℕ
  pub free_blocks : List ℕ
  pub valid : IsHeap g all_blocks free_blocks
  pub marked : AllListed g all_blocks free_blocks
  pub keeps :
      (a : ℕ)
      → has a phys ≡ true
      → is_free_at h a ≡ false
      → (has a all_blocks ≡ true) × (is_free_at g a ≡ false) × (size_of g a ≡ size_of h a)

Taken-Restored :
    (h g k : Kheap) (phys frees : List ℕ) (n b : ℕ) (t : Taken h phys frees n b g)
    → is_free_at h b ≡ true
    → Freed g t.all_blocks b k
    → Restored h phys k
Taken-Restored h g k phys frees n b t was f = record {
  all_blocks = f.all_blocks;
  free_blocks = f.free_blocks;
  valid = f.valid;
  marked = f.marked;
  keeps = λ a i u.
      let d : b ≢ a = λ e. true_ne (is_free_at h b) was (ap (is_free_at h) e ∙ u) _ in
      let (z, m) = t.same a i d in
      let (_, j, w, e) = f.keeps a (t.kept a i) (m ∙ u) d in (j, w, e ∙ z);
}

-- On a valid heap in which every block that is marked free is on the free list, for a size other than
-- 0 that, rounded up to a multiple of 8 in 64 bits, some block of the free list can hold, and with a
-- round of fuel for each free block and one more: `kmalloc` returns an address, `kfree` of it leaves
-- such a heap again, and every block in use before is in use after, with its size.
pub kfree-kmalloc :
    (h : Kheap) (phys frees : List ℕ) (size fuel : ℕ)
    → IsHeap h phys frees
    → AllListed h phys frees
    → size ≢ 0
    → length frees < fuel
    → first_fit (size_of h) (align size) frees ≢ 0
    → (p : ℕ) × (g : Kheap) × (kmalloc fuel size h ≡ some (p, g)) × Restored h phys (kfree p g)
kfree-kmalloc h phys frees size fuel v l n enough d =
    let b = first_fit (size_of h) (align size) frees in
    let (g, e, t) = kmalloc-first_fit h phys frees size fuel v n enough d in
    let was = (v.listed b (first_fit-fits (size_of h) (align size) frees d).0).1 in
    (
      b + heap_header_size,
      g,
      e,
      Taken-Restored h g (kfree (b + heap_header_size) g) phys frees (align size) b t was (
          kfree-Freed g t.all_blocks t.free_blocks b t.valid
            (Taken-AllListed h g phys frees (align size) b t l) t.block t.in_use),
    )
