-- ===== src/Heap/Bytes.antt =====
-- `kmalloc` with what its `memset` does to the bitmap of the frame allocator. The bitmap is an array in memory,
-- which the record of the frame allocator keeps apart from the other bytes. A merge in `expand_heap` can make
-- a block that reaches over the kernel's image and the bitmap in it, and clearing such a block zeroes them.
use solace_os.Base.{
  ℕ, ◌+◌, ◌-◌, ◌≤◌, ◌≡◌, ◌≢◌, refl, sym, ap, subst, ◌∙◌, ◌⊎◌, inl, inr, false, ◌&&◌, Option, none,
  some, ltb, ◌==◌, if◌then◌else◌, arith, Bool-cases, ==-ne, fun_ext,
}
use solace_os.Memory.{in_range}
use solace_os.Frames.{Linker, BootParams, kernel_range}
use solace_os.Heap.{Kheap, heap_header_size, kmalloc}

-- The bytes of the bitmap that lie in the `n` bytes from `s` on become 0.
unfoldable pub overwrite : ℕ → ℕ → Kheap → Kheap
overwrite s n h = record h {
  pmm = record h.pmm {
    frame_bitmap = λ k.
        if ltb k h.pmm.bitmap_length && in_range s n (h.pmm.bitmap_start + k)
        then 0
        else h.pmm.frame_bitmap k;
  };
}

-- The bytes of the block whose data `kmalloc` returns.
abbrev pub room : ℕ → Kheap → ℕ
room p g = (g.blocks (p - heap_header_size)).size

-- `kmalloc`, which clears the data of the block that it returns.
unfoldable pub kmalloc_bytes : ℕ → ℕ → Kheap → Option (ℕ × Kheap)
unfolding overwrite
kmalloc_bytes fuel size h = elim (kmalloc fuel size h) [
  | none ↦ none
  | some (p, g) ↦ some (p, if p == 0 then g else overwrite p (room p g) g)
]

-- What a call leaves, from what `kmalloc` leaves.
abbrev pub cleared : ℕ → Kheap → Kheap
cleared p g = if p == 0 then g else overwrite p (room p g) g

pub kmalloc_bytes-some :
    (fuel size p : ℕ) (h g : Kheap)
    → kmalloc fuel size h ≡ some (p, g)
    → kmalloc_bytes fuel size h ≡ some (p, cleared p g)
unfolding kmalloc_bytes
kmalloc_bytes-some fuel size p h g e = rw (kmalloc_bytes, e) refl

-- A block with its header and a header behind it has no byte in common with a range.
abbrev pub Beside : ℕ → ℕ → ℕ → ℕ → Type 0
Beside p n base size = (p + n + heap_header_size ≤ base) ⊎ (base + size + heap_header_size ≤ p)

-- Nor with the kernel's image and the bitmap.
abbrev pub Spares : Linker → Option BootParams → ℕ → Kheap → Type 0
Spares l params p g =
    Beside p (room p g) (kernel_range l params).0 (kernel_range l params).1
    × Beside p (room p g) g.pmm.bitmap_start g.pmm.bitmap_length

overwrite-Beside :
    (p n : ℕ) (h : Kheap) → Beside p n h.pmm.bitmap_start h.pmm.bitmap_length → overwrite p n h ≡ h
unfolding overwrite
overwrite-Beside p n h b =
    ap (λ f. record h { pmm = record h.pmm { frame_bitmap = f } }) (fun_ext same)
  where
    same :
        (k : ℕ)
        → (if ltb k h.pmm.bitmap_length && in_range p n (h.pmm.bitmap_start + k)
            then 0
            else h.pmm.frame_bitmap k)
          ≡ h.pmm.frame_bitmap k
    same k =
        let out : (ltb k h.pmm.bitmap_length && in_range p n (h.pmm.bitmap_start + k)) ≡ false =
          ground (arith, b) in
        rw out refl

-- A call that clears nothing of the kernel or the bitmap is one of `kmalloc`.
pub kmalloc_bytes-Spares :
    (l : Linker) (params : Option BootParams) (fuel size p : ℕ) (h g' : Kheap)
    → kmalloc_bytes fuel size h ≡ some (p, g')
    → (p ≢ 0 → Spares l params p g')
    → kmalloc fuel size h ≡ some (p, g')
unfolding kmalloc_bytes
kmalloc_bytes-Spares l params fuel size p h g' e s = go (kmalloc fuel size h) e
  where
    clean :
        (q : ℕ) (g : Kheap) → (if q == 0 then g else overwrite q (room q g) g) ≡ g' → q ≡ p → g ≡ g'
    clean q g f t = elim (Bool-cases (q == 0)) [
      | inl z ↦ (rw z at f)
      | inr z ↦
          let over : overwrite q (room q g) g ≡ g' = rw z at f in
          let at_p : Beside p (room p g') g'.pmm.bitmap_start g'.pmm.bitmap_length =
            (s (λ w. ==-ne q 0 z (t ∙ w))).1 in
          let beside : Beside q (room q g) g.pmm.bitmap_start g.pmm.bitmap_length =
            unfold overwrite in
            subst (λ k. Beside k (room k g) g.pmm.bitmap_start g.pmm.bitmap_length) (sym t)
              (subst (λ k. Beside p (room p k) k.pmm.bitmap_start k.pmm.bitmap_length) (sym over)
                at_p) in
          sym (overwrite-Beside q (room q g) g beside) ∙ over
    ]

    go :
        (o : Option (ℕ × Kheap))
        → ◌≡◌ {A = Option (ℕ × Kheap)}
            (elim o as (λ _. Option (ℕ × Kheap)) [
              | none ↦ none
              | some (q, g) ↦ some (q, if q == 0 then g else overwrite q (room q g) g)
            ])
            (some (p, g'))
        → o ≡ some (p, g')
    go none f = cc
    go (some (q, g)) f =
        let t : q ≡ p = cc in
        let u : (if q == 0 then g else overwrite q (room q g) g) ≡ g' = cc in
        rw (t, clean q g u t) refl
