-- ===== src/Frames/Kept.antt =====
-- What every client of the frame allocator leaves as it was.
use solace_os.Base.{ℕ, ◌≡◌, refl, ◌∙◌, inl, inr, true, arith}
use solace_os.Frames.{Pmm, test_bit, alloc_frame}
use solace_os.Frames.Valid.{IsValid}
use solace_os.Frames.Alloc.{alloc_frame_lem}

-- From `s` to `t` no frame has become free, and the counters are right and where they should be.
pub record Kept (s t : Pmm) : Type 0 where
  pub valid : IsValid t
  pub used : (j : ℕ) → test_bit j s.frame_bitmap ≡ true → test_bit j t.frame_bitmap ≡ true
  pub total : t.total_memory ≡ s.total_memory
  pub highest : t.highest_usable_address ≡ s.highest_usable_address

pub Kept-refl : (s : Pmm) → IsValid s → Kept s s
Kept-refl s v = record { valid = v; used = λ j e. e; total = refl; highest = refl }

pub Kept-trans : (s t u : Pmm) → Kept s t → Kept t u → Kept s u
Kept-trans s t u k l = record {
  valid = l.valid;
  used = λ j e. l.used j (k.used j e);
  total = l.total ∙ k.total;
  highest = l.highest ∙ k.highest;
}

-- A write to memory.
pub Kept-write : (s : Pmm) (m : ℕ → ℕ) → IsValid s → Kept s (record s { mem = m })
Kept-write s m v = record {
  valid = record { bytes = v.bytes; counted = v.counted };
  used = λ j e. e;
  total = refl;
  highest = refl;
}

pub alloc_frame-Kept : (s : Pmm) → IsValid s → Kept s (alloc_frame s).1
alloc_frame-Kept s v = elim (alloc_frame_lem s v) [
  | inl x ↦ rw x.kept (Kept-refl s v)
  | inr (i, a) ↦ record {
    valid = a.valid;
    used = λ j e. a.bits j ∙ ground (arith, e);
    total = a.total_kept;
    highest = a.highest_kept;
  }
]
