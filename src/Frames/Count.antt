-- ===== src/Frames/Count.antt =====
-- The number of free frames of a bitmap, and what one change does to it.
use solace_os.Base.{
  ℕ, zero, suc, ◌+◌, ◌≤◌, ◌<◌, ◌≡◌, ◌≢◌, refl, ap, ◌∙◌, fun_ext, inl, inr, Bool, true, false, ◌||◌,
  arith, ◌==◌, if◌then◌else◌, Bool-cases, ==-eq, ==-ne, ==_self, ==_of_ne, and_absorb,
}
use solace_os.Frames.{test_bit, set_bit, clear_bit, pmm_total_frames}
use solace_os.Frames.Bitmap.{IsBytes, set_bit-IsBytes, test_bit-set_bit, test_bit-clear_bit}

-- How many of the first `n` tests fail.
pub count_false : ℕ → (ℕ → Bool) → ℕ
count_false zero t = 0
count_false (suc n) t = (if t n then 0 else 1) + count_false n t

-- The frames, of all that are managed, whose bit is clear.
pub free_frames : (ℕ → ℕ) → ℕ
free_frames b = count_false pmm_total_frames (λ i. test_bit i b)

pub count_false-le : (n : ℕ) (t : ℕ → Bool) → count_false n t ≤ n
unfolding count_false
count_false-le zero t = omega arith
count_false-le (suc n) t = ground (arith, count_false-le n t)

pub count_false-all : (n : ℕ) (t : ℕ → Bool) → ((i : ℕ) → i < n → t i ≡ true) → count_false n t ≡ 0
unfolding count_false
count_false-all zero t h = refl
count_false-all (suc n) t h =
    rw (h n (omega arith)) (omega (arith, count_false-all n t (λ i l. h i (omega arith))))

module _ (t u : ℕ → Bool) (i : ℕ) (same : (j : ℕ) → i ≢ j → u j ≡ t j) where
  -- Tests that differ at no number below `n` count alike.
  pub count_false_below : (n : ℕ) → n ≤ i → count_false n u ≡ count_false n t
  unfolding count_false
  count_false_below zero h = refl
  count_false_below (suc n) h = rw (same n (omega arith), count_false_below n (omega arith))

  -- A test that fails at `i` in `t` and holds in `u` is one failure less.
  pub count_false_flip :
      (n : ℕ) → i < n → t i ≡ false → u i ≡ true → count_false n t ≡ count_false n u + 1
  unfolding count_false
  count_false_flip zero h p q = absurd (omega arith)
  count_false_flip (suc n) h p q = elim (Bool-cases (i == n)) [
    | inl e ↦ rw (← ==-eq i n e, p, q) (omega (arith, count_false_below i (omega arith)))
    | inr d ↦ rw (same n (==-ne i n d)) (omega (arith, count_false_flip n (ground arith) p q))
  ]

pub free_frames-le : (b : ℕ → ℕ) → free_frames b ≤ pmm_total_frames
unfolding free_frames
free_frames-le b = count_false-le pmm_total_frames (λ i. test_bit i b)

module _ (i : ℕ) (b : ℕ → ℕ) (bytes : IsBytes b) where
  pub free_frames-set_bit :
      i < pmm_total_frames → test_bit i b ≡ false → free_frames b ≡ free_frames (set_bit i b) + 1
  unfolding free_frames
  free_frames-set_bit h e =
      count_false_flip (λ j. test_bit j b) (λ j. test_bit j (set_bit i b)) i
        (λ j d. rw (test_bit-set_bit i j b bytes, ==_of_ne i j d)) pmm_total_frames h e
        (rw (test_bit-set_bit i i b bytes, ==_self i))

  pub free_frames-clear_bit :
      i < pmm_total_frames → test_bit i b ≡ true → free_frames (clear_bit i b) ≡ free_frames b + 1
  unfolding free_frames
  free_frames-clear_bit h e =
      count_false_flip (λ j. test_bit j (clear_bit i b)) (λ j. test_bit j b) i
        (λ j d. rw (test_bit-clear_bit i j b bytes, ==_of_ne i j d)) pmm_total_frames h
        (rw (test_bit-clear_bit i i b bytes, ==_self i)) e

  -- Clearing a bit that is clear changes no test.
  pub free_frames-clear_bit_clear :
      test_bit i b ≡ false → free_frames (clear_bit i b) ≡ free_frames b
  unfolding free_frames
  free_frames-clear_bit_clear e =
      ap (count_false pmm_total_frames)
        (fun_ext λ j. test_bit-clear_bit i j b bytes ∙ and_absorb (λ k. test_bit k b) i j e)

pub free_frames_all_used :
    (b : ℕ → ℕ) → ((i : ℕ) → i < pmm_total_frames → test_bit i b ≡ true) → free_frames b ≡ 0
unfolding free_frames
free_frames_all_used b h = count_false-all pmm_total_frames (λ i. test_bit i b) h

-- Some frames in a row that are free are counted.
pub free_frames-row :
    (n k : ℕ) (b : ℕ → ℕ)
    → IsBytes b
    → k + n ≤ pmm_total_frames
    → ((j : ℕ) → k ≤ j → j < k + n → test_bit j b ≡ false)
    → n ≤ free_frames b
free_frames-row zero k b v l f = omega arith
free_frames-row (suc n) k b v l f =
    let bits : (j : ℕ) → test_bit j (set_bit k b) ≡ ((k == j) || test_bit j b) =
      λ j. test_bit-set_bit k j b v in
    let rest =
      free_frames-row n (k + 1) (set_bit k b) (set_bit-IsBytes k b v) (omega (arith, l)) (λ j p q.
        bits j
        ∙ rw
            (==_of_ne k j (λ e. omega (arith, e, p)), f j (omega (arith, p)) (omega (arith, q)))) in
    omega
      (arith, rest, free_frames-set_bit k b v (omega (arith, l)) (f k (omega arith) (omega arith)))
