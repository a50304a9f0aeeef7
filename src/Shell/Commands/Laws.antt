-- ===== src/Shell/Commands/Laws.antt =====
-- What `peek` and `poke` read and write.
use solace_os.Base.{
  fun_ext, none, Option, ℕ, zero, suc, ◌+◌, ◌*◌, ◌/◌, ◌%◌, ◌^◌, ◌≤◌, ◌≡◌, refl, sym, ap, ◌∙◌, ◌⊎◌,
  inl, inr, true, false, some, List, [], ◌∷◌, update, arith, Bool-cases, ==_self,
}
use solace_os.Memory.{in_range}
use solace_os.Frames.{memory_of-with_memory, pmm_ram_base, pmm_max_address}
use solace_os.Heap.{Kheap}
use solace_os.Shell.Address.{is_address_valid, is_address_valid_iff, is_address_valid-below}
use solace_os.Shell.Commands.{
  bad_address, cmd_pmm_info, cmd_peek, number, Reply, out_of_ram, peeked, poked, load, store,
  memory_of, highest_of, with_memory, size_bytes, size_of_args, peek_at, poke_at,
}

-- A store changes its own bytes only.
pub store-outside : (n a v : ℕ) (m : ℕ → ℕ) (x : ℕ) → in_range a n x ≡ false → store n a v m x ≡ m x
unfolding store
store-outside zero a v m x o = refl
store-outside (suc n) a v m x o =
    store-outside n (a + 1) (v / 256) (update a (v % 256) m) x (ground (arith, o))
    ∙ ground (arith, o)

-- The `n` low bytes of a value.
pub low_bytes : ℕ → ℕ → ℕ
low_bytes zero v = 0
low_bytes (suc n) v = v % 256 + 256 * low_bytes n (v / 256)

-- What was stored is loaded, cut to its bytes.
load-store : (n a v : ℕ) (m : ℕ → ℕ) → load n a (store n a v m) ≡ low_bytes n v
unfolding load store low_bytes
load-store zero a v m = refl
load-store (suc n) a v m =
    let first : store n (a + 1) (v / 256) (update a (v % 256) m) a ≡ update a (v % 256) m a =
      store-outside n (a + 1) (v / 256) (update a (v % 256) m) a (ground arith) in
    let put : update a (v % 256) m a ≡ v % 256 = rw (==_self a) in
    omega (arith, load-store n (a + 1) (v / 256) (update a (v % 256) m), first, put)

-- The sizes of `peek` and `poke` are 1, 2, 4 and 8 bytes.
abbrev pub IsSize : ℕ → Type 0
IsSize n = (n ≡ 1) ⊎ ((n ≡ 2) ⊎ ((n ≡ 4) ⊎ (n ≡ 8)))

size_bytes-IsSize : (arg : List ℕ) (n : ℕ) → size_bytes arg ≡ some n → IsSize n
unfolding size_bytes
size_bytes-IsSize arg n e = ground arith

size_of_args-IsSize : (args : List (List ℕ)) (n : ℕ) → size_of_args args ≡ some n → IsSize n
unfolding size_of_args
size_of_args-IsSize [] n e = ground arith
size_of_args-IsSize (arg ∷ args) n e = size_bytes-IsSize arg n e

low_bytes-mod : (n v : ℕ) → IsSize n → low_bytes n v ≡ v % 2 ^ (8 * n)
unfolding low_bytes
low_bytes-mod n v (inl e) = rw e (omega arith)
low_bytes-mod n v (inr (inl e)) = rw e (omega arith)
low_bytes-mod n v (inr (inr (inl e))) = rw e (omega arith)
low_bytes-mod n v (inr (inr (inr e))) = rw e (omega arith)

module _ (addr value : ℕ) (args : List (List ℕ)) (h g : Kheap)
    (top : highest_of h ≤ pmm_max_address) (done : poke_at addr value args h ≡ (poked, g)) (n : ℕ)
    (size : size_of_args args ≡ some n) where
  -- What `poke` has done when it reports success.
  poke_facts :
      (is_address_valid (highest_of h) addr n ≡ true)
      × (g ≡ with_memory (store n addr value (memory_of h)) h)
  unfolding poke_at
  poke_facts = elim (Bool-cases (is_address_valid (highest_of h) addr n)) [
    | inl v ↦ (v, wrote (rw (size, poke_at, v) at done))
    | inr v ↦
        let bad : ◌≡◌ {A = Reply × Kheap} (out_of_ram, h) (poked, g) =
          rw (size, poke_at, v) at done in
        cc
  ]
    where
      wrote :
          ◌≡◌ {A = Reply × Kheap}
            (poked, with_memory (store n addr value (memory_of h)) h)
            (poked, g)
          → g ≡ with_memory (store n addr value (memory_of h)) h
      wrote q = sym (ap {B = Kheap} (λ r. r.1) q)

  -- When `poke`, with a size argument of `n` bytes, reports success, in a heap whose top of RAM is at
  -- most the end of the managed memory: the bytes it was given lie in RAM, and no byte outside of them
  -- is changed.
  pub poke_at-writes :
      (x : ℕ)
      → in_range addr n x ≡ false
      → (pmm_ram_base ≤ addr) × (addr + n ≤ highest_of h) × (memory_of g x ≡ memory_of h x)
  poke_at-writes x o =
      let (v, s) = poke_facts in
      let bytes = size_of_args-IsSize args n size in
      let below = is_address_valid-below (highest_of h) addr n v in
      let range =
        (is_address_valid_iff (highest_of h) addr n (omega (arith, below, top, bytes))).0 v in
      (
        range.0,
        omega (arith, range, bytes),
        rw s (
            memory_of-with_memory (store n addr value (memory_of h)) h.pmm x
            ∙ store-outside n addr value (memory_of h) x o),
      )

  -- When `poke`, with a size argument of `n` bytes, reports success, in a heap whose top of RAM is at
  -- most the end of the managed memory, `peek` with the same arguments then shows the value, cut to
  -- `n` bytes.
  pub peek_at-poke_at : peek_at addr args g ≡ peeked (value % 2 ^ (8 * n))
  unfolding peek_at
  peek_at-poke_at =
      let (v, s) = poke_facts in
      let loaded =
        ap (load n addr) (fun_ext (memory_of-with_memory (store n addr value (memory_of h)) h.pmm))
        ∙ load-store n addr value (memory_of h)
        ∙ low_bytes-mod n value (size_of_args-IsSize args n size) in
      rw (peek_at, size, s, v) (ap peeked loaded)

-- Commands that only read leave the heap as it is.
pub cmd_peek-heap : (argv : List (List ℕ)) (h : Kheap) → (cmd_peek argv h).1 ≡ h
unfolding cmd_peek
cmd_peek-heap [] h = refl
cmd_peek-heap (name ∷ []) h = refl
cmd_peek-heap (name ∷ arg ∷ args) h = go (number arg)
  where
    go :
        (o : Option ℕ)
        → ◌≡◌ {A = Kheap}
            (elim o as (λ o. Reply × Kheap) [
              | none ↦ (bad_address, h)
              | some addr ↦ (peek_at addr args h, h)
            ]).1
            h
    go none = refl
    go (some addr) = refl

pub cmd_pmm_info-heap : (h : Kheap) → (cmd_pmm_info h).1 ≡ h
unfolding cmd_pmm_info
cmd_pmm_info-heap h = refl
