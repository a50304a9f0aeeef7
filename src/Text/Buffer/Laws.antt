-- ===== src/Text/Buffer/Laws.antt =====
-- `strtok` on memory does what `strtok` on strings does.
use solace_os.Base.{
  ℕ, zero, suc, ◌+◌, ◌-◌, ◌≤◌, ◌<◌, ◌≡◌, ◌≢◌, refl, sym, ap, subst, ◌∙◌, inl, inr, false, Option,
  none, some, List, [], ◌∷◌, ◌++◌, ◌==◌, update, arith, Bool-cases, Option-cases, ==_of_ne,
}
use solace_os.Text.{
  strlen, strspn, strpbrk, advance, prefix_of, contains, strtok_token, strtok_skip,
}
use solace_os.Text.Laws.{strlen-append}
use solace_os.Text.Tokens.{parts, prefix_of-append}
use solace_os.Text.Buffer.{c_string, strtok_end, strtok_from}

-- A string stands at `p`, with its NUL.
abbrev pub Holds : (ℕ → ℕ) → ℕ → List ℕ → Type 0
Holds mem p [] = mem p ≡ 0
Holds mem p (c ∷ s) = (mem p ≡ c) × (c ≢ 0) × Holds mem (p + 1) s

pub c_string-Holds :
    (n p : ℕ) (s : List ℕ) (mem : ℕ → ℕ) → strlen s < n → Holds mem p s → c_string n p mem ≡ some s
unfolding c_string strlen
c_string-Holds zero p s mem l h = absurd (omega (arith, l))
c_string-Holds (suc n) p [] mem l h = rw h
c_string-Holds (suc n) p (c ∷ s) mem l h =
    let o : (mem p == 0) ≡ false = ==_of_ne (mem p) 0 (λ e. h.1 (sym (h.0) ∙ e)) in
    rw (o, c_string-Holds n (p + 1) s mem (omega (arith, l)) (h.2), h.0)

pub Holds-agree :
    (p : ℕ) (s : List ℕ) (mem mem' : ℕ → ℕ)
    → ((a : ℕ) → p ≤ a → a ≤ p + strlen s → mem' a ≡ mem a)
    → Holds mem p s
    → Holds mem' p s
unfolding strlen
Holds-agree p [] mem mem' e h = e p (omega arith) (omega arith) ∙ h
Holds-agree p (c ∷ s) mem mem' e h = (
  e p (omega arith) (omega arith) ∙ h.0,
  h.1,
  Holds-agree (p + 1) s mem mem' (λ a l m. e a (omega (arith, l)) (omega (arith, m))) (h.2),
)

Holds-at : (mem : ℕ → ℕ) (p q : ℕ) (s : List ℕ) → p ≡ q → Holds mem p s → Holds mem q s
Holds-at mem p q s e h = rw e at h

Holds-advance :
    (mem : ℕ → ℕ) (p : ℕ) (s delim : List ℕ)
    → Holds mem p s
    → Holds mem (p + strspn s delim) (advance (strspn s delim) s)
unfolding advance strspn
Holds-advance mem p [] delim h = Holds-at mem p (p + 0) [] (omega arith) h
Holds-advance mem p (c ∷ s) delim h = elim (Bool-cases (contains c delim)) [
  | inl e ↦ rw e (
      Holds-at mem (p + 1 + strspn s delim) (p + suc (strspn s delim)) _ (omega arith)
        (Holds-advance mem (p + 1) s delim (h.2)))
  | inr e ↦ rw e (Holds-at mem p (p + 0) (c ∷ s) (omega arith) h)
]

-- A NUL over the byte `m` leaves the string before it, and the one behind it.
Holds-cut :
    (mem : ℕ → ℕ) (p stop : ℕ) (before after : List ℕ) (m : ℕ)
    → p + strlen before ≡ stop
    → Holds mem p (before ++ m ∷ after)
    → Holds (update stop 0 mem) p before × Holds (update stop 0 mem) (stop + 1) after
unfolding strlen
Holds-cut mem p stop [] after m e h = (
  ground (arith, e),
  Holds-agree (stop + 1) after mem (update stop 0 mem) (λ a l k. ground (arith, l))
      (Holds-at mem (p + 1) (stop + 1) after (omega (arith, e)) (h.2)),
)
Holds-cut mem p stop (c ∷ before) after m e h =
    let r = Holds-cut mem (p + 1) stop before after m (omega (arith, e)) (h.2) in
    ((ground (arith, e, h.0), h.1, r.0), r.1)

-- The value of `strtok_last` in the two views: behind `stop`, where the same string stands.
abbrev pub Left : ℕ → ℕ → Option (List ℕ) → Option ℕ → (ℕ → ℕ) → Type 0
Left n stop none none mem = Unit {0}
Left n stop (some s) (some q) mem = (stop < q) × (strlen s < n) × Holds mem q s
Left n stop none (some q) mem = ⊥
Left n stop (some s) none mem = ⊥

-- What a call comes to in the two views: the token stands at the pointer, which is `k` or higher.
abbrev pub Matches :
    ℕ → ℕ → Option (List ℕ) × Option (List ℕ) → Option ℕ × Option ℕ × (ℕ → ℕ) → Type 0
Matches n k (none, last) (none, q, mem) = Unit {0}
Matches n k (some w, last) (some p, q, mem) =
    (k ≤ p) × Holds mem p w × Left n (p + strlen w) last q mem
Matches n k (none, last) (some p, q, mem) = ⊥
Matches n k (some w, last) (none, q, mem) = ⊥

strlen-skip : (s delim : List ℕ) → strlen (advance (strspn s delim) s) ≤ strlen s
unfolding strlen strspn advance
strlen-skip [] delim = omega arith
strlen-skip (c ∷ s) delim = elim (Bool-cases (contains c delim)) [
  | inl e ↦ rw e (omega (arith, strlen-skip s delim))
  | inr e ↦ rw e (omega arith)
]

-- The end of a call agrees with `strtok_token`, and writes nothing below the string.
module _ (n k str : ℕ) (delim : List ℕ) (mem : ℕ → ℕ) (low : k ≤ str) where
  strtok_end-cut :
      (c m : ℕ) (s t before after : List ℕ)
      → strlen (c ∷ s) < n
      → t ≡ m ∷ after
      → c ∷ s ≡ before ++ t
      → Holds mem str (c ∷ s)
      → Matches n k
          (some (prefix_of (strlen (c ∷ s) - strlen t) (c ∷ s)), some (advance 1 t))
          (
            some str,
            some (str + (strlen (c ∷ s) - strlen t) + 1),
            update (str + (strlen (c ∷ s) - strlen t)) 0 mem,
          )
  unfolding strlen advance
  strtok_end-cut c m s t before after l e w h =
      let sum : strlen (c ∷ s) ≡ strlen before + strlen t = ap strlen w ∙ strlen-append before t in
      let rest : strlen t ≡ strlen after + 1 = ap strlen e in
      let d : strlen (c ∷ s) - strlen t ≡ strlen before = omega (arith, sum) in
      let pre : prefix_of (strlen before) (c ∷ s) ≡ before = rw w (prefix_of-append before t) in
      let cut =
        Holds-cut mem str (str + strlen before) before after m refl
          (subst (Holds mem str) (w ∙ ap (λ u. before ++ u) e) h) in
      rw (d, pre, e) (low, cut.0, (omega arith, omega (arith, sum, rest, l), cut.1))

  strtok_end-Matches :
      (s : List ℕ)
      → strlen s < n
      → Holds mem str s
      → Matches n k (strtok_token s delim) (strtok_end str s delim mem)
        × ((a : ℕ) → a < k → (strtok_end str s delim mem).2 a ≡ mem a)
  unfolding strtok_end strtok_token
  strtok_end-Matches [] l h = (tt, λ a b. refl)
  strtok_end-Matches (c ∷ s) l h = elim (Option-cases (strpbrk (c ∷ s) delim)) [
    | inl e ↦ rw (strtok_end, strtok_token, e) ((low, h, tt), λ a b. refl)
    | inr (t, e) ↦
        let p = parts delim (c ∷ s) t e in
        rw (strtok_end, strtok_token, e)
          (
            strtok_end-cut c p.mark s t p.before p.after l p.stop p.whole h,
            λ a b. ground (arith, b, low),
          )
  ]

-- A call from a string of less than `n` bytes comes to an end, and agrees with `strtok_skip`.
module _ (n k str : ℕ) (delim s : List ℕ) (mem : ℕ → ℕ) (low : k ≤ str) (l : strlen s < n)
    (h : Holds mem str s) where
  pub strtok_from-Matches :
      (r : Option ℕ × Option ℕ × (ℕ → ℕ)) × (strtok_from n str delim mem ≡ some r)
      × Matches n k (strtok_skip s delim) r
      × ((a : ℕ) → a < k → r.2 a ≡ mem a)
  unfolding strtok_from strtok_skip
  strtok_from-Matches =
      let m =
        strtok_end-Matches n k (str + strspn s delim) delim mem (omega (arith, low))
          (advance (strspn s delim) s) (omega (arith, strlen-skip s delim, l))
          (Holds-advance mem str s delim h) in
      (
        strtok_end (str + strspn s delim) (advance (strspn s delim) s) delim mem,
        rw (strtok_from, c_string-Holds n str s mem l h) refl,
        m.0,
        m.1,
      )
