-- ===== src/Text/Tokens.antt =====
-- `strtok` against a definition of the words of a line.
use solace_os.Base.{
  ℕ, ◌-◌, ◌≡◌, refl, sym, ap, ◌∙◌, inl, inr, true, false, Option, none, some, List, [], ◌∷◌, ◌++◌,
  arith, Bool-cases, Option-cases, if◌then◌else◌,
}
use mathlib.Core.List.{append-nil, append_assoc}
use native.Mathlib.Numerals.{add-one}
use solace_os.Text.Laws.{strlen-append}
use solace_os.Text.{
  contains, strlen, strspn, strpbrk, advance, prefix_of, strtok_token, strtok_skip, strtok,
}

-- A word that has been read, if it has a byte, and the words behind it.
pub flush : List ℕ → List (List ℕ) → List (List ℕ)
flush [] ws = ws
flush (c ∷ word) ws = (c ∷ word) ∷ ws

-- The words of a line, read byte by byte: `word` is what has been read of the current one.
pub words : List ℕ → List ℕ → List ℕ → List (List ℕ)
words delim word [] = flush word []
words delim word (c ∷ s) =
    if contains c delim then flush word (words delim [] s) else words delim (word ++ (c ∷ [])) s

-- The words of what `strtok_last` points to.
unfoldable pub rest_words : List ℕ → Option (List ℕ) → List (List ℕ)
rest_words delim none = []
rest_words delim (some s) = words delim [] s

-- The words that a result of `strtok` stands for.
unfoldable pub result_words : List ℕ → Option (List ℕ) × Option (List ℕ) → List (List ℕ)
result_words delim (none, last) = []
result_words delim (some w, last) = w ∷ rest_words delim last

pub prefix_of-append : (s t : List ℕ) → prefix_of (strlen s) (s ++ t) ≡ s
unfolding prefix_of strlen
prefix_of-append [] t = refl
prefix_of-append (c ∷ s) t = rw add-one (ap (λ l. c ∷ l) (prefix_of-append s t))

-- What stands before the suffix at which `strpbrk` stops.
cut-append : (s t : List ℕ) → prefix_of (strlen (s ++ t) - strlen t) (s ++ t) ≡ s
cut-append s t =
    let e : strlen (s ++ t) - strlen t ≡ strlen s = omega (arith, strlen-append s t) in
    rw e (prefix_of-append s t)

module _ (delim : List ℕ) where
  -- Leading delimiters are no part of a word.
  skip-words : (s : List ℕ) → words delim [] (advance (strspn s delim) s) ≡ words delim [] s
  unfolding words strspn advance flush
  skip-words [] = refl
  skip-words (c ∷ s) = elim (Bool-cases (contains c delim)) [
    | inl e ↦ rw (e, skip-words s)
    | inr e ↦ rw e (rw e)
  ]

  -- Behind them the line ends, or a byte that is no delimiter stands there.
  skip-head :
      (s : List ℕ) (c : ℕ) (t : List ℕ)
      → advance (strspn s delim) s ≡ c ∷ t
      → contains c delim ≡ false
  unfolding strspn advance
  skip-head [] c t e = cc
  skip-head (b ∷ s) c t e = elim (Bool-cases (contains b delim)) [
    | inl h ↦ skip-head s c t (rw h at e)
    | inr h ↦ ground (arith, h, e)
  ]

  -- No delimiter: the rest of the line is the word.
  words_no_delimiter :
      (s word : List ℕ) → strpbrk s delim ≡ none → words delim word s ≡ flush (word ++ s) []
  unfolding words strpbrk
  words_no_delimiter [] word e = rw append-nil
  words_no_delimiter (c ∷ s) word e = elim (Bool-cases (contains c delim)) [
    | inl h ↦ let bad : Option.some (c ∷ s) ≡ none = rw h at e in cc
    | inr h ↦ rw h (words_no_delimiter s (word ++ c ∷ []) (rw h at e) ∙ rw append_assoc)
  ]

  -- The parts of a line at its first delimiter.
  pub record Parts (s t : List ℕ) : Type 0 where
    pub before : List ℕ
    pub mark : ℕ
    pub after : List ℕ
    pub stop : t ≡ mark ∷ after
    pub found : contains mark delim ≡ true
    pub whole : s ≡ before ++ t
    pub read : (word : List ℕ) → words delim word s ≡ flush (word ++ before) (words delim [] after)

  pub parts : (s t : List ℕ) → strpbrk s delim ≡ some t → Parts s t
  unfolding words strpbrk
  parts [] t e = cc
  parts (c ∷ s) t e = elim (Bool-cases (contains c delim)) [
    | inl h ↦
        let here : Option.some (c ∷ s) ≡ some t = rw h at e in
        record {
          before = [];
          mark = c;
          after = s;
          found = h;
          stop = cc;
          whole = cc;
          read = λ word. rw (h, append-nil);
        }
    | inr h ↦
        let p = parts s t (rw h at e) in
        record {
          before = c ∷ p.before;
          mark = p.mark;
          after = p.after;
          stop = p.stop;
          found = p.found;
          whole = ap (λ l. c ∷ l) p.whole;
          read = λ word. rw h (p.read (word ++ c ∷ []) ∙ rw append_assoc);
        }
  ]

  -- The token is the part before the delimiter.
  token_part :
      (c : ℕ) (s t before after : List ℕ) (mark : ℕ)
      → contains c delim ≡ false
      → contains mark delim ≡ true
      → t ≡ mark ∷ after
      → c ∷ s ≡ before ++ t
      → flush before (words delim [] after)
        ≡ prefix_of (strlen (c ∷ s) - strlen t) (c ∷ s) ∷ words delim [] (advance 1 t)
  unfolding flush
  token_part c s t [] after mark h f e w =
      let same : c ≡ mark = cc in
      let bad : false ≡ true = sym h ∙ ap (λ k. contains k delim) same ∙ f in cc
  token_part c s t (b ∷ before) after mark h f e w =
      rw (w, cut-append (b ∷ before) t, e) (unfold advance in refl)

  module _ (c : ℕ) (s : List ℕ) where
    token_last : strpbrk (c ∷ s) delim ≡ none → strtok_token (c ∷ s) delim ≡ (some (c ∷ s), none)
    unfolding strtok_token
    token_last e = rw (e, strtok_token)

    token_more :
        (t : List ℕ)
        → strpbrk (c ∷ s) delim ≡ some t
        → strtok_token (c ∷ s) delim
          ≡ (some (prefix_of (strlen (c ∷ s) - strlen t) (c ∷ s)), some (advance 1 t))
    unfolding strtok_token
    token_more t e = rw (e, strtok_token)

    strtok_token-words :
        contains c delim ≡ false
        → words delim [] (c ∷ s) ≡ result_words delim (strtok_token (c ∷ s) delim)
    strtok_token-words h = elim (Option-cases (strpbrk (c ∷ s) delim)) [
      | inl e ↦
          rw (token_last e)
            (words_no_delimiter (c ∷ s) [] e ∙ unfold flush result_words rest_words in refl)
      | inr (t, e) ↦
          let p = parts (c ∷ s) t e in
          rw (token_more t e) (
            p.read []
            ∙ token_part c s t p.before p.after p.mark h p.found p.stop p.whole
            ∙ unfold result_words rest_words in refl)
    ]

  strtok_skip-words : (s : List ℕ) → words delim [] s ≡ result_words delim (strtok_skip s delim)
  unfolding strtok_skip
  strtok_skip-words s = sym (skip-words s) ∙ go (advance (strspn s delim) s) refl
    where
      go :
          (t : List ℕ)
          → advance (strspn s delim) s ≡ t
          → words delim [] (advance (strspn s delim) s)
            ≡ result_words delim (strtok_token (advance (strspn s delim) s) delim)
      go [] e = rw e (unfold words flush strtok_token result_words in refl)
      go (c ∷ t) e = rw e (strtok_token-words c t (skip-head s c t e))

  -- Where a call of `strtok` starts to read.
  abbrev pub source : Option (List ℕ) → Option (List ℕ) → Option (List ℕ)
  source none last = last
  source (some s) last = some s

  -- Whatever the delimiters, the argument and the value of `strtok_last`: the words of what a call of
  -- `strtok` starts to read are the token that it returns and the words that it leaves for the next
  -- call; there are none if it returns NULL.
  pub strtok-words :
      (str last : Option (List ℕ))
      → rest_words delim (source str last) ≡ result_words delim (strtok str delim last)
  unfolding strtok rest_words
  strtok-words none none = unfold result_words in refl
  strtok-words none (some s) = strtok_skip-words s
  strtok-words (some s) last = strtok_skip-words s
