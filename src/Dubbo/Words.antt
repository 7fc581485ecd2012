-- ===== src/Dubbo/Words.antt =====
-- What the scans of dubboport/dubbo_protocol.go find in the body of a message.
use tcp_port.Base.{
  All, List, [], ap, arith, drop, false, if◌then◌else◌, leb, length, none, refl, some, suc,
  take-append, true, ℕ, ◌++◌, ◌+◌, ◌-◌, ◌∙◌, ◌∷◌, ◌≡◌,
}
use tcp_port.Base.Slice.{Bytes}
use tcp_port.Dubbo.Strings.{emit, extract_loop, is_readable}
use tcp_port.Base.{append-nil, ap₂, drop-append, sym}
use tcp_port.Base.Cuts.{drop-drop}
use tcp_port.Dubbo.Strings.{extract_readable_strings}
use tcp_port.Base.{Option}

-- A text of words: runs of readable bytes, each with the byte behind it.
unfoldable pub text_of_words : List (Bytes × ℕ) → Bytes → Bytes
text_of_words [] last = last
text_of_words ((w, x) ∷ ws) last = w ++ (x ∷ text_of_words ws last)

-- A word that is not empty and has the least length.
abbrev pub keep_word : ℕ → Bytes → List Bytes
keep_word min_len [] = []
keep_word min_len (b ∷ w) = if leb min_len (length (b ∷ w)) then (b ∷ w) ∷ [] else []

unfoldable pub words_of : ℕ → List (Bytes × ℕ) → Bytes → List Bytes
words_of min_len [] last = keep_word min_len last
words_of min_len ((w, x) ∷ ws) last = keep_word min_len w ++ words_of min_len ws last

-- Where the run of a word starts that begins at `i`.
abbrev word_start : ℕ → Bytes → Option ℕ
word_start i [] = none
word_start i (b ∷ w) = some i

unfoldable pub IsWord : Bytes × ℕ → Type 0
IsWord (w, x) = All (λ b. is_readable b ≡ true) w × (is_readable x ≡ false)

module _ (whole : Bytes) (min_len : ℕ) where
  extract_loop-run :
      (i start : ℕ) (w tail : Bytes)
      → All (λ b. is_readable b ≡ true) w
      → extract_loop whole min_len i (some start) (w ++ tail)
        ≡ extract_loop whole min_len (i + length w) (some start) tail
  unfolding extract_loop
  extract_loop-run i start [] tail h =
      let e : i ≡ i + 0 = omega arith in ap (λ k. extract_loop whole min_len k (some start) tail) e
  extract_loop-run i start (b ∷ w) tail h =
      let e : i + 1 + length w ≡ i + suc (length w) = omega arith in
      rw h.0 (
        extract_loop-run (i + 1) start w tail h.1
        ∙ ap (λ k. extract_loop whole min_len k (some start) tail) e)

  -- A whole run, from outside of a run.
  extract_loop-word :
      (i : ℕ) (w tail : Bytes)
      → All (λ b. is_readable b ≡ true) w
      → extract_loop whole min_len i none (w ++ tail)
        ≡ extract_loop whole min_len (i + length w) (word_start i w) tail
  unfolding extract_loop
  extract_loop-word i [] tail h =
      let e : i ≡ i + 0 = omega arith in ap (λ k. extract_loop whole min_len k none tail) e
  extract_loop-word i (b ∷ w) tail h =
      let e : i + 1 + length w ≡ i + suc (length w) = omega arith in
      rw h.0 (
        extract_loop-run (i + 1) i w tail h.1
        ∙ ap (λ k. extract_loop whole min_len k (some i) tail) e)

  -- What is kept of a run.
  emit-word :
      (i : ℕ) (w tail : Bytes)
      → drop i whole ≡ w ++ tail
      → emit whole min_len (word_start i w) (i + length w) ≡ keep_word min_len w
  unfolding emit
  emit-word i [] tail h = refl
  emit-word i (b ∷ w) tail h =
      let e : i + length (b ∷ w) - i ≡ length (b ∷ w) = omega arith in
      rw (e, h, take-append (b ∷ w) tail) refl

  extract_loop-words :
      (i : ℕ) (ws : List (Bytes × ℕ)) (last : Bytes)
      → drop i whole ≡ text_of_words ws last
      → All IsWord ws
      → All (λ b. is_readable b ≡ true) last
      → extract_loop whole min_len i none (text_of_words ws last) ≡ words_of min_len ws last
  unfolding text_of_words words_of IsWord extract_loop
  extract_loop-words i [] last e h k =
      ap (extract_loop whole min_len i none) (sym (append-nil last))
      ∙ (extract_loop-word i last [] k ∙ emit-word i last [] (e ∙ sym (append-nil last)))
  extract_loop-words i ((w, x) ∷ ws) last e h k =
      let rest = text_of_words ws last in
      let behind : drop (i + length w + 1) whole ≡ rest =
        sym (drop-drop (i + length w) 1 whole)
        ∙ ap (drop 1) (
            sym (drop-drop i (length w) whole)
            ∙ (ap (drop (length w)) e ∙ drop-append w (x ∷ rest))) in
      extract_loop-word i w (x ∷ rest) h.0.0
      ∙ rw h.0.1 (
          ap₂ (◌++◌) (emit-word i w (x ∷ rest) e)
            (extract_loop-words (i + length w + 1) ws last behind h.1 k))

-- A text of words of readable bytes, each with a byte behind it that is not readable: the strings
-- extracted from it are the words that are not empty and have the least length, in their order.
pub extract_readable_strings-words :
    (min_len : ℕ) (ws : List (Bytes × ℕ)) (last : Bytes)
    → All IsWord ws
    → All (λ b. is_readable b ≡ true) last
    → extract_readable_strings (text_of_words ws last) min_len ≡ words_of min_len ws last
unfolding extract_readable_strings
extract_readable_strings-words min_len ws last h k =
    extract_loop-words (text_of_words ws last) min_len 0 ws last refl h k
