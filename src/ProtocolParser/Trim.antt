-- ===== src/ProtocolParser/Trim.antt =====
-- Where the blanks at both ends of the input are cut off.
use linux_iot_gateway.Common.{
  ℕ, suc, ◌+◌, ◌-◌, ◌≤◌, true, false, [], ◌∷◌, ◌++◌, none, some, ◌≡◌, refl, ap, ap₂, subst, sym,
  ◌∙◌, arith, Bytes, take, drop, length, All, inl, inr, Bool-cases, Option-cases, append-nil,
  take-append-drop, drop-drop, take-length-append, drop-length-append,
}
use linux_iot_gateway.ProtocolParser.{is_blank, find_first_not_of, find_last_not_of, trimmed}

abbrev pub IsBlank : ℕ → Type 0
IsBlank c = is_blank c ≡ true

abbrev pub IsSolid : ℕ → Type 0
IsSolid c = is_blank c ≡ false

find_first_not_of-blanks :
    (pre : Bytes) (c : ℕ) (s : Bytes)
    → All IsBlank pre
    → IsSolid c
    → find_first_not_of (pre ++ c ∷ s) ≡ some (length pre)
find_first_not_of-blanks [] c s h solid = rw solid refl
find_first_not_of-blanks (b ∷ pre) c s (hb, h) solid =
    rw (hb, find_first_not_of-blanks pre c s h solid) refl

find_last_not_of-blanks : (post : Bytes) → All IsBlank post → find_last_not_of post ≡ none
find_last_not_of-blanks [] h = refl
find_last_not_of-blanks (b ∷ post) (hb, h) = rw (find_last_not_of-blanks post h, hb) refl

find_last_not_of-word :
    (word post : Bytes) (c : ℕ)
    → All IsSolid (c ∷ word)
    → All IsBlank post
    → find_last_not_of ((c ∷ word) ++ post) ≡ some (length word)
find_last_not_of-word [] post c (hc, h) blank = rw (find_last_not_of-blanks post blank, hc) refl
find_last_not_of-word (d ∷ word) post c (hc, h) blank =
    rw (find_last_not_of-word word post d h blank) refl

find_last_not_of-append :
    (pre s : Bytes) (i : ℕ)
    → find_last_not_of s ≡ some i
    → find_last_not_of (pre ++ s) ≡ some (length pre + i)
find_last_not_of-append [] s i e = e ∙ ap some (omega arith)
find_last_not_of-append (b ∷ pre) s i e =
    rw (find_last_not_of-append pre s i e) (ap some (omega arith))

pub trimmed-word :
    (pre word post : Bytes) (c : ℕ)
    → All IsBlank pre
    → All IsSolid (c ∷ word)
    → All IsBlank post
    → let raw = pre ++ ((c ∷ word) ++ post) in
      trimmed raw (find_first_not_of raw) (find_last_not_of raw) ≡ c ∷ word
unfolding trimmed
trimmed-word pre word post c before solid after =
    let raw = pre ++ ((c ∷ word) ++ post) in
    let first = find_first_not_of-blanks pre c (word ++ post) before solid.0 in
    let last =
      find_last_not_of-append pre ((c ∷ word) ++ post) (length word)
        (find_last_not_of-word word post c solid after) in
    let size : length pre + length word - length pre + 1 ≡ length (c ∷ word) = omega arith in
    ap₂ (trimmed raw) first last
    ∙ rw (size, drop-length-append pre ((c ∷ word) ++ post)) (take-length-append (c ∷ word) post)

find_last_not_of-none : (s : Bytes) → find_last_not_of s ≡ none → All IsBlank s
find_last_not_of-none [] e = tt
find_last_not_of-none (c ∷ s) e = elim (Option-cases (find_last_not_of s)) [
  | inl rest ↦ (ground arith, find_last_not_of-none s rest)
  | inr (i, rest) ↦ absurd (ground arith)
]

find_first_not_of-none : (s : Bytes) → All IsBlank s → find_first_not_of s ≡ none
find_first_not_of-none [] h = refl
find_first_not_of-none (c ∷ s) (hc, h) = rw (hc, find_first_not_of-none s h) refl

find_first-IsBlank : (s : Bytes) → find_first_not_of s ≡ none → All IsBlank s
find_first-IsBlank [] e = tt
find_first-IsBlank (c ∷ s) e = elim (Option-cases (find_first_not_of s)) [
  | inl rest ↦ (ground arith, find_first-IsBlank s rest)
  | inr (i, rest) ↦ absurd (ground arith)
]

find_last-after :
    (s : Bytes) (last : ℕ) → find_last_not_of s ≡ some last → All IsBlank (drop (suc last) s)
find_last-after [] last e = cc
find_last-after (c ∷ s) last e = elim (Option-cases (find_last_not_of s)) [
  | inl rest ↦
      let same : last ≡ 0 = ground arith in
      subst (λ l. All IsBlank (drop (suc l) (c ∷ s))) (sym same) (find_last_not_of-none s rest)
  | inr (i, rest) ↦
      let same : last ≡ suc i = ground arith in
      subst (λ l. All IsBlank (drop (suc l) (c ∷ s))) (sym same) (find_last-after s i rest)
]

find_first-before :
    (raw : Bytes) (first last : ℕ)
    → find_first_not_of raw ≡ some first
    → find_last_not_of raw ≡ some last
    → (All IsBlank (take first raw)) × (first ≤ last)
find_first-before [] first last e e' = cc
find_first-before (c ∷ s) first last e e' = elim (Bool-cases (is_blank c)) [
  | inl blank ↦ elim (Option-cases (find_first_not_of s)) [
    | inl nothing ↦ absurd (ground arith)
    | inr (i, found) ↦ elim (Option-cases (find_last_not_of s)) [
      | inl nothing ↦
          absurd (ground (arith, find_first_not_of-none s (find_last_not_of-none s nothing)))
      | inr (j, last_found) ↦
          let same : first ≡ suc i = ground arith in
          let same' : last ≡ suc j = ground arith in
          let (before, ordered) = find_first-before s i j found last_found in
          (subst (λ n. All IsBlank (take n (c ∷ s))) (sym same) (blank, before), omega arith)
    ]
  ]
  | inr solid ↦
      let same : first ≡ 0 = ground arith in
      (subst (λ n. All IsBlank (take n (c ∷ s))) (sym same) tt, omega arith)
]

-- What is cut off is blank.
pub record Trimmed (raw word : Bytes) : Type 0 where
  pub before : Bytes
  pub after : Bytes
  pub splits : raw ≡ before ++ (word ++ after)
  pub before_blank : All IsBlank before
  pub after_blank : All IsBlank after

pub trimmed-Trimmed :
    (raw : Bytes) → Trimmed raw (trimmed raw (find_first_not_of raw) (find_last_not_of raw))
unfolding trimmed
trimmed-Trimmed raw = elim (Option-cases (find_first_not_of raw)) [
  | inl nothing ↦
      rw (nothing, trimmed)
        (record {
          before = raw;
          after = [];
          splits = sym (append-nil raw);
          before_blank = find_first-IsBlank raw nothing;
          after_blank = tt;
        })
  | inr (first, e) ↦ elim (Option-cases (find_last_not_of raw)) [
    | inl nothing ↦
        absurd (ground (arith, find_first_not_of-none raw (find_last_not_of-none raw nothing)))
    | inr (last, e') ↦
        let (before, ordered) = find_first-before raw first last e e' in
        let sum : last - first + 1 + first ≡ suc last = omega arith in
        let rest : drop (last - first + 1) (drop first raw) ≡ drop (suc last) raw =
          drop-drop (last - first + 1) first raw ∙ ap (λ k. drop k raw) sum in
        rw (e, e', trimmed)
          (record {
            before = take first raw;
            after = drop (suc last) raw;
            splits =
                sym (take-append-drop first raw)
                ∙ ap (◌++◌ (take first raw)) (
                    sym (take-append-drop (last - first + 1) (drop first raw))
                    ∙ ap (◌++◌ (take (last - first + 1) (drop first raw))) rest);
            before_blank = before;
            after_blank = find_last-after raw last e';
          })
  ]
]
