-- ===== src/Common/OrderedMap.antt =====
-- `std::map` with an unsigned key: the entries in ascending order of their keys, as an iteration
-- meets them. `emplace` keeps an entry that is there; a write through an iterator is `modify`.
use Prim.Native.Nat.{ℕ, ◌≤◌, ◌<◌}
use mathlib.Core.Path.{◌≡◌, refl, sym, subst}
use mathlib.Core.Logic.{inl, inr}
use mathlib.Core.Bool.{Bool, true, false}
use mathlib.Core.List.{List, [], ◌∷◌}
use mathlib.Core.Option
use mathlib.Core.Option.{Option, none, some}
use native.Mathlib.Omega.{arith}
use linux_iot_gateway.Common.Tests.{ltb, ◌==◌, if◌then◌else◌, ==_iff, Bool-cases, Option-cases}

module _ {ℓ} {V : Type ℓ} where
  unfoldable pub find : ℕ → List (ℕ × V) → Option V
  find k [] = none
  find k ((j, v) ∷ m) = if j == k then some v else find k m

  unfoldable pub insert : ℕ → V → List (ℕ × V) → List (ℕ × V)
  insert k v [] = (k, v) ∷ []
  insert k v ((j, w) ∷ m) = if ltb k j then (k, v) ∷ (j, w) ∷ m else (j, w) ∷ insert k v m

  unfoldable pub emplace : ℕ → V → List (ℕ × V) → List (ℕ × V) × Bool
  emplace k v m = elim (find k m) [ none ↦ (insert k v m, true) | some _ ↦ (m, false) ]

  unfoldable pub modify : ℕ → (V → V) → List (ℕ × V) → List (ℕ × V)
  modify k f [] = []
  modify k f ((j, w) ∷ m) = if j == k then (j, f w) ∷ m else (j, w) ∷ modify k f m

  unfoldable pub map_values : (V → V) → List (ℕ × V) → List (ℕ × V)
  map_values f [] = []
  map_values f ((j, w) ∷ m) = (j, f w) ∷ map_values f m

  pub find-insert :
      (k j : ℕ) (v : V) (m : List (ℕ × V))
      → find k m ≡ none
      → find j (insert k v m) ≡ (if k == j then some v else find j m)
  unfolding find insert
  find-insert k j v [] h = refl
  find-insert k j v ((i, w) ∷ m) h = ground (arith, find-insert k j v m)

  pub find-modify :
      (k j : ℕ) (f : V → V) (m : List (ℕ × V))
      → find j (modify k f m) ≡ (if k == j then Option.map f (find j m) else find j m)
  unfolding find modify
  find-modify k j f [] = ground arith
  find-modify k j f ((i, w) ∷ m) = ground (arith, find-modify k j f m)

  -- `m[k] = v`.
  unfoldable pub assign : ℕ → V → List (ℕ × V) → List (ℕ × V)
  assign k v m = elim (find k m) [ none ↦ insert k v m | some _ ↦ modify k (λ _. v) m ]

  pub find-assign :
      (k j : ℕ) (v : V) (m : List (ℕ × V))
      → find j (assign k v m) ≡ (if k == j then some v else find j m)
  unfolding assign
  find-assign k j v m = elim (Option-cases (find k m)) [
    | inl e ↦ rw (e, assign) (find-insert k j v m e)
    | inr (w, e) ↦ elim (Bool-cases (k == j)) [
      | inl same ↦
          let there : find j m ≡ some w = subst (λ i. find i m ≡ some w) ((==_iff k j).0 same) e in
          rw (e, assign, find-modify k j (λ _. v) m, same, there) refl
      | inr other ↦ rw (e, assign, find-modify k j (λ _. v) m, other) refl
    ]
  ]

  -- `m.erase(k)`.
  unfoldable pub erase : ℕ → List (ℕ × V) → List (ℕ × V)
  erase k [] = []
  erase k ((j, w) ∷ m) = if j == k then m else (j, w) ∷ erase k m

  pub find-map_values :
      (j : ℕ) (f : V → V) (m : List (ℕ × V)) → find j (map_values f m) ≡ Option.map f (find j m)
  unfolding find map_values
  find-map_values j f [] = refl
  find-map_values j f ((i, w) ∷ m) = ground (arith, find-map_values j f m)

-- Keys ascend strictly above a bound, as `std::map` keeps them, and each entry satisfies `P`.
module _ {ℓ} {V : Type ℓ} (P : ℕ → V → Type 0) where
  abbrev pub Sorted : ℕ → List (ℕ × V) → Type 0
  Sorted lo [] = Unit {0}
  Sorted lo ((k, v) ∷ m) = (lo < k) × P k v × Sorted k m

  pub find_below : (k lo : ℕ) (m : List (ℕ × V)) → Sorted lo m → k ≤ lo → find k m ≡ none
  unfolding find
  find_below k lo [] s h = refl
  find_below k lo ((j, v) ∷ m) s h = ground (arith, find_below k j m s.2)

  pub find-Sorted : (k lo : ℕ) (m : List (ℕ × V)) {v : V} → Sorted lo m → find k m ≡ some v → P k v
  unfolding find
  find-Sorted k lo [] s e = cc
  find-Sorted k lo ((j, w) ∷ m) {v} s e = elim (Bool-cases (j == k)) [
    | inl hit ↦
        let same : w ≡ v = ground arith in
        subst (λ i. P i v) ((==_iff j k).0 hit) (subst (P j) same s.1)
    | inr miss ↦ find-Sorted k j m s.2 (rw miss at e)
  ]

  pub insert-Sorted :
      (k : ℕ) (v : V) (lo : ℕ) (m : List (ℕ × V))
      → lo < k
      → find k m ≡ none
      → P k v
      → Sorted lo m
      → Sorted lo (insert k v m)
  unfolding find insert
  insert-Sorted k v lo [] h e p s = (h, p, tt)
  insert-Sorted k v lo ((j, w) ∷ m) h e p s = ground (arith, insert-Sorted k v j m)

  pub modify-Sorted :
      (k : ℕ) (f : V → V) (lo : ℕ) (m : List (ℕ × V))
      → ((v : V) → P k v → P k (f v))
      → Sorted lo m
      → Sorted lo (modify k f m)
  unfolding modify
  modify-Sorted k f lo [] keep s = tt
  modify-Sorted k f lo ((j, w) ∷ m) keep (h, p, s) = elim (Bool-cases (j == k)) [
    | inl hit ↦ rw hit (
      h,
      subst (λ i. P i (f w)) (sym ((==_iff j k).0 hit))
          (keep w (subst (λ i. P i w) ((==_iff j k).0 hit) p)),
      s,
    )
    | inr miss ↦ rw miss (h, p, modify-Sorted k f j m keep s)
  ]

  pub map_values-Sorted :
      (f : V → V) (lo : ℕ) (m : List (ℕ × V))
      → ((k : ℕ) (v : V) → P k v → P k (f v))
      → Sorted lo m
      → Sorted lo (map_values f m)
  unfolding map_values
  map_values-Sorted f lo [] keep s = tt
  map_values-Sorted f lo ((j, w) ∷ m) keep (h, p, s) =
      (h, keep j w p, map_values-Sorted f j m keep s)

-- Each entry satisfies `P`.
module _ {ℓ} {V : Type ℓ} (P : ℕ → V → Type 0) where
  abbrev pub Entries : List (ℕ × V) → Type 0
  Entries [] = Unit {0}
  Entries ((k, v) ∷ m) = P k v × Entries m

  pub find-Entries : (k : ℕ) (m : List (ℕ × V)) {v : V} → Entries m → find k m ≡ some v → P k v
  unfolding find
  find-Entries k [] h e = cc
  find-Entries k ((j, w) ∷ m) {v} h e = elim (Bool-cases (j == k)) [
    | inl hit ↦
        let same : w ≡ v = ground arith in
        subst (λ i. P i v) ((==_iff j k).0 hit) (subst (P j) same h.0)
    | inr miss ↦ find-Entries k m h.1 (rw miss at e)
  ]

  insert-Entries : (k : ℕ) (v : V) (m : List (ℕ × V)) → P k v → Entries m → Entries (insert k v m)
  unfolding insert
  insert-Entries k v [] p h = (p, tt)
  insert-Entries k v ((j, w) ∷ m) p (q, h) = elim (Bool-cases (ltb k j)) [
    | inl before ↦ rw before (p, (q, h))
    | inr after ↦ rw after (q, insert-Entries k v m p h)
  ]

  modify-Entries :
      (k : ℕ) (v : V) (m : List (ℕ × V)) → P k v → Entries m → Entries (modify k (λ _. v) m)
  unfolding modify
  modify-Entries k v [] p h = tt
  modify-Entries k v ((j, w) ∷ m) p (q, h) = elim (Bool-cases (j == k)) [
    | inl hit ↦ rw hit (subst (λ i. P i v) (sym ((==_iff j k).0 hit)) p, h)
    | inr miss ↦ rw miss (q, modify-Entries k v m p h)
  ]

  pub assign-Entries :
      (k : ℕ) (v : V) (m : List (ℕ × V)) → P k v → Entries m → Entries (assign k v m)
  unfolding assign
  assign-Entries k v m p h = elim (Option-cases (find k m)) [
    | inl e ↦ rw (e, assign) (insert-Entries k v m p h)
    | inr (w, e) ↦ rw (e, assign) (modify-Entries k v m p h)
  ]

  pub erase-Entries : (k : ℕ) (m : List (ℕ × V)) → Entries m → Entries (erase k m)
  unfolding erase
  erase-Entries k [] h = tt
  erase-Entries k ((j, w) ∷ m) (p, h) = elim (Bool-cases (j == k)) [
    | inl hit ↦ rw hit h
    | inr miss ↦ rw miss (p, erase-Entries k m h)
  ]
