-- ===== src/Searchers/MergingSearcher.antt =====
-- `MergingSearcher::update` of klee/lib/Core/Searcher.cpp: states that wait at a merge point are
-- kept from the searcher behind.
use xklee.Base.{
  ℕ, ◌≡◌, ap, Bool, true, false, not, ◌&&◌, ◌||◌, Option, some, List, [], ◌∷◌, ◌++◌, ◌==◌, ==_iff,
  if◌then◌else◌, arith, All, Bool-cases, inl, inr, ◌∙◌,
}
use xklee.Solver.{◌>>=◌}
use xklee.Searchers.Removal.{member, Distinct, without, member-without, without-Distinct}
use xklee.Searchers.Updates.{Fits, member-append}
use xklee.Searchers.BaseSearcher.{BaseSearcher}

pub record Merging (S : Type 0) : Type 0 where
  pub base : S
  pub states_at_merge : List ℕ

-- The loop over the removed states: what is left of those at a merge point, and of `alt`.
unfoldable pub split_removed : List ℕ → List ℕ → List ℕ → List ℕ × List ℕ
split_removed [] at_merge alt = (at_merge, alt)
split_removed (es ∷ removed) at_merge alt =
    let found = split_removed removed (without (es ∷ []) at_merge) (without (es ∷ []) alt) in
    let missed = split_removed removed at_merge alt in if member es at_merge then found else missed

member-eq : (x y : ℕ) (xs : List ℕ) → (x == y) ≡ true → member x xs ≡ member y xs
member-eq x y xs e = ap (λ z. member z xs) ((==_iff x y).0 e)

split_removed-member :
    (removed at_merge alt : List ℕ) (x : ℕ)
    → (member x (split_removed removed at_merge alt).0
        ≡ (member x at_merge && not (member x removed)))
      × (member x (split_removed removed at_merge alt).1
          ≡ (member x alt && not (member x removed && member x at_merge)))
unfolding split_removed
split_removed-member [] at_merge alt x = (ground arith, ground arith)
split_removed-member (es ∷ removed) at_merge alt x =
    let found =
      split_removed-member removed (without (es ∷ []) at_merge) (without (es ∷ []) alt) x in
    let missed = split_removed-member removed at_merge alt x in
    let in_merge = member-without x (es ∷ []) at_merge in
    let in_alt = member-without x (es ∷ []) alt in
    elim (Bool-cases (x == es)) [
      | inl e ↦
          let same = member-eq x es at_merge e in
          elim (Bool-cases (member es at_merge)) [
            | inl f ↦ rw f (ground arith, ground arith)
            | inr f ↦ rw f (ground arith, ground arith)
          ]
      | inr e ↦ elim (Bool-cases (member es at_merge)) [
        | inl f ↦ rw f (ground arith, ground arith)
        | inr f ↦ rw f (ground arith, ground arith)
      ]
    ]

split_removed-Distinct :
    (removed at_merge alt : List ℕ) → Distinct alt → Distinct (split_removed removed at_merge alt).1
unfolding split_removed
split_removed-Distinct [] at_merge alt d = d
split_removed-Distinct (es ∷ removed) at_merge alt d = elim (Bool-cases (member es at_merge)) [
  | inl f ↦ rw f (
      split_removed-Distinct removed (without (es ∷ []) at_merge) (without (es ∷ []) alt)
        (without-Distinct (es ∷ []) alt d))
  | inr f ↦ rw f (split_removed-Distinct removed at_merge alt d)
]

All-of-member : (P : ℕ → Type 0) (xs : List ℕ) → ((x : ℕ) → member x xs ≡ true → P x) → All P xs
All-of-member P [] h = tt
All-of-member P (x ∷ xs) h = (h x (ground arith), All-of-member P xs (λ y m. h y (ground arith)))

All-member :
    (x : ℕ) (xs : List ℕ) (p : ℕ → Bool)
    → All (λ y. p y ≡ true) xs
    → member x xs ≡ true
    → p x ≡ true
All-member x [] p a m = cc
All-member x (y ∷ xs) p a m = elim (Bool-cases (x == y)) [
  | inl e ↦ ap p ((==_iff x y).0 e) ∙ a.0
  | inr e ↦ All-member x xs p a.1 (ground arith)
]

module _ {S : Type 0} (searcher : BaseSearcher S) where
  open searcher use {states, update-Tracks}

  unfoldable pub update : List ℕ → List ℕ → Merging S → Option (Merging S)
  update added removed b =
      let split = split_removed removed b.states_at_merge removed in
      searcher.update added split.1 b.base >>= λ s.
      some (record { base = s; states_at_merge = split.0 })

  abbrev pub is_kept : Merging S → ℕ → Bool
  is_kept b x = member x (states b.base) || member x b.states_at_merge

  -- New states are new, removed ones are there, and none is in both places.
  abbrev pub FitsBoth : List ℕ → List ℕ → Merging S → Type 0
  FitsBoth added removed b =
      Distinct (states b.base ++ added)
      × Distinct removed
      × All (λ es. (is_kept b es || member es added) ≡ true) removed
      × ((x : ℕ) → (member x (states b.base ++ added) && member x b.states_at_merge) ≡ false)

  alt-Fits :
      (added removed : List ℕ) (b : Merging S)
      → FitsBoth added removed b
      → Fits added (split_removed removed b.states_at_merge removed).1 (states b.base)
  alt-Fits added removed b (d, r, a, apart) = (
    d,
    split_removed-Distinct removed b.states_at_merge removed r,
    All-of-member (λ es. member es (states b.base ++ added) ≡ true)
        (split_removed removed b.states_at_merge removed).1
        (λ x m.
          let split = split_removed-member removed b.states_at_merge removed x in
          let removed_x : member x removed ≡ true = ground arith in
          let kept = All-member x removed (λ es. is_kept b es || member es added) a removed_x in
          let appended = member-append x (states b.base) added in ground arith),
  )

  -- When no state is both at a merge point and with the searcher behind, the new states are
  -- new, and the removed ones are distinct and there, `update` of the merging searcher
  -- succeeds, and the states in the two places together are the old and the added ones less
  -- the removed ones.
  pub merging_update-keeps :
      (added removed : List ℕ) (b : Merging S)
      → FitsBoth added removed b
      → (b' : Merging S) × (update added removed b ≡ some b')
        × ((x : ℕ) → is_kept b' x ≡ ((is_kept b x || member x added) && not (member x removed)))
  unfolding update
  merging_update-keeps added removed b f =
      let split = split_removed removed b.states_at_merge removed in
      let (s', e, d, t) =
        update-Tracks added (split_removed removed b.states_at_merge removed).1 b.base
          (alt-Fits added removed b f) in
      (
        record { base = s'; states_at_merge = split.0 },
        rw e,
        λ x.
            let parts = split_removed-member removed b.states_at_merge removed x in
            let tracked = t x in
            let apart = f.3 x in
            let appended = member-append x (states b.base) added in ground arith,
      )
