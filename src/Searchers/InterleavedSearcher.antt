-- ===== src/Searchers/InterleavedSearcher.antt =====
-- `InterleavedSearcher` of klee/lib/Core/Searcher.cpp: it asks its searchers in turn.
use xklee.Base.{
  ℕ, zero, suc, ◌+◌, ◌-◌, ◌<◌, ◌≤◌, ◌≡◌, refl, ap, Option, none, some, List, [], ◌∷◌, arith, ◌==◌,
  if◌then◌else◌, ltb, Bool-cases, inl, inr, length,
}
use xklee.Solver.{◌>>=◌}

-- `searchers[--index]` and the new `index`, among `n` searchers.
unfoldable pub next_turn : ℕ → ℕ → ℕ × ℕ
next_turn n index = (index - 1, if index - 1 == 0 then n else index - 1)

-- `index` after `k` selections.
unfoldable pub index_after : ℕ → ℕ → ℕ → ℕ
index_after n index zero = index
index_after n index (suc k) = (next_turn n (index_after n index k)).1

abbrev pub IsIndex : ℕ → ℕ → Type 0
IsIndex n index = (0 < index) × (index ≤ n)

pub next_turn-IsIndex :
    (n index : ℕ) → IsIndex n index → ((next_turn n index).0 < n) × IsIndex n (next_turn n index).1
unfolding next_turn
next_turn-IsIndex n index (a, b) = (omega arith, (ground arith, ground arith))

index_after-early : (n index k : ℕ) → k < index → index_after n index k ≡ index - k
unfolding index_after next_turn
index_after-early n index zero h = omega arith
index_after-early n index (suc k) h = rw (index_after-early n index k (omega arith)) (ground arith)

index_after-add :
    (n index j k : ℕ) → index_after n index (k + j) ≡ index_after n (index_after n index j) k
unfolding index_after
index_after-add n index j zero = let e : 0 + j ≡ j = omega arith in rw e
index_after-add n index j (suc k) =
    let e : suc k + j ≡ suc (k + j) = omega arith in
    rw e (ap (λ i. (next_turn n i).1) (index_after-add n index j k))

index_after-wraps : (n index : ℕ) → 0 < index → index_after n index index ≡ n
unfolding index_after next_turn
index_after-wraps n zero h = absurd (omega arith)
index_after-wraps n (suc k) h = rw (index_after-early n (suc k) k (omega arith)) (ground arith)

-- From a valid index among `n` searchers, each searcher is asked within the next `n`
-- selections.
pub turn_comes :
    (n index j : ℕ)
    → IsIndex n index
    → j < n
    → (k : ℕ) × (k < n) × ((next_turn n (index_after n index k)).0 ≡ j)
unfolding next_turn
turn_comes n index j (a, b) h = elim (Bool-cases (ltb j index)) [
  | inl e ↦ (
    index - suc j,
    ground arith,
    rw (index_after-early n index (index - suc j) (ground arith)) (ground arith),
  )
  | inr e ↦ (
    (n - suc j) + index,
    ground arith,
    rw
        (
          index_after-add n index index (n - suc j),
          index_after-wraps n index a,
          index_after-early n n (n - suc j) (ground arith),
        )
        (ground arith),
  )
]

abbrev pub searcher_at : {S : Type 0} → List S → ℕ → Option S
searcher_at [] i = none
searcher_at (s ∷ searchers) zero = some s
searcher_at (s ∷ searchers) (suc i) = searcher_at searchers i

-- The state that is chosen, with the new `index`.
unfoldable pub select_state : {S : Type 0} → (S → Option ℕ) → List S → ℕ → Option (ℕ × ℕ)
select_state select searchers index = do
  s ← searcher_at searchers (next_turn (length searchers) index).0
  es ← select s
  some (es, (next_turn (length searchers) index).1)

-- Every searcher is told.
unfoldable pub update : {S : Type 0} → (S → Option S) → List S → Option (List S)
update update_one [] = some []
update update_one (s ∷ searchers) = do
  s' ← update_one s
  rest ← update update_one searchers
  some (s' ∷ rest)

searcher_at-some :
    {S : Type 0} (searchers : List S) (i : ℕ)
    → i < length searchers
    → (s : S) × (searcher_at searchers i ≡ some s)
searcher_at-some [] i h = absurd (omega arith)
searcher_at-some (s ∷ searchers) zero h = (s, refl)
searcher_at-some (s ∷ searchers) (suc i) h = searcher_at-some searchers i (omega arith)
