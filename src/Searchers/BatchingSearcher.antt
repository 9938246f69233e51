-- ===== src/Searchers/BatchingSearcher.antt =====
-- `BatchingSearcher` of klee/lib/Core/Searcher.cpp: it stays with a state until its budget is used
-- up. Whether the time or the instructions since the last choice exceed the budget is an argument
-- of `select_state`; the adjustment of the time budget is left out.
use mathlib.Core.Option.{get_or}
use xklee.Base.{
  zero, suc, [], ◌∷◌, ap, sym, subst, ℕ, ◌≡◌, refl, Bool, true, false, Option, none, some, List,
  arith, if◌then◌else◌, Bool-cases, inl, inr,
}
use xklee.Solver.{◌>>=◌}
use xklee.Searchers.Removal.{member}
use xklee.Searchers.Updates.{Fits}
use xklee.Searchers.BaseSearcher.{BaseSearcher, Tracks}

pub record Batching (S : Type 0) : Type 0 where
  pub base : S
  pub last_state : Option ℕ

abbrev pub replicate : ℕ → ℕ → List ℕ
replicate zero es = []
replicate (suc n) es = es ∷ replicate n es

module _ {S : Type 0} (searcher : BaseSearcher S) where
  open searcher use {select, states, select-member, update-Tracks}

  abbrev pub choose : S → Option (ℕ × Batching S)
  choose s = select s >>= λ es. some (es, record { base = s; last_state = some es })

  unfoldable pub select_state : Bool → Batching S → Option (ℕ × Batching S)
  select_state over_budget b = elim b.last_state [
    | none ↦ choose b.base
    | some es ↦ if over_budget then choose b.base else some (es, b)
  ]

  -- `if (removedStates.count(lastState)) lastState = 0`.
  abbrev pub keep_last : List ℕ → Option ℕ → Option ℕ
  keep_last removed none = none
  keep_last removed (some es) = if member es removed then none else some es

  unfoldable pub update : List ℕ → List ℕ → Batching S → Option (Batching S)
  update added removed b = searcher.update added removed b.base >>= λ s.
      some (record { base = s; last_state = keep_last removed b.last_state })

  -- The state it stays with is one of the searcher behind.
  abbrev pub IsLive : S → Option ℕ → Type 0
  IsLive s none = Unit
  IsLive s (some es) = member es (states s) ≡ true

  -- The states that so many selections within the budget choose one after the other.
  unfoldable pub select_times : ℕ → Batching S → Option (List ℕ × Batching S)
  select_times zero b = some ([], b)
  select_times (suc n) b = select_state false b >>= λ (es, b').
      select_times n b' >>= λ (rest, b''). some (es ∷ rest, b'')

  -- The remembered state, if there is one and the budget is not used up, and else `chosen`.
  abbrev pub stay_or : Bool → Option ℕ → ℕ → ℕ
  stay_or over_budget last_state chosen = if over_budget then chosen else get_or last_state chosen

  -- `es` is the state that is due, one of the searcher behind, and all that changes is that it
  -- is remembered.
  pub record IsChoice (over_budget : Bool) (b : Batching S) (es : ℕ) (b' : Batching S)
      : Type 0 where
    pub chosen : ℕ
    pub selected : select b.base ≡ some chosen
    pub due : es ≡ stay_or over_budget b.last_state chosen
    pub among : member es (states b.base) ≡ true
    pub remembered : b' ≡ record { base = b.base; last_state = some es }

  select_from :
      (over_budget : Bool) (b : Batching S) (o : Option ℕ) (x : ℕ)
      → b.last_state ≡ o
      → IsLive b.base o
      → member x (states b.base) ≡ true
      → (es : ℕ) × (b' : Batching S) × (select_state over_budget b ≡ some (es, b'))
        × IsChoice over_budget b es b'
  unfolding select_state
  select_from over_budget b none x e l h =
      let (es, c, m) = select-member b.base x h in
      (
        es,
        _,
        rw (e, c) refl,
        record {
          chosen = es;
          selected = c;
          due = rw e (ground arith);
          among = m;
          remembered = refl;
        },
      )
  select_from false b (some es) x e l h =
      let (chosen, c, m) = select-member b.base x h in
      (
        es,
        _,
        rw e refl,
        record {
          chosen = chosen;
          selected = c;
          due = rw e refl;
          among = l;
          remembered = ap (λ last. record { base = b.base; last_state = last }) e;
        },
      )
  select_from true b (some s) x e l h =
      let (es, c, m) = select-member b.base x h in
      (
        es,
        _,
        rw (e, c) refl,
        record { chosen = es; selected = c; due = refl; among = m; remembered = refl },
      )

  select_times-replicate :
      (n es : ℕ) (s : S)
      → select_times n (record { base = s; last_state = some es })
        ≡ some (replicate n es, record { base = s; last_state = some es })
  unfolding select_times select_state
  select_times-replicate zero es s = refl
  select_times-replicate (suc n) es s = rw (select_times-replicate n es s)

  -- While the searcher behind has a state and the remembered one is among its states,
  -- `select_state` of the batching searcher gives the remembered state if there is one and the
  -- budget is not used up, and else the one that the searcher behind selects. Either is among
  -- the states of the searcher behind, the only change is that it is the remembered one now,
  -- and any number of selections within the budget that follow give the same state again.
  pub select_state-IsChoice :
      (over_budget : Bool) (n : ℕ) (b : Batching S) (x : ℕ)
      → IsLive b.base b.last_state
      → member x (states b.base) ≡ true
      → (es : ℕ) × (b' : Batching S) × (select_state over_budget b ≡ some (es, b'))
        × IsChoice over_budget b es b'
        × (select_times n b' ≡ some (replicate n es, b'))
  select_state-IsChoice over_budget n b x l h =
      let (es, b', e, c) = select_from over_budget b b.last_state x refl l h in
      (
        es,
        b',
        e,
        c,
        subst (λ b''. select_times n b'' ≡ some (replicate n es, b'')) (sym c.remembered)
            (select_times-replicate n es b.base),
      )

  keep_last-IsLive :
      (added removed : List ℕ) (s s' : S) (o : Option ℕ)
      → Tracks added removed (states s) (states s')
      → IsLive s o
      → IsLive s' (keep_last removed o)
  keep_last-IsLive added removed s s' none t l = tt
  keep_last-IsLive added removed s s' (some es) t l = elim (Bool-cases (member es removed)) [
    | inl e ↦ rw e tt
    | inr e ↦ let kept = t es in rw e (ground arith)
  ]

  -- When the added and removed states fit the searcher behind, `update` of the batching
  -- searcher succeeds, the searcher behind has the old and the added states less the removed
  -- ones, and the remembered state is still one of its states or forgotten.
  pub update-IsLive :
      (added removed : List ℕ) (b : Batching S)
      → Fits added removed (states b.base)
      → IsLive b.base b.last_state
      → (b' : Batching S) × (update added removed b ≡ some b')
        × Tracks added removed (states b.base) (states b'.base)
        × IsLive b'.base b'.last_state
  unfolding update
  update-IsLive added removed b f l =
      let (s', e, d, t) = update-Tracks added removed b.base f in
      (
        record { base = s'; last_state = keep_last removed b.last_state },
        rw e,
        t,
        keep_last-IsLive added removed b.base s' b.last_state t l,
      )
