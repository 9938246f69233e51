-- ===== src/Searchers/IterativeDeepeningTimeSearcher/Kept.antt =====
-- The states of `IterativeDeepeningTimeSearcher` of klee/lib/Core/Searcher.cpp across an update.
use xklee.Base.{
  ℕ, ◌≡◌, refl, ap, Bool, true, false, not, ◌&&◌, ◌||◌, Option, none, some, List, [], ◌∷◌, ◌++◌,
  ◌==◌, ==_iff, arith, All, Bool-cases, inl, inr, append-nil,
}
use xklee.Searchers.Removal.{member, Distinct}
use xklee.Searchers.Updates.{Fits, member-append}
use xklee.Searchers.BaseSearcher.{BaseSearcher, Tracks}
use xklee.Searchers.IterativeDeepeningTimeSearcher.{
  Deepening, check_removed, is_late, pause_if, pause, resume, update, is_kept, IsApart,
}

abbrev pub IsCurrent : Option ℕ → List ℕ → Type 0
IsCurrent none states = Unit
IsCurrent (some current) states = member current states ≡ true

check_removed-eq :
    (removed alt paused : List ℕ)
    → All (λ es. member es paused ≡ false) removed
    → check_removed removed alt paused ≡ some (alt, paused)
unfolding check_removed
check_removed-eq [] alt paused a = refl
check_removed-eq (es ∷ removed) alt paused a = rw (a.0, check_removed-eq removed alt paused a.1)

not_both :
    (x : ℕ) (removed paused : List ℕ)
    → All (λ es. member es paused ≡ false) removed
    → (member x removed && member x paused) ≡ false
not_both x [] paused a = refl
not_both x (es ∷ removed) paused a = elim (Bool-cases (x == es)) [
  | inl e ↦
      let same : member x paused ≡ member es paused =
        ap (λ y. member y paused) ((==_iff x es).0 e) in
      ground arith
  | inr e ↦ ground (arith, not_both x removed paused a.1)
]

append_nil-Distinct : (xs : List ℕ) → Distinct xs → Distinct (xs ++ [])
append_nil-Distinct xs d = rw (append-nil xs) d

append-Distinct :
    (xs ys : List ℕ)
    → Distinct xs
    → Distinct ys
    → ((x : ℕ) → (member x xs && member x ys) ≡ false)
    → Distinct (xs ++ ys)
append-Distinct [] ys d d' a = d'
append-Distinct (x ∷ xs) ys d d' a =
    let apart = a x in
    (
      ground (arith, member-append x xs ys),
      append-Distinct xs ys d.1 d' (λ y. let h = a y in ground arith),
    )

module _ {S : Type 0} (searcher : BaseSearcher S) where
  open searcher use {empty, states, empty-member, update-Tracks}

  pause_if-keeps :
      (late : Bool) (current : ℕ) (b : Deepening S)
      → IsApart searcher b
      → (late ≡ true → member current (states b.base) ≡ true)
      → (b' : Deepening S) × (pause_if searcher late current b ≡ some b')
        × IsApart searcher b'
        × ((x : ℕ) → is_kept searcher b' x ≡ is_kept searcher b x)
  pause_if-keeps false current b f h = (b, refl, f, λ x. refl)
  pause_if-keeps true current b (d, p, apart) h =
      let (s', e, d', t) = update-Tracks [] (current ∷ []) b.base (
        append_nil-Distinct (states b.base) d,
        (refl, tt),
        (rw (append-nil (states b.base)) (h refl), tt),
      ) in
      let apart_current = apart current in
      let there : member current (states b.base) ≡ true = h refl in
      (
        record { base = s'; paused_states = current ∷ b.paused_states },
        rw e,
        (d', (ground arith, p), λ x. let tracked = t x in let apart_x = apart x in ground arith),
        λ x.
            let tracked = t x in
            let same = λ (e : (x == current) ≡ true).
              ap (λ y. member y (states b.base)) ((==_iff x current).0 e) in
            elim (Bool-cases (x == current)) [
              | inl e ↦ let here = same e in ground arith
              | inr e ↦ ground arith
            ],
      )

  pause-keeps :
      (over_time : Bool) (added removed : List ℕ) (current : Option ℕ) (b : Deepening S) (s' : S)
      → Tracks added removed (states b.base) (states s')
      → IsApart searcher (record { base = s'; paused_states = b.paused_states })
      → IsCurrent current (states b.base)
      → (b' : Deepening S) × (pause searcher over_time removed current
            (record { base = s'; paused_states = b.paused_states })
          ≡ some b')
        × IsApart searcher b'
        × ((x : ℕ)
            → is_kept searcher b' x
              ≡ is_kept searcher (record { base = s'; paused_states = b.paused_states }) x)
  pause-keeps over_time added removed none b s' t f c =
      (record { base = s'; paused_states = b.paused_states }, refl, f, λ x. refl)
  pause-keeps over_time added removed (some current) b s' t f c =
      let tracked = t current in
      pause_if-keeps (is_late searcher over_time removed current) current
        (record { base = s'; paused_states = b.paused_states }) f (λ late. ground arith)

  resume-keeps :
      (b : Deepening S)
      → IsApart searcher b
      → (b' : Deepening S) × (resume searcher (empty b.base) b ≡ some b')
        × IsApart searcher b'
        × ((x : ℕ) → is_kept searcher b' x ≡ is_kept searcher b x)
  resume-keeps b (d, p, apart) = elim (Bool-cases (empty b.base)) [
    | inl e ↦
        let (s', u, d', t) =
          update-Tracks b.paused_states [] b.base
            (append-Distinct (states b.base) b.paused_states d p apart, tt, tt) in
        (
          record { base = s'; paused_states = [] },
          rw (e, u),
          (d', tt, λ x. ground arith),
          λ x. let tracked = t x in ground arith,
        )
    | inr e ↦ (b, rw e, (d, p, apart), λ x. refl)
  ]

  -- When no removed state is paused, no state is in both places, the added and removed states
  -- fit the searcher behind and the current state is with it, `update` of the deepening
  -- searcher succeeds, no state is in both places afterwards, and the two places together have
  -- the old and the added states less the removed ones.
  pub deepening_update-keeps :
      (over_time : Bool) (current : Option ℕ) (added removed : List ℕ) (b : Deepening S)
      → Fits added removed (states b.base)
      → Distinct b.paused_states
      → ((x : ℕ) → (member x (states b.base ++ added) && member x b.paused_states) ≡ false)
      → All (λ es. member es b.paused_states ≡ false) removed
      → IsCurrent current (states b.base)
      → (b' : Deepening S) × (update searcher over_time current added removed b ≡ some b')
        × IsApart searcher b'
        × ((x : ℕ)
            → is_kept searcher b' x
              ≡ ((is_kept searcher b x || member x added) && not (member x removed)))
  unfolding update
  deepening_update-keeps over_time current added removed b f p apart np h =
      let (s', e, d, t) = update-Tracks added removed b.base f in
      let (b', e', f', k') =
        pause-keeps over_time added removed current b s' t
          (
            d,
            p,
            λ x.
                let tracked = t x in
                let apart_x = apart x in
                let appended = member-append x (states b.base) added in ground arith,
          )
          h in
      let (b'', e'', f'', k'') = resume-keeps b' f' in
      (
        b'',
        rw (check_removed-eq removed removed b.paused_states np, e, e') e'',
        f'',
        λ x.
            let tracked = t x in
            let later = k'' x in
            let earlier = k' x in
            let unpaused = not_both x removed b.paused_states np in ground arith,
      )
