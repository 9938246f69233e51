-- ===== src/Searchers/Removal.antt =====
-- The loops of klee/lib/Core/Searcher.cpp that take out the removed states.
use xklee.Base.{
  ℕ, ◌≡◌, refl, ap, Bool, true, false, not, ◌&&◌, ◌||◌, Option, none, some, List, [], ◌∷◌, ◌==◌,
  ==_iff, ◌∙◌, sym, arith, All, Bool-cases, Option-cases, inl, inr,
}
use xklee.Searchers.{back, pop_back, erase, dfs_erase, bfs_erase, erase_all}

abbrev pub member : ℕ → List ℕ → Bool
member x [] = false
member x (y ∷ ys) = x == y || member x ys

-- No element twice.
abbrev pub Distinct : List ℕ → Type 0
Distinct [] = Unit
Distinct (x ∷ xs) = (member x xs ≡ false) × Distinct xs

abbrev pub keep_if : Bool → ℕ → List ℕ → List ℕ
keep_if true x xs = x ∷ xs
keep_if false x xs = xs

-- The elements of `states` that are not in `removed`, in their order.
abbrev pub without : List ℕ → List ℕ → List ℕ
without removed [] = []
without removed (s ∷ states) = keep_if (not (member s removed)) s (without removed states)

without-absent :
    (es : ℕ) (states : List ℕ) → member es states ≡ false → without (es ∷ []) states ≡ states
without-absent es [] h = refl
without-absent es (s ∷ states) h = ground (arith, without-absent es states)

pub without-nil : (states : List ℕ) → without [] states ≡ states
without-nil [] = refl
without-nil (s ∷ states) = ap (λ t. s ∷ t) (without-nil states)

without-cons :
    (es : ℕ) (removed states : List ℕ)
    → without removed (without (es ∷ []) states) ≡ without (es ∷ removed) states
without-cons es removed [] = refl
without-cons es removed (s ∷ states) = ground (arith, without-cons es removed states)

kept_self :
    (x s : ℕ) (removed states : List ℕ)
    → x ≡ s
    → member x (without removed states) ≡ (member x states && not (member x removed))
    → member x (without removed (s ∷ states)) ≡ (member x (s ∷ states) && not (member x removed))
kept_self x s removed states e h =
    let same : member x removed ≡ member s removed = ap (λ y. member y removed) e in ground arith

kept_other :
    (x s : ℕ) (removed states : List ℕ)
    → (x == s) ≡ false
    → member x (without removed states) ≡ (member x states && not (member x removed))
    → member x (without removed (s ∷ states)) ≡ (member x (s ∷ states) && not (member x removed))
kept_other x s removed states e h = elim (Bool-cases (member s removed)) [
  | inl f ↦ rw (f, e) h
  | inr f ↦ rw (f, e) h
]

pub member-without :
    (x : ℕ) (removed states : List ℕ)
    → member x (without removed states) ≡ (member x states && not (member x removed))
member-without x removed [] = refl
member-without x removed (s ∷ states) = elim (Bool-cases (x == s)) [
  | inl e ↦ kept_self x s removed states ((==_iff x s).0 e) (member-without x removed states)
  | inr e ↦ kept_other x s removed states e (member-without x removed states)
]

pub without-Distinct :
    (removed states : List ℕ) → Distinct states → Distinct (without removed states)
without-Distinct removed [] d = tt
without-Distinct removed (s ∷ states) d = elim (Bool-cases (member s removed)) [
  | inl f ↦ rw f (without-Distinct removed states d.1)
  | inr f ↦
      let fresh : member s (without removed states) ≡ false =
        ground (arith, member-without s removed states) in
      rw f (fresh, without-Distinct removed states d.1)
]

-- Each of the three ways of taking out one state.
pub Erases : (ℕ → List ℕ → Option (List ℕ)) → Type 0
Erases erase_one =
    (es : ℕ) (states : List ℕ)
    → Distinct states
    → member es states ≡ true
    → erase_one es states ≡ some (without (es ∷ []) states)

pub erase-Erases : Erases erase
unfolding Erases erase
erase-Erases es [] d h = cc
erase-Erases es (s ∷ states) d h = elim (Bool-cases (es == s)) [
  | inl e ↦
      let same : es ≡ s = (==_iff es s).0 e in
      let absent : member es states ≡ false = rw same d.0 in
      ground (arith, without-absent es states absent)
  | inr e ↦ ground (arith, erase-Erases es states d.1)
]

pub bfs_erase-Erases : Erases bfs_erase
unfolding Erases erase
bfs_erase-Erases es [] d h = cc
bfs_erase-Erases es (s ∷ states) d h = elim (Bool-cases (es == s)) [
  | inl e ↦
      let same : es ≡ s = (==_iff es s).0 e in
      let absent : member es states ≡ false = rw same d.0 in
      ground (arith, without-absent es states absent)
  | inr e ↦ ground (arith, erase-Erases es states d.1)
]

pub back-member : (es : ℕ) (states : List ℕ) → back states ≡ some es → member es states ≡ true
back-member es [] h = cc
back-member es (s ∷ []) h = ground arith
back-member es (s ∷ t ∷ states) h = ground (arith, back-member es (t ∷ states) h)

pop_back-eq-without :
    (es : ℕ) (states : List ℕ)
    → Distinct states
    → back states ≡ some es
    → pop_back states ≡ without (es ∷ []) states
pop_back-eq-without es [] d h = cc
pop_back-eq-without es (s ∷ []) d h = ground arith
pop_back-eq-without es (s ∷ t ∷ states) d h =
    let rest = pop_back-eq-without es (t ∷ states) d.1 h in
    let found : member es (t ∷ states) ≡ true = back-member es (t ∷ states) h in
    let other : (s == es) ≡ false = elim (Bool-cases (s == es)) [
      | inl e ↦ absurd (cc (ap (λ y. member y (t ∷ states)) ((==_iff s es).0 e), found, d.0))
      | inr e ↦ e
    ] in
    rw other (ap (λ r. s ∷ r) rest)

back-some : (es : ℕ) (states : List ℕ) → member es states ≡ true → ¬ (back states ≡ none)
back-some es [] h e = cc
back-some es (s ∷ []) h e = cc
back-some es (s ∷ t ∷ states) h e = back-some t (t ∷ states) (ground arith) e

still_there :
    (es : ℕ) (states removed : List ℕ)
    → member es removed ≡ false
    → All (λ x. member x states ≡ true) removed
    → All (λ x. member x (without (es ∷ []) states) ≡ true) removed
still_there es states [] f a = tt
still_there es states (r ∷ removed) f a = (
  ground (arith, member-without r (es ∷ []) states),
  still_there es states removed (ground arith) a.1,
)

pub dfs_erase-Erases : Erases dfs_erase
unfolding Erases
dfs_erase-Erases es states d h = elim (Option-cases (back states)) [
  | inl e ↦ absurd (back-some es states h e)
  | inr (end, e) ↦ elim (Bool-cases (es == end)) [
    | inl f ↦
        rw (e, f)
          (ap some (pop_back-eq-without es states d (e ∙ ap some (sym ((==_iff es end).0 f)))))
    | inr f ↦ rw (e, f) (erase-Erases es states d h)
  ]
]

pub erase_all-eq-without :
    (erase_one : ℕ → List ℕ → Option (List ℕ)) (removed states : List ℕ)
    → Erases erase_one
    → Distinct removed
    → Distinct states
    → All (λ es. member es states ≡ true) removed
    → erase_all erase_one removed states ≡ some (without removed states)
unfolding Erases erase_all
erase_all-eq-without erase_one [] states h dr ds a = ap some (sym (without-nil states))
erase_all-eq-without erase_one (es ∷ removed) states h dr ds a =
    rw
      (
        h es states ds a.0,
        erase_all-eq-without erase_one removed (without (es ∷ []) states) h dr.1
            (without-Distinct (es ∷ []) states ds) (still_there es states removed dr.0 a.1),
      )
      (ap some (without-cons es removed states))
