-- ===== src/Exprs.antt =====
-- klee/include/klee/Expr.h: expressions, update lists and their structural equality. An array is
-- its address, and an operation is the number of its `Kind` with its contents: the offset and
-- width of an extraction, the width of a cast. Hashes and reference counts are left out.
pub mod Same
use xklee.Base.{
  ℕ, zero, suc, Bool, true, false, ◌&&◌, ◌||◌, List, [], ◌∷◌, ◌==◌, ◌^◌, ◌%◌, if◌then◌else◌,
  same_numbers, leb, ◌+◌,
}

mutual
  -- `constant width value`; `read root updates index`; `operation kind contents kids`.
  pub data Expr : Type 0 where
    constant : ℕ → ℕ → Expr
    read : ℕ → Updates → Expr → Expr
    operation : ℕ → List ℕ → Kids → Expr

  -- The nodes from `head`: index, value and next, the most recent update first.
  pub data Updates : Type 0 where
    no_updates : Updates
    update : Expr → Expr → Updates → Updates

  pub data Kids : Type 0 where
    no_kids : Kids
    kid : Expr → Kids → Kids

unfoldable mutual
  -- `compare` of two expressions is 0.
  pub same_expr : Expr → Expr → Bool
  same_expr (constant w v) (constant w' v') = (w == w') && (v == v')
  same_expr (read a us i) (read a' us' i') = (a == a') && (same_updates us us' && same_expr i i')
  same_expr (operation k c es) (operation k' c' es') =
      (k == k') && (same_numbers c c' && same_kids es es')
  same_expr _ _ = false

  pub same_updates : Updates → Updates → Bool
  same_updates no_updates no_updates = true
  same_updates (update i v us) (update i' v' us') =
      same_expr i i' && (same_expr v v' && same_updates us us')
  same_updates _ _ = false

  pub same_kids : Kids → Kids → Bool
  same_kids no_kids no_kids = true
  same_kids (kid e es) (kid e' es') = same_expr e e' && same_kids es es'
  same_kids _ _ = false

abbrev pub is_constant : Expr → Bool
is_constant (constant w v) = true
is_constant _ = false

abbrev pub is_read : Expr → Bool
is_read (read a us i) = true
is_read _ = false

-- `extend`.
abbrev pub extend : Expr → Expr → Updates → Updates
extend i v us = update i v us

-- `count` of a set of expressions.
abbrev pub member : Expr → List Expr → Bool
member e [] = false
member e (x ∷ xs) = same_expr e x || member e xs

unfoldable mutual
  -- The value of an expression where `bytes` are the initial contents of the arrays and `apply` is
  -- what an operation gives for the values of its operands. An index has 32 bits.
  pub eval : (ℕ → List ℕ → List ℕ → ℕ) → (ℕ → ℕ → ℕ) → Expr → ℕ
  eval apply bytes (constant w v) = v
  eval apply bytes (read a us i) = eval_updates apply bytes us a (eval apply bytes i % 2 ^ 32)
  eval apply bytes (operation k c es) = apply k c (eval_kids apply bytes es)

  pub eval_updates : (ℕ → List ℕ → List ℕ → ℕ) → (ℕ → ℕ → ℕ) → Updates → ℕ → ℕ → ℕ
  eval_updates apply bytes no_updates a n = bytes a n
  eval_updates apply bytes (update i v us) a n =
      let older = eval_updates apply bytes us a n in
      if eval apply bytes i % 2 ^ 32 == n then eval apply bytes v else older

  pub eval_kids : (ℕ → List ℕ → List ℕ → ℕ) → (ℕ → ℕ → ℕ) → Kids → List ℕ
  eval_kids apply bytes no_kids = []
  eval_kids apply bytes (kid e es) = eval apply bytes e ∷ eval_kids apply bytes es

-- Number `i` of the list, and 0 behind it.
abbrev pub entry : ℕ → List ℕ → ℕ
entry i [] = 0
entry zero (x ∷ xs) = x
entry (suc i) (x ∷ xs) = entry i xs

-- `getWidth` of the classes of operations, for the number of the `Kind`, the contents and the
-- widths of the kids: a comparison (from `Eq`, 23, on) has one bit, `Select` (4) is as wide as its
-- second kid, `Concat` (5) as both together, `Extract` (6) and the casts (7 and 8) have their width
-- in the contents, and the others are as wide as the first kid.
unfoldable pub width_of : ℕ → List ℕ → List ℕ → ℕ
width_of kind contents widths =
    if leb 23 kind
    then 1
    else (if kind == 4
        then entry 1 widths
        else (if kind == 5
            then entry 0 widths + entry 1 widths
            else (if kind == 6
                then entry 1 contents
                else (if kind == 7 || kind == 8 then entry 0 contents else entry 0 widths))))

unfoldable mutual
  pub get_width : Expr → ℕ
  get_width (constant w v) = w
  get_width (read a us i) = 8
  get_width (operation k c es) = width_of k c (kid_widths es)

  pub kid_widths : Kids → List ℕ
  kid_widths no_kids = []
  kid_widths (kid e es) = get_width e ∷ kid_widths es
