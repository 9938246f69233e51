-- ===== src/FindReads/Examples.antt =====
-- `findReads` of klee/lib/Expr/ExprUtil.cpp on a read behind a write.
use xklee.Base.{◌≡◌, refl, true, ◌&&◌, some, List, [], ◌∷◌}
use xklee.Exprs.{
  Expr, constant, read, operation, no_updates, update, no_kids, kid, is_read, member, same_expr,
}
use xklee.FindReads.{loop, subterms, find_reads}
use xklee.FindReads.Exact.{find_reads-exact}

abbrev index : Expr
index = read 7 no_updates (constant 32 0)

-- Array 5 at an index read from array 7, behind a write of a byte of array 8.
abbrev nested : Expr
nested = read 5 (update index (read 8 no_updates (constant 32 1)) no_updates) index

abbrev sum : Expr
sum = operation 10 [] (kid nested (kid index no_kids))

find_reads-exact_example :
    (results : List Expr) × (find_reads true sum ≡ some results)
    × ((r : Expr) → member r results ≡ (is_read r && member r (subterms sum)))
find_reads-exact_example = find_reads-exact sum

-- The index is found once.
sum_reads : find_reads true sum ≡ some (index ∷ nested ∷ read 8 no_updates (constant 32 1) ∷ [])
unfolding find_reads loop subterms same_expr
sum_reads = refl
