-- ===== src/Objects/Access.antt =====
-- `read8` and `write8` at offsets that are expressions (klee/lib/Core/Memory.cpp).
pub mod Right
use mathlib.Core.Option.{get_or}
use xklee.Base.{ℕ, Bool, true, false, not, Option, none, some, if◌then◌else◌, ◌==◌}
use xklee.Exprs.{Expr, constant, is_constant}
use xklee.Solver.{◌>>=◌}
use xklee.Objects.{
  ObjectState, known_at, is_byte_concrete, is_byte_flushed, extend_byte, flush_for_read,
  flush_for_write,
}
use xklee.Objects.Lazy.{get_updates, create_read}

-- What the object state uses of expressions: `EqExpr::create` where it gives a constant, and
-- `ZExtExpr::create` to 32 bits; and the address of a constant array with these contents.
pub record Builder : Type 0 where
  pub equal : Expr → Expr → Option Bool
  pub zext32 : Expr → Expr
  pub new_array : (ℕ → ℕ) → ℕ

module _ (builder : Builder) where
  open builder use {equal, zext32, new_array}

  -- `ReadExpr::create(getUpdates(), offset)`.
  abbrev pub read_from : Option ℕ → Expr → ObjectState → Option (Expr × ObjectState)
  read_from none offset os = none
  read_from (some a) offset os = some (create_read equal a os.updates offset, os)

  abbrev pub read_updates : Expr → ObjectState → Option (Expr × ObjectState)
  read_updates offset os = let lazy = get_updates new_array os in read_from lazy.root offset lazy

  abbrev pub read_uncached : ℕ → ObjectState → Option Expr → Option (Expr × ObjectState)
  read_uncached i os (some value) = some (value, os)
  read_uncached i os none = if is_byte_flushed os i then read_updates (constant 32 i) os else none

  -- `read8` at a constant offset.
  unfoldable pub read8 : ℕ → ObjectState → Option (Expr × ObjectState)
  read8 i os =
      if is_byte_concrete os i
      then some (constant 8 (os.concrete_store i), os)
      else read_uncached i os (known_at os.known_symbolics i)

  -- `read8` and `write8` at an expression, which they assert not to be constant.
  unfoldable pub read8_at : Expr → ObjectState → Option (Expr × ObjectState)
  read8_at offset os =
      if is_constant offset
      then none
      else (do flushed ← flush_for_read os; read_updates (zext32 offset) flushed)

  unfoldable pub write8_at_expr : Expr → Expr → ObjectState → Option ObjectState
  write8_at_expr offset value os =
      if is_constant offset
      then none
      else (do flushed ← flush_for_write os; extend_byte (zext32 offset) value flushed)
