-- ===== src/Log.antt =====
-- spoe_forge/log.py: the program's own logger among those of the application. What the code relies on
-- of Python's `logging` is a parameter.
pub mod Configured
mod Tests
use spoe_forge.Prelude.{
  ℕ, ◌≡◌, ◌<◌, Bool, true, false, List, [], ◌∷◌, ◌++◌, ◌||◌, leb, ◌==◌, if◌then◌else◌,
}

-- A logger: the levels of its handlers, its own level, 0 where none was set, and whether its records
-- go on to its parent.
pub record Logger : Type 0 where
  pub handlers : List ℕ
  pub level : ℕ
  pub propagate : Bool

-- A logger with its parents, up to the root.
pub record Chain : Type 0 where
  pub logger : Logger
  pub parents : List Logger

-- `getEffectiveLevel` of `logging`: the level that was set on a logger is its level.
pub record Levels : Type 0 where
  pub effective : Chain → ℕ
  pub own : (c : Chain) → 0 < c.logger.level → effective c ≡ c.logger.level

-- `any(handler.level <= level for handler in current.handlers)`
abbrev pub handles : ℕ → List ℕ → Bool
handles level [] = false
handles level (handler ∷ handlers) = leb handler level || handles level handlers

-- The loop of `_has_level_handler`, from a logger on.
abbrev pub search_up : ℕ → Logger → List Logger → Bool
search_up level current [] = handles level current.handlers
search_up level current (parent ∷ parents) =
    let further = search_up level parent parents in
    handles level current.handlers || (if current.propagate then further else false)

abbrev pub has_level_handler : Levels → Chain → Bool
has_level_handler levels c = search_up (levels.effective c) c.logger c.parents

-- `_default_handler` has no level of its own.
abbrev pub default_handler : ℕ
default_handler = 0

-- `logging.DEBUG` and `logging.INFO`
abbrev pub default_level : Bool → ℕ
default_level debug = if debug then 10 else 20

abbrev pub add_handler : Bool → Chain → Chain
add_handler found c = if found then c else record c {
  logger = record c.logger { handlers = c.logger.handlers ++ (default_handler ∷ []) };
}

abbrev pub set_level : Bool → Chain → Chain
set_level debug c =
    if c.logger.level == 0
    then record c { logger = record c.logger { level = default_level debug } }
    else c

unfoldable pub create_logger : Levels → Bool → Chain → Chain
create_logger levels debug c = set_level debug (add_handler (has_level_handler levels c) c)
