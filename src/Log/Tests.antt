-- ===== src/Log/Tests.antt =====
-- The logger below a root logger that has handlers, as `logging` has it.
use spoe_forge.Prelude.{ℕ, ◌≡◌, ◌<◌, refl, arith, true, false, List, [], ◌∷◌, ◌==◌, if◌then◌else◌}
use spoe_forge.Log.{Logger, Chain, Levels, create_logger}
use spoe_forge.Log.Configured.{IsConfigured, create_logger_configures}

-- The first level that is set on the way up.
abbrev inherited : List Logger → ℕ
inherited [] = 0
inherited (c ∷ cs) = let further = inherited cs in if c.level == 0 then further else c.level

some_level : (c : Chain) → 0 < c.logger.level → inherited (c.logger ∷ c.parents) ≡ c.logger.level
some_level c h = ground arith

abbrev levels : Levels
levels = record { effective = λ c. inherited (c.logger ∷ c.parents); own = some_level }

abbrev own_logger : Logger
own_logger = record { handlers = []; level = 0; propagate = true }

-- A root logger of the level INFO with a handler.
abbrev application : Chain
application = record {
  logger = own_logger;
  parents = record { handlers = 0 ∷ []; level = 20; propagate = true } ∷ [];
}

create_logger_configures_example :
    IsConfigured levels (create_logger levels false application)
    × (create_logger levels true (create_logger levels false application)
        ≡ create_logger levels false application)
create_logger_configures_example =
    create_logger_configures levels false true application (λ unset found. omega arith)

-- Below a root logger of the level WARNING with a handler of this level: the first call adds no handler
-- and sets the level INFO, which that handler does not take; the second adds the default handler.
abbrev quiet : Chain
quiet = record {
  logger = own_logger;
  parents = record { handlers = 30 ∷ []; level = 30; propagate = true } ∷ [];
}

first_call :
    create_logger levels false quiet ≡ record quiet { logger = record own_logger { level = 20 } }
unfolding create_logger
first_call = refl

second_call :
    create_logger levels false (create_logger levels false quiet)
    ≡ record quiet { logger = record own_logger { level = 20; handlers = 0 ∷ [] } }
unfolding create_logger
second_call = refl
