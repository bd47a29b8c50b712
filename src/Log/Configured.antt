-- ===== src/Log/Configured.antt =====
-- What a call of `create_logger` of spoe_forge/log.py leaves for the next.
use spoe_forge.Prelude.{
  ℕ, ◌≡◌, ◌≤◌, ◌<◌, inl, inr, refl, ap, sym, ◌∙◌, arith, Bool, Bool-cases, true, false, List, [],
  ◌∷◌, ◌++◌, ◌||◌, leb, ◌==◌, if◌then◌else◌,
}
use spoe_forge.Log.{
  Logger, Chain, Levels, handles, search_up, has_level_handler, default_handler, default_level,
  add_handler, set_level, create_logger,
}

or_true :
    (a b a' b' : Bool)
    → (a ≡ true → a' ≡ true)
    → (b ≡ true → b' ≡ true)
    → (a || b) ≡ true
    → (a' || b') ≡ true
or_true true b a' b' h k p = rw (h refl) refl
or_true false b true b' h k p = refl
or_true false b false b' h k p = k p

handles_mono : (l m : ℕ) (hs : List ℕ) → l ≤ m → handles l hs ≡ true → handles m hs ≡ true
handles_mono l m [] h p = p
handles_mono l m (x ∷ hs) h p =
    or_true (leb x l) (handles l hs) (leb x m) (handles m hs) (λ q. ground arith)
      (handles_mono l m hs h) p

search_up_mono :
    (l m : ℕ) (c : Logger) (ps : List Logger)
    → l ≤ m
    → search_up l c ps ≡ true
    → search_up m c ps ≡ true
search_up_mono l m c [] h p = handles_mono l m c.handlers h p
search_up_mono l m c (q ∷ ps) h p =
    or_true (handles l c.handlers) (if c.propagate then search_up l q ps else false)
      (handles m c.handlers) (if c.propagate then search_up m q ps else false)
      (handles_mono l m c.handlers h) (up c.propagate (search_up_mono l m q ps h)) p
  where
    up :
        (b : Bool)
        → (search_up l q ps ≡ true → search_up m q ps ≡ true)
        → (if b then search_up l q ps else false) ≡ true
        → (if b then search_up m q ps else false) ≡ true
    up true further k = further k
    up false further k = k

-- The default handler takes every level.
handles_all : (l : ℕ) (hs : List ℕ) → handles l (hs ++ (default_handler ∷ [])) ≡ true
handles_all l [] = ground arith
handles_all l (x ∷ hs) = rw (handles_all l hs) (or_last (leb x l))
  where
    or_last : (b : Bool) → (b || true) ≡ true
    or_last true = refl
    or_last false = refl

search_up_all :
    (l : ℕ) (c : Logger) (ps : List Logger)
    → search_up l (record c { handlers = c.handlers ++ (default_handler ∷ []) }) ps ≡ true
search_up_all l c [] = handles_all l c.handlers
search_up_all l c (q ∷ ps) = rw (handles_all l c.handlers) refl

-- A logger with a level and a handler for it is left as it is.
left_alone :
    (levels : Levels) (debug : Bool) (c : Chain)
    → 0 < c.logger.level
    → has_level_handler levels c ≡ true
    → create_logger levels debug c ≡ c
unfolding create_logger
left_alone levels debug c l h = rw h (ground arith)

-- The level of a logger is not looked at on the way up.
search_up-level :
    (l k : ℕ) (c : Logger) (ps : List Logger)
    → search_up l (record c { level = k }) ps ≡ search_up l c ps
search_up-level l k c [] = refl
search_up-level l k c (q ∷ ps) = refl

-- A logger that has a level, and a handler for it on the way up.
abbrev pub IsConfigured : Levels → Chain → Type 0
IsConfigured levels c = (0 < c.logger.level) × (has_level_handler levels c ≡ true)

-- A handler for the level that is set, or was.
set_level-IsConfigured :
    (levels : Levels) (debug : Bool) (c : Chain)
    → (c.logger.level ≡ 0 → search_up (default_level debug) c.logger c.parents ≡ true)
    → (0 < c.logger.level → search_up c.logger.level c.logger c.parents ≡ true)
    → IsConfigured levels (set_level debug c)
set_level-IsConfigured levels debug c new old = elim (Bool-cases (c.logger.level == 0)) [
  | inl unset ↦
      let k = default_level debug in
      let some_level : 0 < k = ground arith in
      let d : Chain = record c { logger = record c.logger { level = k } } in
      rw unset (
        some_level,
        ap (λ l. search_up l d.logger d.parents) (levels.own d some_level)
            ∙ search_up-level k k c.logger c.parents
            ∙ new (ground arith),
      )
  | inr set ↦
      let some_level : 0 < c.logger.level = ground arith in
      rw set (
        some_level,
        ap (λ l. search_up l c.logger c.parents) (levels.own c some_level) ∙ old some_level,
      )
]

create_logger-IsConfigured :
    (levels : Levels) (debug : Bool) (c : Chain)
    → (c.logger.level ≡ 0
        → has_level_handler levels c ≡ true
        → levels.effective c ≤ default_level debug)
    → IsConfigured levels (create_logger levels debug c)
unfolding create_logger
create_logger-IsConfigured levels debug c h = elim (Bool-cases (has_level_handler levels c)) [
  | inl found ↦ rw found (
      set_level-IsConfigured levels debug c
        (λ unset.
          search_up_mono (levels.effective c) (default_level debug) c.logger c.parents
            (h unset found) found)
        (λ set. ap (λ l. search_up l c.logger c.parents) (sym (levels.own c set)) ∙ found))
  | inr none_found ↦
      let d = add_handler false c in
      rw none_found (
        set_level-IsConfigured levels debug d
          (λ unset. search_up_all (default_level debug) c.logger c.parents)
          (λ set. search_up_all c.logger.level c.logger c.parents))
]

-- The logger is configured once and for all by its first call, unless it inherits a level above the one
-- that the call sets, and handlers for it: it then has a level, a handler on the way up that takes this
-- level, and a further call, with debugging or without, changes nothing.
pub create_logger_configures :
    (levels : Levels) (debug again : Bool) (c : Chain)
    → (c.logger.level ≡ 0
        → has_level_handler levels c ≡ true
        → levels.effective c ≤ default_level debug)
    → IsConfigured levels (create_logger levels debug c)
      × (create_logger levels again (create_logger levels debug c) ≡ create_logger levels debug c)
create_logger_configures levels debug again c h =
    let (some_level, has) = create_logger-IsConfigured levels debug c h in
    ((some_level, has), left_alone levels again (create_logger levels debug c) some_level has)
