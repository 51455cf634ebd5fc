-- ===== src/Storage/Open.antt =====
-- `Open` of internal/storage/db.go: the calls to the database that it makes, and what becomes of the
-- handle.
use hyprbot.Strings.{trim_space, to_lower}
use hyprbot.Prelude.{
  inl, inr, ◌++◌, ◌||◌, text_has_eq, Bool-cases, refl, false, ◌&&◌, [], failed, text, ◌∷◌, ◌==◌,
  is_empty, err, ok, suc, ◌≡◌, ℕ, if◌then◌else◌, true, Result, not, List, Text, Bool, String,
}

-- `normalizeDriver`
unfoldable pub normalize_driver : Text → Text
normalize_driver driver =
    let d = to_lower (trim_space driver) in
    if d == text "postgres" || d == text "pgx"
    then text "postgres"
    else if d == text "sqlite" || d == text "sqlite3"
    then text "sqlite"
    else d

-- The calls of `Open`. The three pool settings, which cannot fail, are one.
pub data DbCall : Type 0 where
  open_db : Text → Text → DbCall
  set_pool ping set_dialect init_schema close_db : DbCall
  up : Text → DbCall

-- Which of the calls succeed.
pub record Answers : Type 0 where
  pub opens : Bool
  pub pings : Bool
  pub sets_dialect : Bool
  pub migrates : Bool
  pub inits_schema : Bool

-- storage.Store, with `dollar` for the placeholder format.
pub record Opened : Type 0 where
  pub driver : Text
  pub dollar : Bool

-- A failure closes the handle.
abbrev close_after : String → List DbCall → Result Opened × List DbCall
close_after label calls = (err (failed label), calls ++ close_db ∷ [])

-- sqlDriver
abbrev sql_driver : Text → Text
sql_driver driver = if driver == text "postgres" then text "pgx" else driver

abbrev store_of : Text → List DbCall → Result Opened × List DbCall
store_of driver calls = (ok (record { driver = driver; dollar = driver == text "postgres" }), calls)

abbrev or_migrations : Text → Text
or_migrations dir = if is_empty dir then text "migrations" else dir

-- The switch over the driver, behind the calls that were made.
unfoldable pub migrate : Answers → Text → Text → List DbCall → Result Opened × List DbCall
migrate a driver dir calls =
    if driver == text "postgres"
    then (if not a.sets_dialect
        then close_after "set goose dialect" (calls ++ set_dialect ∷ [])
        else if not a.migrates
        then close_after "run migrations" (calls ++ set_dialect ∷ up (or_migrations dir) ∷ [])
        else store_of driver (calls ++ set_dialect ∷ up (or_migrations dir) ∷ []))
    else if driver == text "sqlite"
    then (if not a.inits_schema
        then close_after "init sqlite schema" (calls ++ init_schema ∷ [])
        else store_of driver (calls ++ init_schema ∷ []))
    else close_after "unsupported driver" calls

-- `Open`: its result, and the calls that it has made.
unfoldable pub open_store : Answers → Text → Text → Bool → Text → Result Opened × List DbCall
unfolding migrate normalize_driver
open_store a driver dsn auto_migrate dir =
    let d = normalize_driver driver in
    let calls = open_db (sql_driver d) dsn ∷ set_pool ∷ ping ∷ [] in
    if is_empty dsn
    then (err (failed "dsn is empty"), [])
    else if not a.opens
    then (err (failed "open db"), open_db (sql_driver d) dsn ∷ [])
    else if not a.pings
    then close_after "ping db" calls
    else if auto_migrate
    then migrate a d dir calls
    else store_of d calls

-- How often the handle is closed.
abbrev pub closes : List DbCall → ℕ
closes [] = 0
closes (close_db ∷ calls) = suc (closes calls)
closes (open_db d s ∷ calls) = closes calls
closes (set_pool ∷ calls) = closes calls
closes (ping ∷ calls) = closes calls
closes (set_dialect ∷ calls) = closes calls
closes (init_schema ∷ calls) = closes calls
closes (up d ∷ calls) = closes calls

-- The handle that was opened is closed exactly once if there is an error, and never if there is none.
abbrev pub IsClean : Bool → Result Opened × List DbCall → Type 0
IsClean opened (ok s, calls) = closes calls ≡ 0
IsClean opened (err e, calls) = closes calls ≡ (if opened then 1 else 0)

IsClean-if :
    (o b : Bool) (x y : Result Opened × List DbCall)
    → (b ≡ true → IsClean o x)
    → (b ≡ false → IsClean o y)
    → IsClean o (if b then x else y)
IsClean-if o true x y h k = h refl
IsClean-if o false x y h k = k refl

migrate-IsClean :
    (a : Answers) (driver dir : Text) (d s : Text)
    → IsClean true (migrate a driver dir (open_db d s ∷ set_pool ∷ ping ∷ []))
unfolding migrate
migrate-IsClean a driver dir d s =
    IsClean-if true (driver == text "postgres") _ _
      (λ p.
        IsClean-if true (not a.sets_dialect) _ _ (λ q. refl)
          (λ q. IsClean-if true (not a.migrates) _ _ (λ r. refl) (λ r. refl)))
      (λ p.
        IsClean-if true (driver == text "sqlite") _ _
          (λ q. IsClean-if true (not a.inits_schema) _ _ (λ r. refl) (λ r. refl)) (λ q. refl))

-- Whichever calls fail, Open closes the handle that it has opened exactly once if it returns an
-- error, and not at all if it returns a store or has opened nothing.
pub open_store-IsClean :
    (a : Answers) (driver dsn : Text) (auto_migrate : Bool) (dir : Text)
    → IsClean (not (is_empty dsn) && a.opens) (open_store a driver dsn auto_migrate dir)
unfolding open_store
open_store-IsClean a driver [] auto_migrate dir = refl
open_store-IsClean a driver (c ∷ dsn) auto_migrate dir = elim (Bool-cases a.opens) [
  | inr e ↦ rw e refl
  | inl e ↦ rw e (
      IsClean-if true (not a.pings) _ _ (λ q. refl)
        (λ q. IsClean-if true auto_migrate _ _ (λ r. migrate-IsClean a _ dir _ _) (λ r. refl)))
]
