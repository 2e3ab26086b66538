-- ===== src/Scheduler/Locks/Defs.antt =====
-- `source_aoi_lock_name` and the two halves of `acquire`, each under the guard of the registry.
use akasha_ingestion.Base.{
  Bool, true, false, not, List, ◌∷◌, String, if◌then◌else◌, ◌==◌, string_eq, any, filter,
}
use Prim.Native.String.{◌++◌}

unfoldable pub source_aoi_lock_name : String → String → String
source_aoi_lock_name source_id aoi_id = "source:" ++ source_id ++ ":aoi:" ++ aoi_id

-- The set `_held`, as a list.
abbrev pub Held : Type 0
Held = List String

abbrev pub is_held : String → Held → Bool
is_held name held = any (λ other. other == name) held

-- Up to the `yield`: whether the lock was taken, and the set after it.
unfoldable pub enter : String → Held → Bool × Held
enter name held = if is_held name held then (false, held) else (true, name ∷ held)

-- `discard`, in the `finally` of a caller that holds the lock.
unfoldable pub leave : String → Held → Held
leave name held = filter (λ other. not (other == name)) held
