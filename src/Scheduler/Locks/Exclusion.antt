-- ===== src/Scheduler/Locks/Exclusion.antt =====
-- At most one caller at a time is inside the lock of a source and area.
use akasha_ingestion.Base.{
  ℕ, suc, Bool, true, false, List, [], ◌∷◌, String, ◌≡◌, refl, arith, eq_iff, if◌then◌else◌, ◌==◌,
  string_eq, nat_eq, pair_eq, count,
}
use akasha_ingestion.Scheduler.Locks.Defs.{Held, is_held, enter, leave}

-- The registry with the callers inside a `with` block that took its lock, as thread and name.
pub record Locked : Type 0 where
  pub held : Held
  pub inside : List (ℕ × String)

abbrev pub holds : String → ℕ × String → Bool
holds name (thread, other) = other == name

-- `rest` is `xs` less one occurrence of `x`.
pub data Removes (x : ℕ × String) : List (ℕ × String) → List (ℕ × String) → Type 0 where
  hit : {y : ℕ × String} {xs : List (ℕ × String)} → x ≡ y → Removes x (y ∷ xs) xs
  skip :
      {y : ℕ × String} {xs rest : List (ℕ × String)}
      → Removes x xs rest
      → Removes x (y ∷ xs) (y ∷ rest)

-- Threads take and leave locks in any order; a thread leaves a lock that it is inside.
pub data Step (s : Locked) : Locked → Type 0 where
  take :
      (thread : ℕ) (name : String) {held : Held}
      → enter name s.held ≡ (true, held)
      → Step s (record { held = held; inside = (thread, name) ∷ s.inside })
  refuse :
      (thread : ℕ) (name : String) {held : Held}
      → enter name s.held ≡ (false, held)
      → Step s (record { held = held; inside = s.inside })
  finish :
      (thread : ℕ) (name : String) {rest : List (ℕ × String)}
      → Removes (thread, name) s.inside rest
      → Step s (record { held = leave name s.held; inside = rest })

abbrev pub unlocked : Locked
unlocked = record { held = []; inside = [] }

pub data Reach : Locked → Type 0 where
  start : Reach unlocked
  next : {s t : Locked} → Reach s → Step s t → Reach t

-- The set of the registry says exactly which locks a caller is inside, and each of them once.
pub record IsExclusive (s : Locked) : Type 0 where
  pub one_each :
      (name : String) → count (holds name) s.inside ≡ (if is_held name s.held then 1 else 0)

count-Removes :
    (thread : ℕ) (name other : String) {xs rest : List (ℕ × String)}
    → Removes (thread, name) xs rest
    → count (holds other) xs
      ≡ (if name == other then suc (count (holds other) rest) else count (holds other) rest)
count-Removes thread name other (hit {y} {xs} e) = ground arith
count-Removes thread name other (skip {y} {xs} {rest} r) =
    ground (arith, count-Removes thread name other r)

is_held-leave :
    (name other : String) (held : Held)
    → is_held other (leave name held) ≡ (if name == other then false else is_held other held)
unfolding leave
is_held-leave name other [] = ground arith
is_held-leave name other (x ∷ held) =
    ground (arith, is_held-leave name other held, eq_iff x name, eq_iff x other, eq_iff name other)

Step-IsExclusive : {s t : Locked} → Step s t → IsExclusive s → IsExclusive t
unfolding enter
Step-IsExclusive {s} (take thread name e) v = record {
  one_each = λ other. ground (arith, v.one_each other, v.one_each name, eq_iff name other);
}
Step-IsExclusive {s} (refuse thread name e) v = record {
  one_each = λ other. ground (arith, v.one_each other);
}
Step-IsExclusive {s} (finish thread name r) v = record {
  one_each = λ other.
      ground (
        arith,
        v.one_each other,
        is_held-leave name other s.held,
        count-Removes thread name other r,
      );
}

-- However the threads' calls interleave, at most one caller is inside the lock of a source and
-- area, and the registry holds a lock exactly when one is.
pub Reach-IsExclusive : {s : Locked} → Reach s → IsExclusive s
Reach-IsExclusive start = record { one_each = λ name. refl }
Reach-IsExclusive (next r st) = Step-IsExclusive st (Reach-IsExclusive r)
