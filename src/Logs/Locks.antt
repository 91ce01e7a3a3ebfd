-- ===== src/Logs/Locks.antt =====
-- src/logs/store.rs: the operation locks of the week files, and the tasks that wait for them or hold
-- them. Each mutex has a number; a task is the path it works on with the mutex that it was given.
pub mod Exclusion
use vpsiner.Prelude.{
  ℕ, suc, ◌≡◌, ◌≢◌, Bool, true, false, List, [], ◌∷◌, ◌++◌, Option, none, some, All, Text, Eq-Text,
  HashMap, lookup, insert, remove,
}

abbrev pub Task : Type 0
Task = Text × ℕ

pub record Locks : Type 0 where
  pub operation_locks : HashMap Text ℕ
  -- The number of the next mutex.
  pub fresh : ℕ
  pub waiting : List Task
  pub held : List Task

abbrev pub no_locks : Locks
no_locks = record { operation_locks = []; fresh = 0; waiting = []; held = [] }

-- The first half of `lock_path`: the mutex of the path, which is made if there is none.
unfoldable pub request : Text → Locks → Locks
request path s = elim (lookup path s.operation_locks) [
  | some lock ↦ record s { waiting = (path, lock) ∷ s.waiting }
  | none ↦ record {
    operation_locks = insert path s.fresh s.operation_locks;
    fresh = suc s.fresh;
    waiting = (path, s.fresh) ∷ s.waiting;
    held = s.held;
  }
]

unfoldable pub forget_path : Text → Locks → Locks
forget_path path s = record s { operation_locks = remove path s.operation_locks }

-- The steps of the tasks, `forgets` being whether a deletion may forget the lock of its file.
pub data Step (forgets : Bool) (s : Locks) : Locks → Type 0 where
  requested : (path : Text) → Step forgets s (request path s)
  -- `lock_owned` of a mutex that nobody holds.
  acquired :
      (before after : List Task) (task : Task)
      → s.waiting ≡ before ++ task ∷ after
      → All (λ (t : Task). t.1 ≢ task.1) s.held
      → Step forgets s (record s { waiting = before ++ after; held = task ∷ s.held })
  -- The guard is dropped.
  released :
      (before after : List Task) (task : Task)
      → s.held ≡ before ++ task ∷ after
      → Step forgets s (record s { held = before ++ after })
  -- `delete_before` forgets the lock of a path that it holds.
  forgotten :
      (before after : List Task) (task : Task)
      → forgets ≡ true
      → s.held ≡ before ++ task ∷ after
      → Step forgets s (forget_path task.0 s)

pub data Run (forgets : Bool) (s : Locks) : Locks → Type 0 where
  here : Run forgets s s
  step : {t u : Locks} → Run forgets s t → Step forgets t u → Run forgets s u
