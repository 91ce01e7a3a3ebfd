-- ===== src/Logs/Locks/Exclusion.antt =====
-- src/logs/store.rs: which operations on one file the locks keep apart.
use vpsiner.Prelude.{
  ℕ, suc, ◌≡◌, ◌≢◌, refl, sym, ◌∙◌, subst, true, false, List, [], ◌∷◌, ◌++◌, none, some, All,
  All-append, Text, Eq-Text, HashMap, lookup, insert, remove, lookup-insert, eq_text, eq_text_iff,
  Bool-cases, Option-cases, inl, inr, arith,
}
use vpsiner.Prelude.Ordered.{All-split, All-map, All-both}
use vpsiner.Logs.Locks.{
  Task, Locks, no_locks, request, forget_path, Step, requested, acquired, released, forgotten, Run,
  here, step,
}

-- No two of the tasks work on one path.
abbrev pub IsExclusive : List Task → Type 0
IsExclusive [] = Unit
IsExclusive (task ∷ tasks) = All (λ (t : Task). t.0 ≢ task.0) tasks × IsExclusive tasks

-- The task has the mutex under which its path is known.
abbrev IsKnown : HashMap Text ℕ → Task → Type 0
IsKnown locks task = lookup task.0 locks ≡ some task.1

record IsLocked (s : Locks) : Type 0 where
  waiting : All (IsKnown s.operation_locks) s.waiting
  held : All (IsKnown s.operation_locks) s.held
  exclusive : IsExclusive s.held

known-insert :
    (path : Text) (lock : ℕ) (locks : HashMap Text ℕ)
    → lookup path locks ≡ none
    → (task : Task) → IsKnown locks task
    → IsKnown (insert path lock locks) task
known-insert path lock locks e task known = elim (Bool-cases (eq_text path task.0)) [
  | inl same ↦ absurd (cc (e, known, (eq_text_iff path task.0).0 same))
  | inr other ↦ rw (lookup-insert, other) known
]

request-new :
    (path : Text) (s : Locks)
    → lookup path s.operation_locks ≡ none
    → request path s ≡ record {
      operation_locks = insert path s.fresh s.operation_locks;
      fresh = suc s.fresh;
      waiting = (path, s.fresh) ∷ s.waiting;
      held = s.held;
    }
unfolding request
request-new path s e = ground arith

request-known :
    (path : Text) (s : Locks) (lock : ℕ)
    → lookup path s.operation_locks ≡ some lock
    → request path s ≡ record s { waiting = (path, lock) ∷ s.waiting }
unfolding request
request-known path s lock e = ground arith

request-IsLocked : (path : Text) (s : Locks) → IsLocked s → IsLocked (request path s)
request-IsLocked path s h = elim (Option-cases (lookup path s.operation_locks)) [
  | inl missing ↦ subst IsLocked (sym (request-new path s missing)) (record {
    waiting = (
      lookup-insert path path s.fresh s.operation_locks ∙ rw ((eq_text_iff path path).1 refl) refl,
      All-map s.waiting (known-insert path s.fresh s.operation_locks missing) h.waiting,
    );
    held = All-map s.held (known-insert path s.fresh s.operation_locks missing) h.held;
    exclusive = h.exclusive;
  })
  | inr (lock, found) ↦
      subst IsLocked (sym (request-known path s lock found))
        (record { waiting = (found, h.waiting); held = h.held; exclusive = h.exclusive })
]

All-without :
    (P : Task → Type 0) (before after : List Task) (task : Task)
    → All P (before ++ task ∷ after)
    → P task × All P (before ++ after)
All-without P before after task h =
    let (front, rest) = All-split P before (task ∷ after) h in
    (rest.0, All-append P before after front rest.1)

IsExclusive-without :
    (before after : List Task) (task : Task)
    → IsExclusive (before ++ task ∷ after)
    → IsExclusive (before ++ after)
IsExclusive-without [] after task h = h.1
IsExclusive-without (t ∷ before) after task h = (
  (All-without (λ u. u.0 ≢ t.0) before after task h.0).1,
  IsExclusive-without before after task h.1,
)

-- Two tasks on one path have one mutex, so the free mutex of a task is that of a free path.
other_path :
    (locks : HashMap Text ℕ) (task : Task)
    → IsKnown locks task
    → (t : Task) → IsKnown locks t
    → t.1 ≢ task.1
    → t.0 ≢ task.0
other_path locks task known t held free same = free (cc (known, held, same))

Step-IsLocked : (s t : Locks) → IsLocked s → Step false s t → IsLocked t
Step-IsLocked s t h (requested path) = request-IsLocked path s h
Step-IsLocked s t h (acquired before after task e free) =
    let (known, waiting) =
      All-without (IsKnown s.operation_locks) before after task
        (subst (All (IsKnown s.operation_locks)) e h.waiting) in
    record {
      waiting = waiting;
      held = (known, h.held);
      exclusive =
          (All-both s.held (other_path s.operation_locks task known) h.held free, h.exclusive);
    }
Step-IsLocked s t h (released before after task e) = record {
  waiting = h.waiting;
  held =
      (All-without (IsKnown s.operation_locks) before after task
        (subst (All (IsKnown s.operation_locks)) e h.held)).1;
  exclusive = IsExclusive-without before after task (subst IsExclusive e h.exclusive);
}
Step-IsLocked s t h (forgotten before after task f e) = absurd (cc f)

Run-IsLocked : (s t : Locks) → IsLocked s → Run false s t → IsLocked t
Run-IsLocked s t h here = h
Run-IsLocked s t h (step run last) = Step-IsLocked _ t (Run-IsLocked s _ h run) last

-- As long as no deletion forgets a lock, no two tasks hold the locks of one file at the same time,
-- however their steps follow one another.
pub held-IsExclusive : (s : Locks) → Run false no_locks s → IsExclusive s.held
held-IsExclusive s run =
    IsLocked.exclusive
      (Run-IsLocked no_locks s (record { waiting = tt; held = tt; exclusive = tt }) run)

found_first : (path : Text) (lock : ℕ) → lookup path ((path, lock) ∷ []) ≡ some lock
unfolding lookup
found_first path lock = rw ((eq_text_iff path path).1 refl) refl

forgotten_first : (path : Text) (lock : ℕ) → remove path ((path, lock) ∷ []) ≡ []
unfolding remove
forgotten_first path lock = rw ((eq_text_iff path path).1 refl) refl

abbrev one_lock : Text → List Task → List Task → Locks
one_lock path waiting held = record {
  operation_locks = (path, 0) ∷ [];
  fresh = 1;
  waiting = waiting;
  held = held;
}

abbrev forgotten_lock : List Task → List Task → Locks
forgotten_lock waiting held = record {
  operation_locks = [];
  fresh = 1;
  waiting = waiting;
  held = held;
}

-- A task holds the lock of the path, and another waits for it.
one_waits : (path : Text) → Run true no_locks (one_lock path ((path, 0) ∷ []) ((path, 0) ∷ []))
unfolding lookup insert
one_waits path =
    step
      (step
        (step here (subst (Step true no_locks) (request-new path no_locks refl) (requested path)))
        (acquired [] [] (path, 0) refl tt))
      (subst (Step true (one_lock path [] ((path, 0) ∷ [])))
        (request-known path (one_lock path [] ((path, 0) ∷ [])) 0 (found_first path 0))
        (requested path))

-- The first task forgets the lock and is done; the second has the old mutex.
old_lock : (path : Text) → Run true no_locks (forgotten_lock [] ((path, 0) ∷ []))
unfolding forget_path
old_lock path =
    step
      (step
        (step (one_waits path) (
          subst
            (λ locks. Step true (one_lock path ((path, 0) ∷ []) ((path, 0) ∷ [])) (record {
              operation_locks = locks;
              fresh = 1;
              waiting = (path, 0) ∷ [];
              held = (path, 0) ∷ [];
            }))
            (forgotten_first path 0) (forgotten [] [] (path, 0) refl refl)))
        (released [] [] (path, 0) refl))
      (acquired [] [] (path, 0) refl tt)

-- For every file there is a run, with one deletion that forgets the lock of the file, after which
-- two tasks hold locks of it at the same time: a task that had waited has the old mutex, and a
-- later one a new mutex.
pub forgotten-shared :
    (path : Text) → (s : Locks) × Run true no_locks s × (s.held ≡ (path, 1) ∷ (path, 0) ∷ [])
unfolding lookup
forgotten-shared path = (
  _,
  step
      (step (old_lock path) (
        subst (Step true (forgotten_lock [] ((path, 0) ∷ [])))
          (request-new path (forgotten_lock [] ((path, 0) ∷ [])) refl) (requested path)))
      (acquired [] [] (path, 1) refl ((λ e. omega (arith, e)), tt)),
  refl,
)
