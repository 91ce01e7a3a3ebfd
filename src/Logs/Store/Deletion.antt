-- ===== src/Logs/Store/Deletion.antt =====
-- src/logs/store.rs: deleting the week databases of before a cutoff.
use vpsiner.Prelude.{
  Bool, true, false, ◌&&◌, ◌||◌, List, [], ◌∷◌, ◌++◌, none, some, ◌==◌, ℤ, ltb_ℤ, ltb,
  if◌then◌else◌, Eq-Text, Text,
}
use vpsiner.Error.{storage}
use vpsiner.Logs.Weeks.{has_db_extension}
use vpsiner.Logs.Store.{Platform, ServiceDir, Root, Answer, done, failed, panicked, and_then}

-- The order of texts, by their characters.
unfoldable pub leb_text : Text → Text → Bool
leb_text [] ys = true
leb_text (x ∷ xs) [] = false
leb_text (x ∷ xs) (y ∷ ys) = ltb x y || (x == y && leb_text xs ys)

unfoldable pub insert_text : Text → List Text → List Text
insert_text x [] = x ∷ []
insert_text x (y ∷ ys) =
    let rest = y ∷ insert_text x ys in if leb_text x y then x ∷ y ∷ ys else rest

-- `removed.sort()`
unfoldable pub sort_texts : List Text → List Text
sort_texts [] = []
sort_texts (x ∷ xs) = insert_text x (sort_texts xs)

module _ (p : Platform) where
  -- Whether `delete_before` removes a file of a service's directory.
  unfoldable pub is_expired : ℤ → Text → Bool
  is_expired cutoff_ms name =
      has_db_extension name
      && (elim (p.weeks.start name) [ none ↦ false | some start ↦ ltb_ℤ start cutoff_ms ])

  -- The files of one directory, each removed unless that is refused, which ends the pass.
  unfoldable pub delete_files :
      (Text → Bool) → ℤ → Text → ServiceDir → Answer (List Text) × ServiceDir
  delete_files refused cutoff_ms service_name [] = (done [], [])
  delete_files refused cutoff_ms service_name ((name, rows) ∷ dir) =
      let (answer, left) = delete_files refused cutoff_ms service_name dir in
      if is_expired cutoff_ms name
      then if refused name
        then (failed storage, (name, rows) ∷ dir)
        else (and_then answer (λ names. done ((service_name ++ b'/' ∷ name) ∷ names)), left)
      else (answer, (name, rows) ∷ left)

  -- The directories in the root. What the root has of the empty name are files of its own, which are
  -- no directory and passed over.
  unfoldable pub delete_dirs : (Text → Bool) → ℤ → Root → Answer (List Text) × Root
  delete_dirs refused cutoff_ms [] = (done [], [])
  delete_dirs refused cutoff_ms (([], dir) ∷ root) =
      let (later, others) = delete_dirs refused cutoff_ms root in (later, ([], dir) ∷ others)
  delete_dirs refused cutoff_ms ((c ∷ name, dir) ∷ root) =
      let service_name = c ∷ name in
      let (answer, left) = delete_files refused cutoff_ms service_name dir in
      let (later, others) = delete_dirs refused cutoff_ms root in
      elim answer [
        | failed e ↦ (failed e, (service_name, left) ∷ root)
        | panicked ↦ (panicked, (service_name, left) ∷ root)
        | done names ↦
            (and_then later (λ more. done (names ++ more)), (service_name, left) ∷ others)
      ]

  unfoldable pub delete_before : Bool → (Text → Bool) → ℤ → Root → Answer (List Text) × Root
  delete_before unreadable refused cutoff_ms root =
      let (answer, left) = delete_dirs refused cutoff_ms root in
      if unreadable
      then (failed storage, root)
      else (and_then answer (λ names. done (sort_texts names)), left)
