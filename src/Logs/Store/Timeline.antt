-- ===== src/Logs/Store/Timeline.antt =====
-- src/logs/store.rs: the entries of a service in the order of time, which the pages are cut from.
use vpsiner.Prelude.{
  ◌≡◌, ◌≢◌, String, List, [], ◌∷◌, map, none, some, ℤ, All, concat, lookup, Eq-Text, Text, leb_ℤ,
  Option-cases, Bool-cases, inl, inr, arith,
}
use vpsiner.Logs.Weeks.{Weeks}
use vpsiner.Logs.Rows.{LogRow, StoredLog, order_rows, decode_rows}
use vpsiner.Logs.Rows.Readable.{IsRow}
use vpsiner.Logs.Rows.Inserted.{IsKeyed}
use vpsiner.Logs.Store.{Platform, ServiceDir, or_empty, insert_week, read_week_files}

-- No two files are databases of one week.
abbrev pub OneFileAWeek : Weeks → ServiceDir → Type 0
OneFileAWeek w [] = Unit
OneFileAWeek w (file ∷ dir) =
    All
      (λ (other : Text × List LogRow).
        (start : ℤ) → w.start file.0 ≡ some start → w.start other.0 ≢ some start)
      dir
    × OneFileAWeek w dir

-- The name is that of the week database of some time.
abbrev pub IsNamed : Weeks → Text → Type 0
IsNamed w name = (ts : ℤ) × (w.name ts ≡ some name)

-- Each week database has the name that the store gives it.
abbrev pub AllNamed : Weeks → ServiceDir → Type 0
AllNamed w dir =
    All
      (λ (file : Text × List LogRow). (start : ℤ) → w.start file.0 ≡ some start → IsNamed w file.0)
      dir

-- A directory as the store writes it.
pub record IsDir (w : Weeks) (dir : ServiceDir) : Type 0 where
  pub rows : (name : Text) → All IsRow (or_empty (lookup name dir))
  pub keyed : (name : Text) → IsKeyed (or_empty (lookup name dir))
  pub one_file : OneFileAWeek w dir
  pub named : AllNamed w dir

module _ (service : String) (dir : ServiceDir) where
  -- All entries of a week, oldest first.
  abbrev pub entries : Text × ℤ → List StoredLog
  entries w = decode_rows service w.0 w.1 (order_rows (or_empty (lookup w.0 dir)))

module _ (p : Platform) where
  abbrev pub timeline : String → ServiceDir → List StoredLog
  timeline service dir = concat (map (entries service dir) (read_week_files p dir))

  abbrev pub Starts : Text × ℤ → Type 0
  Starts w = p.weeks.start w.0 ≡ some w.1

  pub insert_week-All :
      (P : Text × ℤ → Type 0) (w : Text × ℤ) (ws : List (Text × ℤ))
      → P w
      → All P ws
      → All P (insert_week w ws)
  unfolding insert_week
  insert_week-All P w [] h k = (h, tt)
  insert_week-All P w (x ∷ ws) h k = elim (Bool-cases (leb_ℤ w.1 x.1)) [
    | inl e ↦ rw e (h, k)
    | inr e ↦ rw e (k.0, insert_week-All P w ws h k.1)
  ]

  pub read_week_files-none :
      (name : Text) (rows : List LogRow) (dir : ServiceDir)
      → p.weeks.start name ≡ none
      → read_week_files p ((name, rows) ∷ dir) ≡ read_week_files p dir
  unfolding read_week_files
  read_week_files-none name rows dir e = ground arith

  pub read_week_files-some :
      (name : Text) (rows : List LogRow) (start : ℤ) (dir : ServiceDir)
      → p.weeks.start name ≡ some start
      → read_week_files p ((name, rows) ∷ dir) ≡ insert_week (name, start) (read_week_files p dir)
  unfolding read_week_files
  read_week_files-some name rows start dir e = ground arith

  pub read_week_files-Starts : (dir : ServiceDir) → All Starts (read_week_files p dir)
  read_week_files-Starts [] = unfold read_week_files in tt
  read_week_files-Starts ((name, rows) ∷ dir) = elim (Option-cases (p.weeks.start name)) [
    | inl e ↦ rw (read_week_files-none name rows dir e) (read_week_files-Starts dir)
    | inr (start, e) ↦ rw (read_week_files-some name rows start dir e) (
        insert_week-All Starts (name, start) (read_week_files p dir) e (read_week_files-Starts dir))
  ]
