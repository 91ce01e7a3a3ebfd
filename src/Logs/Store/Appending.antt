-- ===== src/Logs/Store/Appending.antt =====
-- src/logs/store.rs: appending lines to the week databases of a service.
use vpsiner.Prelude.{
  String, List, [], ◌∷◌, ◌++◌, Option, none, some, if◌then◌else◌, Eq-Text, Text, codes, HashMap,
  lookup, insert,
}
use vpsiner.Error.{storage}
use vpsiner.Model.Logs.{LogLine}
use vpsiner.Logs.Helpers.{safe_service_path}
use vpsiner.Logs.Rows.{insert_rows}
use vpsiner.Logs.Store.{
  Platform, Refusals, ServiceDir, Root, Answer, done, failed, panicked, or_empty,
}

-- `by_week.entry(week).or_default().push(line)`, and a line of no week is left out.
unfoldable pub push_line :
    Option Text → LogLine → HashMap Text (List LogLine) → HashMap Text (List LogLine)
push_line none l by_week = by_week
push_line (some week) l by_week = insert week (or_empty (lookup week by_week) ++ l ∷ []) by_week

module _ (p : Platform) where
  unfoldable pub group_by_week :
      List LogLine → HashMap Text (List LogLine) → HashMap Text (List LogLine)
  group_by_week [] by_week = by_week
  group_by_week (l ∷ lines) by_week = group_by_week lines (push_line (p.weeks.name l.ts) l by_week)

  -- The loop over the weeks, one transaction for each.
  unfoldable pub append_weeks :
      Refusals → HashMap Text (List LogLine) → ServiceDir → Answer (Unit {0}) × ServiceDir
  append_weeks refuses [] dir = (done tt, dir)
  append_weeks refuses ((week, lines) ∷ rest) dir = elim (p.weeks.start week) [
    | none ↦ (panicked, dir)
    | some week_start ↦
        let rows = or_empty (lookup week dir) in
        let written =
          append_weeks refuses rest
            (insert week (insert_rows p.is_whitespace week_start lines rows) dir) in
        if refuses.opening week
        then (failed storage, dir)
        else if refuses.writing week
        then (failed storage, insert week rows dir)
        else written
  ]

  -- The lines of no week at all leave the disk alone; otherwise the directory is made first.
  unfoldable pub append_groups :
      Refusals → Text → HashMap Text (List LogLine) → Root → Answer (Unit {0}) × Root
  append_groups refuses name [] root = (done tt, root)
  append_groups refuses name (group ∷ groups) root =
      let (answer, dir) = append_weeks refuses (group ∷ groups) (or_empty (lookup name root)) in
      if refuses.directory then (failed storage, root) else (answer, insert name dir root)

  unfoldable pub append : Refusals → String → List LogLine → Root → Answer (Unit {0}) × Root
  append refuses service lines root =
      append_groups refuses (safe_service_path (codes service)) (group_by_week lines []) root
