-- ===== src/Logs/Store/Appended.antt =====
-- src/logs/store.rs: an append adds its lines to the timeline, each as often as it was given, and
-- keeps what was there. Lists are compared by how many of their elements pass a test, for any test.
use mathlib.Core.List.{map-append}
use vpsiner.Prelude.{
  ℕ, ◌+◌, ◌≡◌, refl, sym, ap, subst, ◌∙◌, Bool, true, false, String, List, [], ◌∷◌, ◌++◌, map,
  Option, none, some, ℤ, All, keep, HashMap, lookup, insert, Eq-Text, Text, eq_text_iff, codes,
  arith, if◌then◌else◌, is_some, lookup-insert,
}
use vpsiner.Prelude.Ordered.{All-map}
use vpsiner.Model.Logs.{LogLine}
use vpsiner.Logs.Helpers.{safe_service_path}
use vpsiner.Logs.Weeks.{IsWeeks, near}
use vpsiner.Logs.Rows.{insert_rows}
use vpsiner.Logs.Rows.Inserted.{stored_line}
use vpsiner.Logs.Store.{Platform, Refusals, ServiceDir, Root, done, or_empty}
use vpsiner.Logs.Store.Appending.{push_line, group_by_week, append_weeks, append_groups, append}
use vpsiner.Logs.Store.Timeline.{timeline}
use vpsiner.Logs.Store.Scan.{IsCalm}
use vpsiner.Logs.Store.Append.{
  IsGroup, IsRoot, IsLineOf, HasId, append_weeks-cons, line-IsOfWeek, append_weeks-IsDir,
  group_by_week-IsGroup,
}
use vpsiner.Logs.Store.Tally.{
  tally, tally-append, tally-cons, total, part, total-insert, entry_test, row_tally-insert_rows,
  file_tally, file_tally-some, part-found, timeline-total,
}

found_inserted :
    (path : Text) (dir : ServiceDir) (root : Root) → lookup path (insert path dir root) ≡ some dir
found_inserted path dir root = rw (lookup-insert, (eq_text_iff path path).1 refl) refl

calm_if {ℓ} : {A : Type ℓ} (b : Bool) (x y : A) → b ≡ false → (if b then x else y) ≡ y
calm_if b x y e = rw e refl

both_pass {ℓ} :
    {A : Type ℓ} (a b : Bool) (x y z : A)
    → a ≡ false
    → b ≡ false
    → (if a then x else if b then y else z) ≡ z
both_pass a b x y z e f = rw (e, f) refl

module _ (q : LogLine → Bool) (p : Platform) (service : String) where
  abbrev pub stored : List LogLine → List LogLine
  stored ls = map (stored_line p.is_whitespace service) ls

  -- The lines of a group, as they are read back.
  abbrev group_tally : Text → List LogLine → ℕ
  group_tally week ls = tally q (stored ls)

  group_found :
      (week : Text) (by_week : HashMap Text (List LogLine))
      → part group_tally week (lookup week by_week)
        ≡ tally q (stored (or_empty (lookup week by_week)))
  group_found week by_week = by_cases (lookup week by_week)
    where
      by_cases :
          (o : Option (List LogLine)) → part group_tally week o ≡ tally q (stored (or_empty o))
      by_cases none = refl
      by_cases (some ls) = refl

  kept_cons :
      (l : LogLine) (ls : List LogLine)
      → tally q (stored (keep (λ (l : LogLine). is_some (p.weeks.name l.ts)) (l ∷ ls)))
        ≡ tally q (stored (if is_some (p.weeks.name l.ts) then l ∷ [] else []))
          + tally q (stored (keep (λ (l : LogLine). is_some (p.weeks.name l.ts)) ls))
  kept_cons l ls =
      by_cases (is_some (p.weeks.name l.ts))
        (keep (λ (l : LogLine). is_some (p.weeks.name l.ts)) ls)
    where
      by_cases :
          (b : Bool) (rest : List LogLine)
          → tally q (stored (if b then l ∷ rest else rest))
            ≡ tally q (stored (if b then l ∷ [] else [])) + tally q (stored rest)
      by_cases true rest = tally-cons q (stored_line p.is_whitespace service l) (stored rest)
      by_cases false rest = omega arith

  module _ (laws : IsWeeks p.weeks) where
    -- One transaction adds its lines.
    insert-total :
        (week : Text) (start : ℤ) (ls : List LogLine) (dir : ServiceDir)
        → p.weeks.start week ≡ some start
        → All (IsLineOf p laws week) ls
        → total
            (file_tally q p service)
            (insert week (insert_rows p.is_whitespace start ls (or_empty (lookup week dir))) dir)
          ≡ total (file_tally q p service) dir + group_tally week ls
    insert-total week start ls dir s h =
        let rows = or_empty (lookup week dir) in
        omega (
          arith,
          total-insert (file_tally q p service) week (insert_rows p.is_whitespace start ls rows)
              dir,
          file_tally-some q p service week (insert_rows p.is_whitespace start ls rows) start s,
          row_tally-insert_rows q service week start p.is_whitespace (near laws week start s) ls
              rows (All-map ls (λ l k. line-IsOfWeek p laws week start l s k) h),
          part-found q p service week start s dir,
        )

    append_weeks-total :
        (refuses : Refusals)
        → IsCalm refuses
        → (groups : HashMap Text (List LogLine)) (dir : ServiceDir) → All (IsGroup p laws) groups
        → (total (file_tally q p service) (append_weeks p refuses groups dir).1
            ≡ total (file_tally q p service) dir + total group_tally groups)
          × ((append_weeks p refuses groups dir).0 ≡ done tt)
    append_weeks-total refuses calm [] dir g = unfold append_weeks in (omega arith, refl)
    append_weeks-total refuses calm ((week, ls) ∷ rest) dir g =
        let ((ts, e), _) = g.0 in
        let (start, s, _, _) = laws.holds ts week e in
        let added =
          insert week (insert_rows p.is_whitespace start ls (or_empty (lookup week dir))) dir in
        let (rec, done_rec) = append_weeks-total refuses calm rest added g.1 in
        let eq : append_weeks p refuses ((week, ls) ∷ rest) dir
            ≡ append_weeks p refuses rest added =
          append_weeks-cons p laws refuses week start ls rest dir s
          ∙ both_pass (refuses.opening week) (refuses.writing week) _ _ _ (calm.opening week)
              (calm.writing week) in
        subst
          (λ r.
            (total (file_tally q p service) r.1
              ≡ total (file_tally q p service) dir + (group_tally week ls + total group_tally rest))
            × (r.0 ≡ done tt))
          (sym eq) (omega (arith, rec, insert-total week start ls dir s g.0.1), done_rec)

    -- Each line that has a week is in one group.
    push_line-total :
        (o : Option Text) (l : LogLine) (by_week : HashMap Text (List LogLine))
        → total group_tally (push_line o l by_week)
          ≡ total group_tally by_week + tally q (stored (if is_some o then l ∷ [] else []))
    unfolding push_line
    push_line-total none l by_week = omega arith
    push_line-total (some week) l by_week =
        let ls = or_empty (lookup week by_week) in
        omega (
          arith,
          total-insert group_tally week (ls ++ l ∷ []) by_week,
          ap (tally q) (map-append (stored_line p.is_whitespace service) ls (l ∷ [])),
          tally-append q (stored ls) (stored (l ∷ [])),
          group_found week by_week,
        )

    abbrev pub has_week : LogLine → Bool
    has_week l = is_some (p.weeks.name l.ts)

    group_by_week-total :
        (ls : List LogLine) (by_week : HashMap Text (List LogLine))
        → total group_tally (group_by_week p ls by_week)
          ≡ total group_tally by_week + tally q (stored (keep has_week ls))
    unfolding group_by_week
    group_by_week-total [] by_week = omega arith
    group_by_week-total (l ∷ ls) by_week = omega (
      arith,
      group_by_week-total ls (push_line (p.weeks.name l.ts) l by_week),
      push_line-total (p.weeks.name l.ts) l by_week,
      kept_cons l ls,
    )

    abbrev tally_of : Text → Root → ℕ
    tally_of path root = tally (entry_test q) (timeline p service (or_empty (lookup path root)))

    append_groups-tally :
        (refuses : Refusals)
        → IsCalm refuses
        → (path : Text) (groups : HashMap Text (List LogLine)) (root : Root)
        → All (IsGroup p laws) groups
        → IsRoot p laws root
        → ((append_groups p refuses path groups root).0 ≡ done tt)
          × (tally_of path (append_groups p refuses path groups root).1
              ≡ tally_of path root + total group_tally groups)
    append_groups-tally refuses calm path [] root g valid =
        unfold append_groups in (refl, omega arith)
    append_groups-tally refuses calm path (group ∷ groups) root g valid =
        let dir = or_empty (lookup path root) in
        let written = append_weeks p refuses (group ∷ groups) dir in
        let (sum, answer) = append_weeks-total refuses calm (group ∷ groups) dir g in
        let kept = append_weeks-IsDir p laws refuses (group ∷ groups) dir g (valid path) in
        let eq : append_groups p refuses path (group ∷ groups) root
            ≡ (written.0, insert path written.1 root) =
          unfold append_groups in calm_if refuses.directory _ _ calm.directory in
        subst
          (λ r.
            (r.0 ≡ done tt)
            × (tally_of path r.1 ≡ tally_of path root + total group_tally (group ∷ groups)))
          (sym eq)
          (
            answer,
            ap (λ o. tally (entry_test q) (timeline p service (or_empty o)))
                  (found_inserted path written.1 root)
                ∙ omega (
                  arith,
                  timeline-total q p service written.1 kept.one_file,
                  timeline-total q p service dir (valid path).one_file,
                  sum,
                ),
          )

    -- Appending lines with ids of six bytes, nothing refused, succeeds, and for any test on lines
    -- the timeline of the service's path then has as many entries that pass as before and, of the
    -- lines that have a week, as many again as pass in the form in which they are read back: none
    -- is lost, changed or doubled.
    pub append-tally :
        (refuses : Refusals) (ls : List LogLine) (root : Root)
        → IsCalm refuses
        → All HasId ls
        → IsRoot p laws root
        → (let path = safe_service_path (codes service) in
            let (answer, root') = append p refuses service ls root in
            (answer ≡ done tt)
            × (tally (entry_test q) (timeline p service (or_empty (lookup path root')))
                ≡ tally (entry_test q) (timeline p service (or_empty (lookup path root)))
                  + tally q (stored (keep has_week ls))))
    append-tally refuses ls root calm h valid =
        let path = safe_service_path (codes service) in
        let groups = group_by_week p ls [] in
        let (answer, added) =
          append_groups-tally refuses calm path groups root
            (group_by_week-IsGroup p laws ls [] h tt) valid in
        unfold append in (answer, omega (arith, added, group_by_week-total ls []))
