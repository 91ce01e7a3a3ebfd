-- ===== src/Logs/Store/Append.antt =====
-- src/logs/store.rs: an append leaves a directory as the store writes it, whatever is refused.
use vpsiner.Prelude.{
  ◌≡◌, ◌≢◌, refl, sym, subst, ◌∙◌, Bool, true, false, String, List, [], ◌∷◌, ◌++◌, Option, none,
  some, ℤ, pos, ◌+ℤ◌, ◌≤ℤ◌, ◌<ℤ◌, All, All-append, length, HashMap, Eq, lookup, insert,
  lookup-insert, Eq-Text, Text, eq_text, eq_text_iff, subst₂, codes, arith, inl, inr, Bool-cases,
  if◌then◌else◌,
}
use vpsiner.Prelude.Ordered.{All-map}
use vpsiner.Error.{storage}
use vpsiner.Model.Logs.{LogLine}
use vpsiner.Logs.Helpers.{safe_service_path}
use vpsiner.Logs.Weeks.{IsWeeks, near, week_ms}
use vpsiner.Logs.Rows.{LogRow, insert_rows}
use vpsiner.Logs.Rows.Readable.{IsRow}
use vpsiner.Logs.Rows.Inserted.{IsKeyed, IsOfWeek, insert_rows-IsRow, insert_rows-IsKeyed}
use vpsiner.Logs.Store.{Platform, Refusals, ServiceDir, Root, Answer, or_empty, failed}
use vpsiner.Logs.Store.Appending.{push_line, group_by_week, append_weeks, append_groups, append}
use vpsiner.Logs.Store.Timeline.{IsDir, OneFileAWeek, IsNamed, AllNamed}

-- What holds of all pairs holds of them after an insertion, if it holds of the new pair.
pub All-insert {ℓ κ} :
    {K : Type ℓ} {V : Type κ} ⦃e : Eq K⦄ (P : K × V → Type 0) (k : K) (v : V) (m : HashMap K V)
    → P (k, v)
    → All P m
    → All P (insert k v m)
unfolding insert
All-insert P k v [] h a = (h, tt)
All-insert ⦃e⦄ P k v ((j, w) ∷ m) h a = elim (Bool-cases (e.test j k)) [
  | inl same ↦ rw same (h, a.1)
  | inr other ↦ rw other (a.0, All-insert P k v m h a.1)
]

some_eq {ℓ} : {A : Type ℓ} (a b : A) → some a ≡ some b → a ≡ b
some_eq a b e = cc e

pub lookup-All {ℓ κ} :
    {K : Type ℓ} {V : Type κ} ⦃e : Eq K⦄ (P : K → V → Type 0) (k : K) (v : V) (m : HashMap K V)
    → All (λ (g : K × V). P g.0 g.1) m
    → lookup k m ≡ some v
    → P k v
unfolding lookup
lookup-All P k v [] a f = cc f
lookup-All ⦃e⦄ P k v ((j, w) ∷ m) a f = elim (Bool-cases (e.test j k)) [
  | inl same ↦
      let found : some w ≡ some v =
        subst (λ b. (if b then some w else lookup k m) ≡ some v) same f in
      subst₂ P ((e.test_iff j k).0 same) (some_eq w v found) a.0
  | inr other ↦
      lookup-All P k v m a.1 (subst (λ b. (if b then some w else lookup k m) ≡ some v) other f)
]

dir-insert :
    (Q : ServiceDir → Type 0) (k name : Text) (dir : ServiceDir) (root : Root)
    → Q dir
    → Q (or_empty (lookup name root))
    → Q (or_empty (lookup name (insert k dir root)))
dir-insert Q k name dir root h valid = elim (Bool-cases (eq_text k name)) [
  | inl e ↦ rw (lookup-insert, e) h
  | inr e ↦ rw (lookup-insert, e) valid
]

-- The table of a name after an insertion is the new one or the old one.
table-insert :
    (Q : List LogRow → Type 0) (week name : Text) (rows : List LogRow) (dir : ServiceDir)
    → Q rows
    → Q (or_empty (lookup name dir))
    → Q (or_empty (lookup name (insert week rows dir)))
table-insert Q week name rows dir h k = elim (Bool-cases (eq_text week name)) [
  | inl e ↦ rw (lookup-insert, e) h
  | inr e ↦ rw (lookup-insert, e) k
]

-- A line whose container id has six bytes.
abbrev pub HasId : LogLine → Type 0
HasId l = length l.cid.bytes ≡ 6

module _ (p : Platform) (laws : IsWeeks p.weeks) where
  abbrev pub IsLineOf : Text → LogLine → Type 0
  IsLineOf week l = (p.weeks.name l.ts ≡ some week) × HasId l

  -- The lines are of the week that they are grouped under.
  abbrev pub IsGroup : Text × List LogLine → Type 0
  IsGroup g = IsNamed p.weeks g.0 × All (IsLineOf g.0) g.1

  found_group :
      (week : Text) (by_week : HashMap Text (List LogLine))
      → All IsGroup by_week
      → All (IsLineOf week) (or_empty (lookup week by_week))
  found_group week by_week k = go (lookup week by_week) refl
    where
      go : (o : Option (List LogLine)) → lookup week by_week ≡ o → All (IsLineOf week) (or_empty o)
      go none e = tt
      go (some ls) e =
          (lookup-All (λ w ls. IsNamed p.weeks w × All (IsLineOf w) ls) week ls by_week k e).1

  push_line-IsGroup :
      (o : Option Text) (l : LogLine) (by_week : HashMap Text (List LogLine))
      → p.weeks.name l.ts ≡ o
      → HasId l
      → All IsGroup by_week
      → All IsGroup (push_line o l by_week)
  unfolding push_line
  push_line-IsGroup none l by_week e h k = k
  push_line-IsGroup (some week) l by_week e h k =
      All-insert IsGroup week (or_empty (lookup week by_week) ++ l ∷ []) by_week
        (
          (l.ts, e),
          All-append (IsLineOf week) (or_empty (lookup week by_week)) (l ∷ [])
              (found_group week by_week k) ((e, h), tt),
        )
        k

  pub group_by_week-IsGroup :
      (lines : List LogLine) (by_week : HashMap Text (List LogLine))
      → All HasId lines
      → All IsGroup by_week
      → All IsGroup (group_by_week p lines by_week)
  unfolding group_by_week
  group_by_week-IsGroup [] by_week h k = k
  group_by_week-IsGroup (l ∷ lines) by_week h k =
      group_by_week-IsGroup lines (push_line (p.weeks.name l.ts) l by_week) h.1
        (push_line-IsGroup (p.weeks.name l.ts) l by_week refl h.0 k)

  -- Two week databases of one week have one name.
  same_name :
      (a b : Text)
      → ((start : ℤ) → p.weeks.start a ≡ some start → IsNamed p.weeks a)
      → IsNamed p.weeks b
      → (start : ℤ) → p.weeks.start a ≡ some start
      → p.weeks.start b ≡ some start
      → a ≡ b
  same_name a b na (ts', eb) start ea sb =
      let (ts, e) = na start ea in laws.one_name ts ts' a b e eb (ea ∙ sym sb)

  OneFileAWeek-insert :
      (week : Text) (rows : List LogRow) (dir : ServiceDir)
      → IsNamed p.weeks week
      → AllNamed p.weeks dir
      → OneFileAWeek p.weeks dir
      → OneFileAWeek p.weeks (insert week rows dir)
  unfolding insert
  OneFileAWeek-insert week rows [] n ns h = (tt, tt)
  OneFileAWeek-insert week rows ((j, v) ∷ dir) n ns h = elim (Bool-cases (eq_text j week)) [
    | inl same ↦ rw same (
      subst
          (λ w.
            All
              (λ (other : Text × List LogRow).
                (start : ℤ) → p.weeks.start w ≡ some start → p.weeks.start other.0 ≢ some start)
              dir)
          ((eq_text_iff j week).0 same) h.0,
      h.1,
    )
    | inr other ↦ rw other (
      All-insert
          (λ (other : Text × List LogRow).
            (start : ℤ) → p.weeks.start j ≡ some start → p.weeks.start other.0 ≢ some start)
          week rows dir (λ start sj sw. different other (same_name j week ns.0 n start sj sw)) h.0,
      OneFileAWeek-insert week rows dir n ns.1 h.1,
    )
  ]
    where
      different : {a b : Text} → eq_text a b ≡ false → a ≢ b
      different {a} {b} ne e = cc (ne, (eq_text_iff a b).1 e)

  -- A table that is written back as rows of the store leaves the directory as the store writes it.
  insert-IsDir :
      (week : Text) (rows : List LogRow) (dir : ServiceDir)
      → IsNamed p.weeks week
      → All IsRow rows
      → IsKeyed rows
      → IsDir p.weeks dir
      → IsDir p.weeks (insert week rows dir)
  insert-IsDir week rows dir n h k valid = record {
    rows = λ name. table-insert (All IsRow) week name rows dir h (valid.rows name);
    keyed = λ name. table-insert IsKeyed week name rows dir k (valid.keyed name);
    one_file = OneFileAWeek-insert week rows dir n valid.named valid.one_file;
    named =
        All-insert
          (λ (file : Text × List LogRow).
            (start : ℤ) → p.weeks.start file.0 ≡ some start → IsNamed p.weeks file.0)
          week rows dir (λ start s. n) valid.named;
  }

  pub line-IsOfWeek :
      (week : Text) (start : ℤ) (l : LogLine)
      → p.weeks.start week ≡ some start
      → IsLineOf week l
      → IsOfWeek start l
  line-IsOfWeek week start l s (e, six) =
      let (start', s', lo, hi) = laws.holds l.ts week e in
      let same = some_eq start' start (sym s' ∙ s) in
      record {
        within = subst (λ t. (t ≤ℤ l.ts) × (l.ts <ℤ t +ℤ pos week_ms)) same (lo, hi);
        six = six;
      }

  pub append_weeks-cons :
      (refuses : Refusals) (week : Text) (start : ℤ) (ls : List LogLine)
      (rest : HashMap Text (List LogLine)) (dir : ServiceDir)
      → p.weeks.start week ≡ some start
      → append_weeks p refuses ((week, ls) ∷ rest) dir ≡ (
          let rows = or_empty (lookup week dir) in
          if refuses.opening week
          then (failed storage, dir)
          else if refuses.writing week
          then (failed storage, insert week rows dir)
          else append_weeks p refuses rest
              (insert week (insert_rows p.is_whitespace start ls rows) dir))
  unfolding append_weeks
  append_weeks-cons refuses week start ls rest dir s = ground arith

  inserted-IsDir :
      (week : Text) (start : ℤ) (ls : List LogLine) (dir : ServiceDir)
      → p.weeks.start week ≡ some start
      → IsGroup (week, ls)
      → IsDir p.weeks dir
      → IsDir p.weeks
          (insert week (insert_rows p.is_whitespace start ls (or_empty (lookup week dir))) dir)
  inserted-IsDir week start ls dir s g valid =
      insert-IsDir week (insert_rows p.is_whitespace start ls (or_empty (lookup week dir))) dir g.0
        (insert_rows-IsRow p.is_whitespace start (near laws week start s) ls
          (or_empty (lookup week dir)) (All-map ls (λ l h. line-IsOfWeek week start l s h) g.1)
          (valid.rows week))
        (insert_rows-IsKeyed p.is_whitespace start (near laws week start s) ls
          (or_empty (lookup week dir)) (valid.keyed week))
        valid

  pub append_weeks-IsDir :
      (refuses : Refusals) (groups : HashMap Text (List LogLine)) (dir : ServiceDir)
      → All IsGroup groups
      → IsDir p.weeks dir
      → IsDir p.weeks (append_weeks p refuses groups dir).1
  append_weeks-IsDir refuses [] dir g valid = unfold append_weeks in valid
  append_weeks-IsDir refuses ((week, ls) ∷ rest) dir g valid =
      let ((ts, e), _) = g.0 in
      let (start, s, _, _) = laws.holds ts week e in
      rw (append_weeks-cons refuses week start ls rest dir s)
        (elim (Bool-cases (refuses.opening week)) [
          | inl no_open ↦ rw no_open valid
          | inr opened ↦ elim (Bool-cases (refuses.writing week)) [
            | inl no_write ↦
                rw (opened, no_write)
                  (insert-IsDir week (or_empty (lookup week dir)) dir g.0.0 (valid.rows week)
                    (valid.keyed week) valid)
            | inr written ↦
                rw (opened, written)
                  (append_weeks-IsDir refuses rest
                    (insert week (insert_rows p.is_whitespace start ls (or_empty (lookup week dir)))
                      dir)
                    g.1 (inserted-IsDir week start ls dir s g.0 valid))
          ]
        ])

  -- Each directory is as the store writes it; one that is not there is empty.
  abbrev pub IsRoot : Root → Type 0
  IsRoot root = (name : Text) → IsDir p.weeks (or_empty (lookup name root))

  either_IsRoot :
      (b : Bool) (x y : Answer (Unit {0}) × Root)
      → IsRoot x.1
      → IsRoot y.1
      → IsRoot (if b then x else y).1
  either_IsRoot true x y h k = h
  either_IsRoot false x y h k = k

  append_groups-IsRoot :
      (refuses : Refusals) (service_path : Text) (groups : HashMap Text (List LogLine))
      (root : Root)
      → All IsGroup groups
      → IsRoot root
      → IsRoot (append_groups p refuses service_path groups root).1
  unfolding append_groups
  append_groups-IsRoot refuses service_path [] root g valid = valid
  append_groups-IsRoot refuses service_path (group ∷ groups) root g valid =
      let written = append_weeks p refuses (group ∷ groups) (or_empty (lookup service_path root)) in
      let kept : IsDir p.weeks written.1 =
        append_weeks-IsDir refuses (group ∷ groups) (or_empty (lookup service_path root)) g
          (valid service_path) in
      either_IsRoot refuses.directory (failed storage, root)
        (written.0, insert service_path written.1 root) valid
        (λ name. dir-insert (IsDir p.weeks) service_path name written.1 root kept (valid name))

  -- Whatever the file system and SQLite refuse, appending lines with ids of six bytes keeps every
  -- directory as the store writes it: the rows can be read and lie in the week of their file, ids
  -- ascend within it, each week has one file, and that is named after it.
  pub append-IsRoot :
      (refuses : Refusals) (service : String) (lines : List LogLine) (root : Root)
      → All HasId lines
      → IsRoot root
      → IsRoot (append p refuses service lines root).1
  unfolding append
  append-IsRoot refuses service lines root h valid =
      append_groups-IsRoot refuses (safe_service_path (codes service)) (group_by_week p lines [])
        root (group_by_week-IsGroup lines [] h tt) valid
