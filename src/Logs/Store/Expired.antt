-- ===== src/Logs/Store/Expired.antt =====
-- src/logs/store.rs: deleting old week databases takes exactly the old lines from every timeline.
use vpsiner.Prelude.{
  ℕ, ◌≡◌, refl, ap, ◌∙◌, Bool, true, false, not, String, List, [], ◌∷◌, ◌++◌, map, none, some, ℤ,
  pos, ◌+ℤ◌, ◌≤ℤ◌, ltb_ℤ, leb_ℤ, All, concat, keep, keep-append, lookup, Eq-Text, Text, eq_text,
  eq_text_iff, arith, +ℤ_parts, inl, inr, ◌⊎◌, Bool-cases, Option-cases, if◌then◌else◌,
}
use vpsiner.Prelude.Ordered.{All-map, keep-All, keep-none}
use vpsiner.Logs.Weeks.{Weeks, IsWeeks, week_ms}
use vpsiner.Logs.Rows.{LogRow, StoredLog, decode_rows, order_rows}
use vpsiner.Logs.Store.{Platform, ServiceDir, Root, done, or_empty, insert_week, read_week_files}
use vpsiner.Logs.Store.Deletion.{is_expired, delete_files, delete_dirs, delete_before, sort_texts}
use vpsiner.Logs.Store.Timeline.{
  IsDir, entries, timeline, Starts, read_week_files-none, read_week_files-some,
  read_week_files-Starts,
}
use vpsiner.Logs.Store.Append.{IsRoot}
use vpsiner.Logs.Store.Order.{entries-InWeek}

-- No week lies on both sides of the cutoff.
abbrev pub IsBoundary : Weeks → ℤ → Type 0
IsBoundary w cutoff =
    (name : Text) (start : ℤ)
    → w.start name ≡ some start
    → (start +ℤ pos week_ms ≤ℤ cutoff) ⊎ (cutoff ≤ℤ start)

module _ (p : Platform) (laws : IsWeeks p.weeks) (cutoff : ℤ) where
  abbrev is_kept : Text × List LogRow → Bool
  is_kept file = not (is_expired p cutoff file.0)

  abbrev week_kept : Text × ℤ → Bool
  week_kept w = not (ltb_ℤ w.1 cutoff)

  is_expired-week :
      (name : Text) (start : ℤ)
      → p.weeks.start name ≡ some start
      → is_expired p cutoff name ≡ ltb_ℤ start cutoff
  unfolding is_expired
  is_expired-week name start e = ground (arith, laws.extension name start)

  is_expired-none : (name : Text) → p.weeks.start name ≡ none → is_expired p cutoff name ≡ false
  unfolding is_expired
  is_expired-none name e = ground arith

  -- Files are kept or not by their names.
  lookup-kept :
      (name : Text) (dir : ServiceDir)
      → is_expired p cutoff name ≡ false
      → lookup name (keep is_kept dir) ≡ lookup name dir
  unfolding lookup
  lookup-kept name [] h = refl
  lookup-kept name ((j, rows) ∷ dir) h = elim (Bool-cases (eq_text j name)) [
    | inl same ↦ ground (arith, ap (is_expired p cutoff) ((eq_text_iff j name).0 same))
    | inr other ↦ ground (arith, lookup-kept name dir h)
  ]

  -- Nothing that is kept stands before a week that is not.
  keep-insert_week :
      (w : Text × ℤ) (ws : List (Text × ℤ))
      → keep week_kept (insert_week w ws)
        ≡ (if week_kept w then insert_week w (keep week_kept ws) else keep week_kept ws)
  unfolding insert_week
  keep-insert_week w [] = refl
  keep-insert_week w (x ∷ ws) = elim (Bool-cases (leb_ℤ w.1 x.1)) [
    | inl le ↦ elim (Bool-cases (week_kept w)) [
      | inl kept ↦
          let x_kept : week_kept x ≡ true = ground arith in rw (le, kept, x_kept) (rw le refl)
      | inr gone ↦ rw (le, gone) refl
    ]
    | inr gt ↦ elim (Bool-cases (week_kept x)) [
      | inl kept ↦
          let w_kept : week_kept w ≡ true = ground arith in
          rw (gt, kept, keep-insert_week w ws, w_kept) (rw gt refl)
      | inr gone ↦ rw (gt, gone, keep-insert_week w ws) refl
    ]
  ]

  read_week_files-kept :
      (dir : ServiceDir)
      → read_week_files p (keep is_kept dir) ≡ keep week_kept (read_week_files p dir)
  read_week_files-kept [] = unfold read_week_files in refl
  read_week_files-kept ((name, rows) ∷ dir) = elim (Option-cases (p.weeks.start name)) [
    | inl e ↦
        rw
          (
            is_expired-none name e,
            read_week_files-none p name rows (keep is_kept dir) e,
            read_week_files-none p name rows dir e,
          )
          (read_week_files-kept dir)
    | inr (start, e) ↦ elim (Bool-cases (ltb_ℤ start cutoff)) [
      | inl gone ↦
          rw
            (
              is_expired-week name start e,
              gone,
              read_week_files-some p name rows start dir e,
              keep-insert_week,
              gone,
            )
            (read_week_files-kept dir)
      | inr kept ↦
          rw
            (
              is_expired-week name start e,
              kept,
              read_week_files-some p name rows start (keep is_kept dir) e,
              read_week_files-some p name rows start dir e,
              keep-insert_week,
              kept,
              read_week_files-kept dir,
            )
            refl
    ]
  ]

  module _ (service : String) (dir : ServiceDir) (valid : IsDir p.weeks dir)
      (boundary : IsBoundary p.weeks cutoff) where
    abbrev is_new : StoredLog → Bool
    is_new e = leb_ℤ cutoff e.ts

    -- A week is kept or dropped whole.
    entries-kept :
        (w : Text × ℤ)
        → Starts p w
        → keep is_new (entries service dir w) ≡ (if week_kept w then entries service dir w else [])
    entries-kept w e = elim (boundary w.0 w.1 e) [
      | inl old ↦
          let gone : week_kept w ≡ false = ground (arith, +ℤ_parts w.1 (pos week_ms)) in
          rw gone (
            keep-none is_new (entries service dir w) (
              All-map (entries service dir w) (λ x h. ground (arith, h))
                (entries-InWeek p laws service w e dir valid)))
      | inr new ↦
          let kept : week_kept w ≡ true = ground arith in
          rw kept (
            keep-All is_new (entries service dir w) (
              All-map (entries service dir w) (λ x h. ground (arith, h))
                (entries-InWeek p laws service w e dir valid)))
    ]

    same_entries :
        (w : Text × ℤ)
        → Starts p w
        → week_kept w ≡ true
        → entries service (keep is_kept dir) w ≡ entries service dir w
    same_entries w e kept =
        ap (λ o. decode_rows service w.0 w.1 (order_rows (or_empty o)))
          (lookup-kept w.0 dir (is_expired-week w.0 w.1 e ∙ ground arith))

    weeks-kept :
        (ws : List (Text × ℤ))
        → All (Starts p) ws
        → concat (map (entries service (keep is_kept dir)) (keep week_kept ws))
          ≡ keep is_new (concat (map (entries service dir) ws))
    weeks-kept [] h = refl
    weeks-kept (w ∷ ws) h = elim (Bool-cases (week_kept w)) [
      | inl kept ↦
          rw
            (
              kept,
              same_entries w h.0 kept,
              keep-append,
              entries-kept w h.0,
              kept,
              weeks-kept ws h.1,
            )
            refl
      | inr gone ↦ rw (gone, keep-append, entries-kept w h.0, gone, weeks-kept ws h.1) refl
    ]

    -- What is left of a timeline are the entries from the cutoff on.
    timeline-kept : timeline p service (keep is_kept dir) ≡ keep is_new (timeline p service dir)
    timeline-kept =
        ap (λ ws. concat (map (entries service (keep is_kept dir)) ws)) (read_week_files-kept dir)
        ∙ weeks-kept (read_week_files p dir) (read_week_files-Starts p dir)

  module _ (refused : Text → Bool) (calm : (name : Text) → refused name ≡ false) where
    delete_files-kept :
        (service_name : Text) (dir : ServiceDir)
        → (names : List Text) × (delete_files p refused cutoff service_name dir
            ≡ (done names, keep is_kept dir))
    unfolding delete_files
    delete_files-kept service_name [] = ([], refl)
    delete_files-kept service_name ((name, rows) ∷ dir) =
        let (names, e) = delete_files-kept service_name dir in
        elim (Bool-cases (is_expired p cutoff name)) [
          | inl gone ↦ ((service_name ++ b'/' ∷ name) ∷ names, rw (e, gone, calm name) refl)
          | inr kept ↦ (names, rw (e, kept) refl)
        ]

    -- What is left of a directory of the root, by its name.
    abbrev dir_left : Text → ServiceDir → ServiceDir
    dir_left [] dir = dir
    dir_left (c ∷ name) dir = keep is_kept dir

    abbrev root_left : Root → Root
    root_left root = map (λ (d : Text × ServiceDir). (d.0, dir_left d.0 d.1)) root

    delete_dirs-kept :
        (root : Root)
        → (names : List Text) × (delete_dirs p refused cutoff root ≡ (done names, root_left root))
    unfolding delete_dirs
    delete_dirs-kept [] = ([], refl)
    delete_dirs-kept (([], dir) ∷ root) =
        let (more, f) = delete_dirs-kept root in (more, ground (arith, f))
    delete_dirs-kept ((c ∷ name, dir) ∷ root) =
        let (names, e) = delete_files-kept (c ∷ name) dir in
        let (more, f) = delete_dirs-kept root in (names ++ more, ground (arith, e, f))

    lookup-dirs :
        (path : Text) (root : Root)
        → or_empty (lookup path (root_left root)) ≡ dir_left path (or_empty (lookup path root))
    unfolding lookup
    lookup-dirs [] [] = refl
    lookup-dirs (c ∷ path) [] = refl
    lookup-dirs path ((j, dir) ∷ root) = elim (Bool-cases (eq_text j path)) [
      | inl same ↦ rw same (ap (λ name. dir_left name dir) ((eq_text_iff j path).0 same))
      | inr other ↦ rw other (lookup-dirs path root)
    ]

    -- Where no removal is refused and no week lies on both sides of the cutoff, deleting succeeds.
    -- In the timeline of every path that is not empty it leaves exactly the entries that are not
    -- older than the cutoff, in their order; the timeline of the empty path, whose files lie in
    -- the root itself, it leaves as it was.
    pub delete_before-timeline :
        (root : Root)
        → IsRoot p laws root
        → IsBoundary p.weeks cutoff
        → (names : List Text) × ((delete_before p false refused cutoff root).0 ≡ done names)
          × ((service : String) (c : ℕ) (name : Text)
              → timeline p service
                  (or_empty (lookup (c ∷ name) (delete_before p false refused cutoff root).1))
                ≡ keep
                    (λ e. leb_ℤ cutoff e.ts)
                    (timeline p service (or_empty (lookup (c ∷ name) root))))
          × ((service : String)
              → timeline p service
                  (or_empty (lookup [] (delete_before p false refused cutoff root).1))
                ≡ timeline p service (or_empty (lookup [] root)))
    unfolding delete_before
    delete_before-timeline root valid boundary =
        let (names, e) = delete_dirs-kept root in
        (
          sort_texts names,
          rw e refl,
          λ service c name.
              rw (e, lookup-dirs (c ∷ name) root)
                (timeline-kept service (or_empty (lookup (c ∷ name) root)) (valid (c ∷ name))
                  boundary),
          λ service. rw (e, lookup-dirs [] root) refl,
        )
