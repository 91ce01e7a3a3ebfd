-- ===== src/Logs/Store/Pages.antt =====
-- src/logs/store.rs: a page, in terms of the timeline that it is cut from.
use mathlib.Core.List.{reverse, reverse-cons, reverse-append, reverse-reverse, map-append}
use vpsiner.Prelude.{
  ℕ, zero, suc, ◌+◌, ◌-◌, ◌≡◌, refl, sym, ap, ◌∙◌, Bool, false, String, List, [], ◌∷◌, map, Option,
  none, some, ℤ, All, All-keep, All-reverse, concat, concat-append, take, keep, keep-append, length,
  append_nil, Text, ltb, Bool-cases, inl, inr, arith, last?, subst, sub-zero, length-take, Eq-Text,
}
use vpsiner.Model.Logs.{LogFilter, LogCursor, LogPage}
use vpsiner.Logs.Weeks.{IsWeeks}
use vpsiner.Logs.Rows.{StoredLog, Direction, backward, forward, in_direction}
use vpsiner.Logs.Store.{
  Platform, Refusals, ServiceDir, done, week_matches, ordered_candidates, read_week_files,
  scan_page, page_of, page_limit, page_with, anchor, first?,
}
use vpsiner.Logs.Store.Wanted.{wanted, NearOption, PlacedOption}
use vpsiner.Logs.Store.Timeline.{IsDir, entries, timeline, Starts, read_week_files-Starts}
use vpsiner.Logs.Store.Scan.{IsCalm, share, share-passed, read_weeks-shares}

module _ (p : Platform) (laws : IsWeeks p.weeks) (service : String) (dir : ServiceDir)
    (valid : IsDir p.weeks dir) (filter : LogFilter) (cursor : Option LogCursor)
    (from : NearOption filter.from) (to : NearOption filter.to)
    (placed : PlacedOption p.weeks cursor) where
  abbrev shares : Direction → List (Text × ℤ) → List StoredLog
  shares d ws = concat (map (share p laws service dir valid filter cursor d from to placed) ws)

  abbrev is_candidate : Direction → Text × ℤ → Bool
  is_candidate d w = week_matches w.1 filter cursor d

  shares-forward :
      (ws : List (Text × ℤ))
      → All (Starts p) ws
      → shares forward (keep (is_candidate forward) ws)
        ≡ keep (wanted p filter cursor forward) (concat (map (entries service dir) ws))
  shares-forward [] h = refl
  shares-forward (w ∷ ws) h = elim (Bool-cases (is_candidate forward w)) [
    | inl e ↦ rw (e, keep-append, shares-forward ws h.1) refl
    | inr e ↦
        rw
          (
            e,
            keep-append,
            shares-forward ws h.1,
            share-passed p laws service dir valid filter cursor forward from to placed w h.0 e,
          )
          refl
  ]

  shares-backward :
      (ws : List (Text × ℤ))
      → All (Starts p) ws
      → shares backward (reverse (keep (is_candidate backward) ws))
        ≡ keep (wanted p filter cursor backward) (reverse (concat (map (entries service dir) ws)))
  shares-backward [] h = refl
  shares-backward (w ∷ ws) h = elim (Bool-cases (is_candidate backward w)) [
    | inl e ↦
        rw
          (
            e,
            reverse-cons,
            map-append,
            concat-append,
            reverse-append,
            keep-append,
            shares-backward ws h.1,
            append_nil,
          )
          refl
    | inr e ↦
        rw
          (
            e,
            reverse-append,
            keep-append,
            shares-backward ws h.1,
            share-passed p laws service dir valid filter cursor backward from to placed w h.0 e,
            append_nil,
          )
          refl
  ]

  shares-candidates :
      (d : Direction) (ws : List (Text × ℤ))
      → All (Starts p) ws
      → shares d (ordered_candidates ws filter cursor d)
        ≡ keep (wanted p filter cursor d) (in_direction d (concat (map (entries service dir) ws)))
  unfolding ordered_candidates
  shares-candidates forward ws h = shares-forward ws h
  shares-candidates backward ws h = shares-backward ws h

  ordered_candidates-Starts :
      (d : Direction) (ws : List (Text × ℤ))
      → All (Starts p) ws
      → All (Starts p) (ordered_candidates ws filter cursor d)
  unfolding ordered_candidates
  ordered_candidates-Starts forward ws h = All-keep (Starts p) (is_candidate forward) ws h
  ordered_candidates-Starts backward ws h =
      All-reverse (Starts p) (keep (is_candidate backward) ws)
        (All-keep (Starts p) (is_candidate backward) ws h)

  -- The scan finds, in its direction, the wanted entries of the timeline, up to one more than the limit.
  pub scan_page-timeline :
      (refuses : Refusals) (d : Direction)
      → IsCalm refuses
      → scan_page p refuses service filter cursor d dir
        ≡ done (
            page_of p filter d (page_limit filter.limit) (
              take
                (page_limit filter.limit + 1)
                (keep (wanted p filter cursor d) (in_direction d (timeline p service dir)))))
  unfolding scan_page
  scan_page-timeline refuses d calm =
      let ws = read_week_files p dir in
      let starts = read_week_files-Starts p dir in
      rw
        (
          read_weeks-shares p laws service dir valid filter cursor d from to placed refuses calm
              (page_limit filter.limit + 1) (ordered_candidates ws filter cursor d) []
              (ordered_candidates-Starts d ws starts),
          shares-candidates d ws starts,
          sub-zero,
        )
        refl

-- Where to read on after the entries of a page: an empty page gives the cursor back.
abbrev pub resume : Platform → Option Text → List StoredLog → Option Text
resume p after [] = after
resume p after (e ∷ entries) = anchor p (last? (e ∷ entries))

-- A page that holds the first entries of `all` in the direction of the scan, as many as its limit.
pub record IsPage (p : Platform) (filter : LogFilter) (d : Direction) (all : List StoredLog)
    (page : LogPage) : Type 0 where
  pub items :
      page.items
      ≡ map (λ (e : StoredLog). e.line) (in_direction d (take (page_limit filter.limit) all))
  pub older_cursor :
      page.older_cursor ≡ anchor p (first? p (in_direction d (take (page_limit filter.limit) all)))
  pub newer_cursor :
      page.newer_cursor
      ≡ resume p filter.after (in_direction d (take (page_limit filter.limit) all))
  pub more :
      (elim d [ backward ↦ page.has_older | forward ↦ page.has_newer ])
      ≡ ltb (page_limit filter.limit) (length all)

pub page_limit-pos : (limit : Option ℕ) → (n : ℕ) × (page_limit limit ≡ suc n)
page_limit-pos limit = (page_limit limit - 1, positive limit)
  where
    positive : (limit : Option ℕ) → page_limit limit ≡ suc (page_limit limit - 1)
    positive none = omega arith
    positive (some n) = ground arith

take_more : {A : Type 0} (n : ℕ) (xs : List A) → take n (take (n + 1) xs) ≡ take n xs
take_more zero xs = refl
take_more (suc n) [] = ground arith
take_more (suc n) (x ∷ xs) = ground (arith, take_more n xs)

ltb-length-take :
    {A : Type 0} (n : ℕ) (xs : List A) → ltb n (length (take (n + 1) xs)) ≡ ltb n (length xs)
ltb-length-take n xs = ground (arith, length-take (n + 1) xs)

in_direction_nil : (d : Direction) (xs : List StoredLog) → in_direction d xs ≡ [] → xs ≡ []
in_direction_nil forward xs e = e
in_direction_nil backward xs e = sym (reverse-reverse xs) ∙ ap reverse e

take-suc_nil : (n : ℕ) (xs : List StoredLog) → take (suc n) xs ≡ [] → xs ≡ []
take-suc_nil n [] e = refl
take-suc_nil n (x ∷ xs) e = cc e

module _ (p : Platform) (filter : LogFilter) where
  page_with-IsPage :
      (d : Direction) (all entries : List StoredLog) (has_beyond : Bool)
      → entries ≡ in_direction d (take (page_limit filter.limit) all)
      → has_beyond ≡ ltb (page_limit filter.limit) (length all)
      → (entries ≡ [] → has_beyond ≡ false)
      → IsPage p filter d all (page_with p filter d has_beyond entries)
  unfolding page_with
  page_with-IsPage backward all [] b e f g = record {
    items = ap (map (λ (x : StoredLog). x.line)) e;
    older_cursor = ap (λ xs. anchor p (first? p xs)) e;
    newer_cursor = ap (resume p filter.after) e;
    more = sym (g refl) ∙ f;
  }
  page_with-IsPage forward all [] b e f g = record {
    items = ap (map (λ (x : StoredLog). x.line)) e;
    older_cursor = ap (λ xs. anchor p (first? p xs)) e;
    newer_cursor = ap (resume p filter.after) e;
    more = sym (g refl) ∙ f;
  }
  page_with-IsPage backward all (x ∷ xs) b e f g = record {
    items = ap (map (λ (x : StoredLog). x.line)) e;
    older_cursor = ap (λ xs. anchor p (first? p xs)) e;
    newer_cursor = ap (resume p filter.after) e;
    more = f;
  }
  page_with-IsPage forward all (x ∷ xs) b e f g = record {
    items = ap (map (λ (x : StoredLog). x.line)) e;
    older_cursor = ap (λ xs. anchor p (first? p xs)) e;
    newer_cursor = ap (resume p filter.after) e;
    more = f;
  }

  nothing_more :
      (d : Direction) (all : List StoredLog)
      → in_direction d (take (page_limit filter.limit) all) ≡ []
      → ltb (page_limit filter.limit) (length all) ≡ false
  nothing_more d all e =
      let (n, positive) = page_limit-pos filter.limit in
      let none_taken = in_direction_nil d (take (page_limit filter.limit) all) e in
      let empty = take-suc_nil n all (subst (λ k. take k all ≡ []) positive none_taken) in
      rw (empty, positive) (ground arith)

  pub page_of-IsPage :
      (d : Direction) (all : List StoredLog)
      → IsPage p filter d all
          (page_of p filter d (page_limit filter.limit) (take (page_limit filter.limit + 1) all))
  unfolding page_of
  page_of-IsPage d all =
      rw (take_more, ltb-length-take)
        (page_with-IsPage d all (in_direction d (take (page_limit filter.limit) all))
          (ltb (page_limit filter.limit) (length all)) refl refl (nothing_more d all))
