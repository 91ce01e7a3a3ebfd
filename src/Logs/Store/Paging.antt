-- ===== src/Logs/Store/Paging.antt =====
-- src/logs/store.rs: a client that pages back until nothing older is left.
use mathlib.Core.List.{reverse, map-append}
use vpsiner.Prelude.{
  ℕ, zero, suc, ◌<◌, ◌≡◌, refl, sym, ap, subst, ◌∙◌, Bool, true, false, ◌&&◌, String, List, [], ◌∷◌,
  ◌++◌, map, Option, none, some, ℤ, All, All-keep, take, keep, length-reverse, length-append,
  length, lookup, Eq-Text, Text, codes, ltb, if◌then◌else◌, Bool-cases, inl, inr, arith, int_laws,
  one_part, ltb→lt, &&_both, ◌>>=◌,
}
use vpsiner.Model.Logs.{LogFilter, LogCursor, LogLine, LogPage}
use vpsiner.Logs.Helpers.{safe_service_path}
use vpsiner.Prelude.Ordered.{
  last_part, front_part, parts_join, length-front_part, length_nil, All-kept, All-split, All-true,
  IsOrdered, IsOrdered-keep, keep-keep, less_than,
}
use vpsiner.Logs.Weeks.{IsWeeks}
use vpsiner.Logs.Rows.{StoredLog, backward}
use vpsiner.Logs.Rows.Decoded.{keep-reverse}
use vpsiner.Logs.Store.{
  Platform, Refusals, ServiceDir, Root, done, failed, panicked, cursor_of, query, page_limit,
  anchor, first?,
}
use vpsiner.Logs.Store.Wanted.{beyond, wanted, wants, NearOption, PlacedOption, IsPlaced}
use vpsiner.Logs.Store.Timeline.{IsDir, timeline, Starts}
use vpsiner.Logs.Store.Scan.{IsCalm}
use vpsiner.Logs.Store.Pages.{IsPage, page_limit-pos}
use vpsiner.Logs.Store.Order.{entry_lt, InWeek, timeline-IsOrdered, timeline-InWeek}
use vpsiner.Logs.Store.Query.{Reads, newest, older, query-IsPage}

-- A printed cursor reads back as itself.
abbrev pub IsCodec : Platform → Type 0
IsCodec p =
    (c : LogCursor) → (t : Text) × (p.encode_cursor c ≡ some t) × (p.decode_cursor t ≡ some c)

entry_lt-asym : (a b : StoredLog) → entry_lt a b ≡ true → entry_lt b a ≡ false
entry_lt-asym a b e = ground arith

entry_lt_irrefl : (a : StoredLog) → entry_lt a a ≡ false
entry_lt_irrefl a = ground arith

beyond_trans :
    (cursor : Option LogCursor) (a b : StoredLog)
    → beyond cursor backward b ≡ true
    → entry_lt a b ≡ true
    → beyond cursor backward a ≡ true
beyond_trans none a b h k = refl
beyond_trans (some c) a b h k = ground arith

both_ways : (a b c : Bool) → (a ≡ true → c ≡ true) → (a && (b && c)) ≡ (b && a)
both_ways true b c h = rw (h refl) refl
both_ways false true c h = refl
both_ways false false c h = refl

abbrev pub lines : List StoredLog → List LogLine
lines entries = map (λ (e : StoredLog). e.line) entries

-- A client that asks for the newest page and then, as long as there is an older one, for the page
-- before it. `none`: an answer is no page, or the fuel ran out.
unfoldable pub read_back :
    Platform → Refusals → String → Root → ℕ → LogFilter → Option (List LogLine)
read_back p refuses service root zero filter = none
read_back p refuses service root (suc fuel) filter = elim (query p refuses service filter root) [
  | failed e ↦ none
  | panicked ↦ none
  | done page ↦
      let older =
        read_back p refuses service root fuel (record filter { before = page.older_cursor }) in
      if page.has_older then (older >>= (λ found. some (found ++ page.items))) else some page.items
]

joined :
    (b : Bool) (o : Option (List LogLine)) (front items all : List LogLine)
    → b ≡ true
    → o ≡ some front
    → front ++ items ≡ all
    → (if b then (o >>= (λ found. some (found ++ items))) else some items) ≡ some all
joined b o front items all e f g = rw (e, f) (ap some g)

joined_last :
    (b : Bool) (o : Option (List LogLine)) (items all : List LogLine)
    → b ≡ false
    → items ≡ all
    → (if b then (o >>= (λ found. some (found ++ items))) else some items) ≡ some all
joined_last b o items all e f = rw e (ap some f)

module _ (p : Platform) (laws : IsWeeks p.weeks) (codec : IsCodec p) (refuses : Refusals)
    (calm : IsCalm refuses) (service : String) (root : Root) (dir : ServiceDir)
    (found : lookup (safe_service_path (codes service)) root ≡ some dir)
    (valid : IsDir p.weeks dir) where
  abbrev pub left : LogFilter → Option LogCursor → List StoredLog
  left filter cursor = keep (wanted p filter cursor backward) (timeline p service dir)

  left-IsOrdered :
      (filter : LogFilter) (cursor : Option LogCursor) → IsOrdered entry_lt (left filter cursor)
  left-IsOrdered filter cursor =
      IsOrdered-keep entry_lt (wanted p filter cursor backward) (timeline p service dir)
        (timeline-IsOrdered p laws service dir valid)

  -- The entry is in its week, and so is its cursor.
  cursor_of-IsPlaced :
      (e : StoredLog) → (w : Text × ℤ) × Starts p w × InWeek w e → IsPlaced p.weeks (cursor_of e)
  unfolding cursor_of
  cursor_of-IsPlaced e (w, s, (week, lo, hi)) =
      let (above, below) = laws.close w.0 w.1 s in
      record {
        start = w.1;
        start_eq = ap p.weeks.start week ∙ s;
        within = (lo, hi);
        near = record {
          above = omega (int_laws, one_part e.ts, lo, hi, above, below);
          below = omega (int_laws, one_part e.ts, lo, hi, above, below);
        };
      }

  still_wanted :
      (filter : LogFilter) (cursor : Option LogCursor) (x y : StoredLog)
      → wanted p filter cursor backward x ≡ true
      → (entry_lt y x && wanted p filter cursor backward y)
        ≡ (wants p filter y && beyond (some (cursor_of x)) backward y)
  unfolding cursor_of
  still_wanted filter cursor x y h =
      both_ways (entry_lt y x) (wants p filter y) (beyond cursor backward y) (λ lt.
        beyond_trans cursor y x (&&_both (wants p filter x) (beyond cursor backward x) h).1 lt)

  -- With the cursor of the first entry of a page, what stood before the page is left.
  left-older :
      (filter : LogFilter) (cursor : Option LogCursor) (t : Option Text)
      (front rest : List StoredLog) (x : StoredLog)
      → left filter cursor ≡ front ++ x ∷ rest
      → left (record filter { before = t }) (some (cursor_of x)) ≡ front
  left-older filter cursor t front rest x e =
      let held =
        All-split (λ y. wanted p filter cursor backward y ≡ true) front (x ∷ rest)
          (subst (All (λ y. wanted p filter cursor backward y ≡ true)) e
            (All-kept (wanted p filter cursor backward) (timeline p service dir))) in
      let ordered = subst (IsOrdered entry_lt) e (left-IsOrdered filter cursor) in
      sym (
        keep-keep (λ y. entry_lt y x) (wanted p filter cursor backward)
          (wanted p (record filter { before = t }) (some (cursor_of x)) backward)
          (timeline p service dir)
          (All-true (timeline p service dir) (λ y. still_wanted filter cursor x y held.1.0)))
      ∙ ap (keep (λ y. entry_lt y x)) e
      ∙ less_than entry_lt front x rest ordered entry_lt-asym entry_lt_irrefl

  -- The first entry of a full page, and the page before it.
  first_entry :
      (n : ℕ) (all : List StoredLog)
      → suc n < length all
      → (x : StoredLog) × (rest : List StoredLog) × (last_part (suc n) all ≡ x ∷ rest)
  first_entry n all h = split (last_part (suc n) all) refl
    where
      split :
          (xs : List StoredLog)
          → last_part (suc n) all ≡ xs
          → (x : StoredLog) × (rest : List StoredLog) × (last_part (suc n) all ≡ x ∷ rest)
      split [] e = absurd (
          omega (
            arith,
            h,
            ap length (parts_join (suc n) all),
            length-append (front_part (suc n) all) (last_part (suc n) all),
            length-front_part (suc n) all,
            ap length e,
          ))
      split (x ∷ rest) e = (x, rest, e)

  -- What one query does to the reading.
  read_back-step :
      (filter : LogFilter) (fuel : ℕ) (page : LogPage)
      → query p refuses service filter root ≡ done page
      → read_back p refuses service root (suc fuel) filter ≡ (
          if page.has_older
          then (read_back p refuses service root fuel (record filter { before = page.older_cursor })
              >>= (λ found. some (found ++ page.items)))
          else some page.items)
  unfolding read_back
  read_back-step filter fuel page e = ground arith

  Reads-after :
      {filter : LogFilter} {cursor : Option LogCursor}
      → Reads p filter cursor backward
      → filter.after ≡ none
  Reads-after (newest b a) = a
  Reads-after (older c t b e a) = a

  -- The page of a query, in terms of the entries that are left.
  record IsLastPage (filter : LogFilter) (n : ℕ) (all : List StoredLog) (page : LogPage)
      : Type 0 where
    limit : page_limit filter.limit ≡ suc n
    items : page.items ≡ lines (last_part (suc n) all)
    more : page.has_older ≡ ltb (suc n) (length all)
    older_cursor : page.older_cursor ≡ anchor p (first? p (last_part (suc n) all))

  last_page :
      (filter : LogFilter) (cursor : Option LogCursor) (page : LogPage)
      → IsPage p filter backward
          (keep (wanted p filter cursor backward) (reverse (timeline p service dir)))
          page
      → (n : ℕ) × IsLastPage filter n (left filter cursor) page
  last_page filter cursor page is_page =
      let all = left filter cursor in
      let flip : keep (wanted p filter cursor backward) (reverse (timeline p service dir))
          ≡ reverse all =
        keep-reverse (wanted p filter cursor backward) (timeline p service dir) in
      let (n, limit) = page_limit-pos filter.limit in
      (
        n,
        record {
          limit = limit;
          items =
              is_page.items
              ∙ ap (λ xs. lines (reverse (take (page_limit filter.limit) xs))) flip
              ∙ ap (λ k. lines (last_part k all)) limit;
          more =
              is_page.more
              ∙ ap (λ xs. ltb (page_limit filter.limit) (length xs)) flip
              ∙ ap (λ k. ltb k (length (reverse all))) limit
              ∙ ap (ltb (suc n)) (length-reverse all);
          older_cursor =
              is_page.older_cursor
              ∙ ap (λ xs. anchor p (first? p (reverse (take (page_limit filter.limit) xs)))) flip
              ∙ ap (λ k. anchor p (first? p (last_part k all))) limit;
        },
      )

  -- Where there is an older page, its query reads with the cursor of an entry, and less is left.
  record IsOlder (filter : LogFilter) (n : ℕ) (all : List StoredLog) (page : LogPage) : Type 0 where
    entry : StoredLog
    reads : Reads p (record filter { before = page.older_cursor }) (some (cursor_of entry)) backward
    placed : IsPlaced p.weeks (cursor_of entry)
    rest_left :
        left (record filter { before = page.older_cursor }) (some (cursor_of entry))
        ≡ front_part (suc n) all

  IsOlder-page :
      (filter : LogFilter) (cursor : Option LogCursor) (n : ℕ) (page : LogPage)
      → Reads p filter cursor backward
      → IsLastPage filter n (left filter cursor) page
      → suc n < length (left filter cursor)
      → IsOlder filter n (left filter cursor) page
  IsOlder-page filter cursor n page reads last h =
      let all = left filter cursor in
      let (x, rest, e) = first_entry n all h in
      let (t, printed, read) = codec (cursor_of x) in
      let joined : all ≡ front_part (suc n) all ++ x ∷ rest =
        sym (parts_join (suc n) all) ∙ ap (λ xs. front_part (suc n) all ++ xs) e in
      let all_placed =
        All-keep (λ (e : StoredLog). (w : Text × ℤ) × Starts p w × InWeek w e)
          (wanted p filter cursor backward) (timeline p service dir)
          (timeline-InWeek p laws service dir valid) in
      record {
        entry = x;
        reads =
            older (cursor_of x) t
              (last.older_cursor ∙ ap (λ xs. anchor p (first? p xs)) e ∙ printed) read
              (Reads-after reads);
        placed =
            cursor_of-IsPlaced x
              (All-split (λ (e : StoredLog). (w : Text × ℤ) × Starts p w × InWeek w e)
                (front_part (suc n) all) (x ∷ rest)
                (subst (All (λ (e : StoredLog). (w : Text × ℤ) × Starts p w × InWeek w e)) joined
                  all_placed)).1.0;
        rest_left =
            left-older filter cursor page.older_cursor (front_part (suc n) all) rest x joined;
      }

  last_part-all :
      (n : ℕ) (all : List StoredLog) → ltb n (length all) ≡ false → last_part n all ≡ all
  last_part-all n all h =
      let empty : front_part n all ≡ [] =
        length_nil (front_part n all) (length-front_part n all ∙ ground arith) in
      sym (ap (λ xs. xs ++ last_part n all) empty) ∙ parts_join n all

  -- A client that asks for a page of a service's logs and then for the page before it, as long as
  -- the answer says that there is one, comes to an end: with more fuel than there are matching
  -- lines it has read the lines of the timeline that the filter wants before the cursor it began
  -- with, each once, oldest first. This is for a directory as the store writes it, nothing
  -- refused, weeks as `IsWeeks` says, cursors that are read back as they were printed, a cursor at
  -- a timestamp in the week it names, and bounds within 2^61 milliseconds of 1970.
  pub read_back-wanted :
      (fuel : ℕ) (filter : LogFilter) (cursor : Option LogCursor)
      → NearOption filter.from
      → NearOption filter.to
      → Reads p filter cursor backward
      → PlacedOption p.weeks cursor
      → length (left filter cursor) < fuel
      → read_back p refuses service root fuel filter ≡ some (lines (left filter cursor))
  read_back-wanted zero filter cursor from to reads placed h = absurd (omega (arith, h))
  read_back-wanted (suc fuel) filter cursor from to reads placed h =
      let all = left filter cursor in
      let (page, e, is_page) =
        query-IsPage p refuses calm service root dir found laws valid filter cursor backward from to
          reads placed in
      let (n, last) = last_page filter cursor page is_page in
      read_back-step filter fuel page e ∙ elim (Bool-cases (ltb (suc n) (length all))) [
        | inl more ↦
            let far = ltb→lt (suc n) (length all) more in
            let back = IsOlder-page filter cursor n page reads last far in
            let filter' = record filter { before = page.older_cursor } in
            let rec =
              read_back-wanted fuel filter' (some (cursor_of back.entry)) from to back.reads
                back.placed
                (omega (arith, h, far, length-front_part (suc n) all, ap length back.rest_left)) in
            joined page.has_older (read_back p refuses service root fuel filter')
              (lines (front_part (suc n) all)) page.items (lines all) (last.more ∙ more)
              (rec ∙ ap (λ xs. some (lines xs)) back.rest_left)
              (ap (λ xs. lines (front_part (suc n) all) ++ xs) last.items
                ∙ sym (
                    map-append (λ (e : StoredLog). e.line) (front_part (suc n) all)
                      (last_part (suc n) all))
                ∙ ap lines (parts_join (suc n) all))
        | inr all_read ↦
            joined_last page.has_older
              (read_back p refuses service root fuel (record filter { before = page.older_cursor }))
              page.items (lines all) (last.more ∙ all_read)
              (last.items ∙ ap lines (last_part-all (suc n) all all_read))
      ]
