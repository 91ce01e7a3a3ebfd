-- ===== src/Logs/Store/Scan.antt =====
-- src/logs/store.rs: what the scan over the week databases finds.
use mathlib.Core.List.{reverse}
use vpsiner.Prelude.{
  ℕ, ◌-◌, ◌≡◌, refl, sym, ap, ◌∙◌, Bool, true, false, ◌&&◌, String, List, [], ◌∷◌, ◌++◌, map,
  Option, none, some, ◌>>=◌, ℤ, pos, ◌+ℤ◌, ◌≤ℤ◌, ◌<ℤ◌, All, concat, take, take_nil, length-take,
  take-append_cut, keep, length, length-append, append_nil, append_assoc, lookup, Eq-Text, Text,
  leb, leb_ℤ, ltb_ℤ, if◌then◌else◌, Bool-cases, inl, inr, ◌⊎◌, ◌||◌, subst, arith, wrap_i64,
  wrap_i64-id, one_part, int_laws, leb→le,
}
use vpsiner.Model.Logs.{LogFilter, LogCursor}
use vpsiner.Metrics.Bucket.Window.{IsTime}
use vpsiner.Logs.Helpers.{sanitize_fts_query}
use vpsiner.Logs.Weeks.{near, IsWeeks, week_ms}
use vpsiner.Logs.Rows.{
  LogRow, StoredLog, Direction, backward, forward, in_direction, order_rows, decode_rows,
  select_rows,
}
use vpsiner.Logs.Rows.Readable.{IsRow, entry_of, decode_row-entry_of}
use vpsiner.Logs.Rows.Decoded.{
  keep-reverse, All-order_rows, select_rows-decoded, decode_rows-some, IsSeen,
}
use vpsiner.Logs.Store.{
  Platform, Refusals, ServiceDir, done, or_empty, week_matches, not_before, not_after, read_week,
  read_weeks, where_of,
}
use vpsiner.Logs.Store.Wanted.{
  up_to, from_on, wanted, beyond, NearOption, PlacedOption, where_of-wanted,
}
use vpsiner.Logs.Store.Timeline.{IsDir, entries, Starts}

-- Nothing is refused.
pub record IsCalm (refuses : Refusals) : Type 0 where
  pub directory : refuses.directory ≡ false
  pub opening : (name : Text) → refuses.opening name ≡ false
  pub writing : (name : Text) → refuses.writing name ≡ false

full_page :
    (target : ℕ) (page : List StoredLog)
    → leb target (length page) ≡ true
    → target - length page ≡ 0
full_page target page h = omega (arith, leb→le target (length page) h)

-- What a week leaves of the room on the page.
room :
    (target : ℕ) (page found : List StoredLog)
    → target - length (page ++ take (target - length page) found)
      ≡ target - length page - length found
room target page found = omega (
  arith,
  length-append page (take (target - length page) found),
  length-take (target - length page) found,
)

up_to-before :
    (to : Option ℤ) (start ts : ℤ) → not_before to start ≡ true → start ≤ℤ ts → up_to to ts ≡ false
up_to-before none start ts e h = cc e
up_to-before (some to) start ts e h = ground arith

from_on-after :
    (from : Option ℤ) (end ts : ℤ) → not_after from end ≡ true → ts <ℤ end → from_on from ts ≡ false
from_on-after none end ts e h = cc e
from_on-after (some from) end ts e h = ground arith

-- Whether a week can hold an entry beyond the cursor.
abbrev reaches : Option LogCursor → Direction → ℤ → ℤ → Bool
reaches cursor d start end = elim cursor [
  | none ↦ true
  | some c ↦ elim d [ backward ↦ leb_ℤ start c.ts | forward ↦ ltb_ℤ c.ts end ]
]

beyond-unreached :
    (cursor : Option LogCursor) (d : Direction) (start end : ℤ) (e : StoredLog)
    → start ≤ℤ e.ts
    → e.ts <ℤ end
    → reaches cursor d start end ≡ false
    → beyond cursor d e ≡ false
beyond-unreached none d start end e h k f = cc f
beyond-unreached (some c) backward start end e h k f = ground arith
beyond-unreached (some c) forward start end e h k f = ground arith

three_ways :
    (a b c : Bool) → (if a || b then false else c) ≡ false → (a ≡ true) ⊎ ((b ≡ true) ⊎ (c ≡ false))
three_ways true b c h = inl refl
three_ways false true c h = inr (inl refl)
three_ways false false c h = inr (inr h)

none_wanted :
    (text after until level stream far : Bool)
    → (until ≡ false) ⊎ ((after ≡ false) ⊎ (far ≡ false))
    → ((text && (after && until && level && stream)) && far) ≡ false
none_wanted text after until level stream far h = ground arith

unmatched :
    (p : Platform) (filter : LogFilter) (cursor : Option LogCursor) (d : Direction) (start : ℤ)
    → IsTime start
    → (e : StoredLog) → start ≤ℤ e.ts
    → e.ts <ℤ start +ℤ pos week_ms
    → week_matches start filter cursor d ≡ false
    → wanted p filter cursor d e ≡ false
unfolding week_matches
unmatched p filter cursor d start near e h k out =
    let end = start +ℤ pos week_ms in
    let whole : wrap_i64 end ≡ end =
      wrap_i64-id end (omega (int_laws, one_part end, near.above, near.below)) in
    let split : (if not_before filter.to start || not_after filter.from end
          then false
          else reaches cursor d start end)
        ≡ false =
      subst
        (λ b.
          (if not_before filter.to start || not_after filter.from b
            then false
            else reaches cursor d start b)
          ≡ false)
        whole out in
    none_wanted _ _ _ _ _ _ (elim (three_ways _ _ _ split) [
      | inl a ↦ inl (up_to-before filter.to start e.ts a h)
      | inr (inl b) ↦ inr (inl (from_on-after filter.from end e.ts b k))
      | inr (inr c) ↦ inr (inr (beyond-unreached cursor d start end e h k c))
    ])

module _ (p : Platform) (laws : IsWeeks p.weeks) (service : String) (dir : ServiceDir)
    (valid : IsDir p.weeks dir) (filter : LogFilter) (cursor : Option LogCursor) (d : Direction)
    (from : NearOption filter.from) (to : NearOption filter.to)
    (placed : PlacedOption p.weeks cursor) where
  -- What is wanted of a week, in the order of the scan.
  abbrev pub share : Text × ℤ → List StoredLog
  share w = keep (wanted p filter cursor d) (in_direction d (entries service dir w))

  seen :
      (w : Text × ℤ) (where_holds : LogRow → Bool)
      → Starts p w
      → ((r : LogRow) (h : IsRow r)
          → where_holds r ≡ wanted p filter cursor d (entry_of service w.0 w.1 r h))
      → (rows : List LogRow) → All IsRow rows
      → All (IsSeen service w.0 w.1 where_holds (wanted p filter cursor d)) rows
  seen w where_holds e agree [] h = tt
  seen w where_holds e agree (r ∷ rows) h = (
    (
      entry_of service w.0 w.1 r h.0,
      decode_row-entry_of w.1 (near laws w.0 w.1 e) r h.0 service w.0,
      agree r h.0,
    ),
    seen w where_holds e agree rows h.1,
  )

  module _ (refuses : Refusals) (calm : IsCalm refuses) where
    read_week-done :
        (limit : ℕ) (w : Text × ℤ) (where_holds : LogRow → Bool)
        → Starts p w
        → where_of p filter (filter.query >>= sanitize_fts_query p.is_whitespace) cursor d w.1
          ≡ some where_holds
        → read_week p refuses service dir filter
            (filter.query >>= sanitize_fts_query p.is_whitespace)
            cursor
            d
            limit
            w.0
          ≡ done (
              decode_rows service w.0 w.1
                (select_rows where_holds d limit (or_empty (lookup w.0 dir))))
    unfolding read_week
    read_week-done limit w where_holds e f = ground (arith, calm.opening w.0)

    read_week-share :
        (limit : ℕ) (w : Text × ℤ)
        → Starts p w
        → read_week p refuses service dir filter
            (filter.query >>= sanitize_fts_query p.is_whitespace)
            cursor
            d
            limit
            w.0
          ≡ done (take limit (share w))
    read_week-share limit w e =
        let (where_holds, f, agree) =
          where_of-wanted p laws service w.0 w.1 filter cursor d e (near laws w.0 w.1 e) from to
            placed in
        read_week-done limit w where_holds e f
        ∙ ap done (
            select_rows-decoded service w.0 w.1 where_holds (wanted p filter cursor d) d limit
              (or_empty (lookup w.0 dir))
              (seen w where_holds e agree (or_empty (lookup w.0 dir)) (valid.rows w.0)))

    -- The loop fills the page up to its target, with what is wanted of one week after another.
    pub read_weeks-shares :
        (target : ℕ) (ws : List (Text × ℤ)) (page : List StoredLog)
        → All (Starts p) ws
        → read_weeks p refuses service dir filter
            (filter.query >>= sanitize_fts_query p.is_whitespace)
            cursor
            d
            target
            (map (λ w. w.0) ws)
            page
          ≡ done (page ++ take (target - length page) (concat (map share ws)))
    unfolding read_weeks
    read_weeks-shares target [] page h = rw (take_nil, append_nil) refl
    read_weeks-shares target (w ∷ ws) page h = elim (Bool-cases (leb target (length page))) [
      | inl full ↦ rw (full, full_page target page full) (ap done (sym (append_nil page)))
      | inr more ↦
          rw (more, read_week-share (target - length page) w h.0)
            (read_weeks-shares target ws (page ++ take (target - length page) (share w)) h.1
              ∙ ap done (
                  rw
                    (
                      room target page (share w),
                      take-append_cut (target - length page) (share w) (concat (map share ws)),
                    )
                    (append_assoc page (take (target - length page) (share w))
                      (take (target - length page - length (share w)) (concat (map share ws))))))
    ]

  keep_none :
      (xs : List StoredLog)
      → All (λ e. wanted p filter cursor d e ≡ false) xs
      → keep (wanted p filter cursor d) xs ≡ []
  keep_none [] h = refl
  keep_none (x ∷ xs) h = rw (h.0, keep_none xs h.1) refl

  share_none :
      (w : Text × ℤ) (direction : Direction)
      → All (λ e. wanted p filter cursor d e ≡ false) (entries service dir w)
      → keep (wanted p filter cursor d) (in_direction direction (entries service dir w)) ≡ []
  share_none w forward h = keep_none (entries service dir w) h
  share_none w backward h =
      keep-reverse (wanted p filter cursor d) (entries service dir w)
      ∙ ap reverse (keep_none (entries service dir w) h)

  -- The entries of a week that is passed over are not wanted.
  passed :
      (w : Text × ℤ)
      → Starts p w
      → week_matches w.1 filter cursor d ≡ false
      → (rows : List LogRow) → All IsRow rows
      → All (λ e. wanted p filter cursor d e ≡ false) (decode_rows service w.0 w.1 rows)
  passed w e out [] h = unfold decode_rows in tt
  passed w e out (r ∷ rows) h =
      rw
        (decode_rows-some service w.0 w.1 r (entry_of service w.0 w.1 r h.0) rows
          (decode_row-entry_of w.1 (near laws w.0 w.1 e) r h.0 service w.0))
        (
          unmatched p filter cursor d w.1 (near laws w.0 w.1 e) (entry_of service w.0 w.1 r h.0)
              (omega (int_laws, h.0.within)) (omega (int_laws, h.0.within)) out,
          passed w e out rows h.1,
        )

  pub share-passed :
      (w : Text × ℤ) → Starts p w → week_matches w.1 filter cursor d ≡ false → share w ≡ []
  share-passed w e out = share_none w d (
      passed w e out (order_rows (or_empty (lookup w.0 dir)))
        (All-order_rows IsRow (or_empty (lookup w.0 dir)) (valid.rows w.0)))
