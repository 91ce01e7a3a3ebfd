-- ===== src/Logs/Store/Wanted.antt =====
-- src/logs/store.rs: which entries a query asks for, apart from how they are stored.
use vpsiner.Prelude.{
  ◌≡◌, refl, ap₂, sym, ◌∙◌, Bool, true, false, ◌&&◌, ◌||◌, String, Option, none, some, ◌>>=◌, ℤ,
  pos, ◌+ℤ◌, ◌-ℤ◌, ◌≤ℤ◌, ◌<ℤ◌, eq_ℤ, ltb_ℤ, leb_ℤ, wrap_i64, wrap_i64-id, one_part, Text, arith,
  int_laws, +ℤ_parts, -ℤ_parts, ◌⊎◌, inl, inr, eq_ℤ_iff,
}
use vpsiner.Model.Logs.{LogFilter, LogCursor}
use vpsiner.Metrics.Bucket.Window.{IsTime}
use vpsiner.Logs.Helpers.{sanitize_fts_query}
use vpsiner.Logs.Weeks.{Weeks, IsWeeks, week_ms}
use vpsiner.Logs.Rows.{
  LogRow, StoredLog, Direction, backward, forward, at_least, at_most, push_filters, push_cursor,
}
use vpsiner.Logs.Rows.Readable.{
  IsRow, entry_of, wants_level, wants_stream, in_levels-wants, in_streams-wants,
}
use vpsiner.Logs.Store.{Platform, query_holds, where_of}

abbrev pub from_on : Option ℤ → ℤ → Bool
from_on none ts = true
from_on (some from) ts = leb_ℤ from ts

abbrev pub up_to : Option ℤ → ℤ → Bool
up_to none ts = true
up_to (some to) ts = leb_ℤ ts to

-- The order of the timeline: by time, and by id where the times are the same.
abbrev pub before : ℤ → ℤ → ℤ → ℤ → Bool
before ts id ts' id' = ltb_ℤ ts ts' || (eq_ℤ ts ts' && ltb_ℤ id id')

-- On the far side of the cursor in the direction of the scan.
abbrev pub beyond : Option LogCursor → Direction → StoredLog → Bool
beyond none d e = true
beyond (some c) backward e = before e.ts e.id c.ts c.id
beyond (some c) forward e = before c.ts c.id e.ts e.id

abbrev pub wants_text : Platform → Option Text → String → Bool
wants_text p none line = true
wants_text p (some query) line = p.matches query line

-- What the filter asks of an entry, its cursors apart.
abbrev pub wants : Platform → LogFilter → StoredLog → Bool
wants p filter e =
    wants_text p (filter.query >>= sanitize_fts_query p.is_whitespace) e.line.line
    && (from_on filter.from e.ts
        && up_to filter.to e.ts
        && wants_level filter.levels e.line.level
        && wants_stream filter.streams e.line.stream)

abbrev pub wanted : Platform → LogFilter → Option LogCursor → Direction → StoredLog → Bool
wanted p filter cursor d e = wants p filter e && beyond cursor d e

-- A bound of a filter is near the epoch, if there is one.
abbrev pub NearOption : Option ℤ → Type 0
NearOption none = Unit
NearOption (some ts) = IsTime ts

-- The cursor lies in its week.
pub record IsPlaced (w : Weeks) (c : LogCursor) : Type 0 where
  pub start : ℤ
  pub start_eq : w.start c.week ≡ some start
  pub within : (start ≤ℤ c.ts) × (c.ts <ℤ start +ℤ pos week_ms)
  pub near : IsTime c.ts

abbrev pub PlacedOption : Weeks → Option LogCursor → Type 0
PlacedOption w none = Unit
PlacedOption w (some c) = IsPlaced w c

-- A bound is moved to the start of the week without wrapping around.
relative-wrap : (a b : ℤ) → IsTime a → IsTime b → wrap_i64 (a -ℤ b) ≡ a -ℤ b
relative-wrap a b h k = wrap_i64-id (a -ℤ b) (omega (int_laws, one_part (a -ℤ b), h.above, k.above))

leb-shift : (a b s : ℤ) → leb_ℤ (a -ℤ s) b ≡ leb_ℤ a (b +ℤ s)
leb-shift a b s = ground (arith, +ℤ_parts b s, -ℤ_parts a s)

leb-shift_right : (a b s : ℤ) → leb_ℤ b (a -ℤ s) ≡ leb_ℤ (b +ℤ s) a
leb-shift_right a b s = ground (arith, +ℤ_parts b s, -ℤ_parts a s)

module _ (week_start : ℤ) (near : IsTime week_start) where
  at_least-from_on :
      (from : Option ℤ) (ts_rel : ℤ)
      → NearOption from
      → at_least from week_start ts_rel ≡ from_on from (ts_rel +ℤ week_start)
  at_least-from_on none ts_rel h = refl
  at_least-from_on (some from) ts_rel h =
      rw (relative-wrap from week_start h near) (leb-shift from ts_rel week_start)

  at_most-up_to :
      (to : Option ℤ) (ts_rel : ℤ)
      → NearOption to
      → at_most to week_start ts_rel ≡ up_to to (ts_rel +ℤ week_start)
  at_most-up_to none ts_rel h = refl
  at_most-up_to (some to) ts_rel h =
      rw (relative-wrap to week_start h near) (leb-shift_right to ts_rel week_start)

  push_filters-wants :
      (service : String) (week : Text) (filter : LogFilter) (r : LogRow) (h : IsRow r)
      → NearOption filter.from
      → NearOption filter.to
      → push_filters filter week_start r ≡ (
          let e = entry_of service week week_start r h in
          (from_on filter.from e.ts
            && up_to filter.to e.ts
            && wants_level filter.levels e.line.level
            && wants_stream filter.streams e.line.stream))
  unfolding push_filters
  push_filters-wants service week filter r h from to =
      rw
        (
          at_least-from_on filter.from r.ts_rel from,
          at_most-up_to filter.to r.ts_rel to,
          h.level_code_eq,
          h.stream_code,
          in_levels-wants,
          in_streams-wants,
        )
        refl

  module _ (r : LogRow) (h : IsRow r) (c : LogCursor) {w : Weeks} (placed : IsPlaced w c) where
    push_cursor-same :
        (d : Direction)
        → week_start ≡ placed.start
        → push_cursor c placed.start week_start d r ≡ (elim d [
          | backward ↦ before (r.ts_rel +ℤ week_start) r.id c.ts c.id
          | forward ↦ before c.ts c.id (r.ts_rel +ℤ week_start) r.id
        ])
    unfolding push_cursor
    push_cursor-same backward e =
        rw ((eq_ℤ_iff week_start placed.start).1 e, relative-wrap c.ts week_start placed.near near)
          (ground (arith, +ℤ_parts r.ts_rel week_start, -ℤ_parts c.ts week_start))
    push_cursor-same forward e =
        rw ((eq_ℤ_iff week_start placed.start).1 e, relative-wrap c.ts week_start placed.near near)
          (ground (arith, +ℤ_parts r.ts_rel week_start, -ℤ_parts c.ts week_start))

    -- In another week every entry is on one side of the cursor.
    other_side :
        (placed.start +ℤ pos week_ms ≤ℤ week_start) ⊎ (week_start +ℤ pos week_ms ≤ℤ placed.start)
        → (r.ts_rel +ℤ week_start <ℤ c.ts) ⊎ (c.ts <ℤ r.ts_rel +ℤ week_start)
    other_side (inl e) = inr (omega (int_laws, h.within, placed.within))
    other_side (inr e) = inl (omega (int_laws, h.within, placed.within))

    other_week :
        (placed.start +ℤ pos week_ms ≤ℤ week_start) ⊎ (week_start +ℤ pos week_ms ≤ℤ placed.start)
        → eq_ℤ week_start placed.start ≡ false
    other_week (inl e) = ground (arith, +ℤ_parts placed.start (pos week_ms))
    other_week (inr e) = ground (arith, +ℤ_parts week_start (pos week_ms))

    push_cursor-other :
        (d : Direction)
        → (placed.start +ℤ pos week_ms ≤ℤ week_start) ⊎ (week_start +ℤ pos week_ms ≤ℤ placed.start)
        → push_cursor c placed.start week_start d r ≡ (elim d [
          | backward ↦ before (r.ts_rel +ℤ week_start) r.id c.ts c.id
          | forward ↦ before c.ts c.id (r.ts_rel +ℤ week_start) r.id
        ])
    unfolding push_cursor
    push_cursor-other backward e =
        rw (other_week e, relative-wrap c.ts week_start placed.near near)
          (elim (other_side e) [
            | inl lt ↦ ground (arith, +ℤ_parts r.ts_rel week_start, -ℤ_parts c.ts week_start)
            | inr gt ↦ ground (arith, +ℤ_parts r.ts_rel week_start, -ℤ_parts c.ts week_start)
          ])
    push_cursor-other forward e =
        rw (other_week e, relative-wrap c.ts week_start placed.near near)
          (elim (other_side e) [
            | inl lt ↦ ground (arith, +ℤ_parts r.ts_rel week_start, -ℤ_parts c.ts week_start)
            | inr gt ↦ ground (arith, +ℤ_parts r.ts_rel week_start, -ℤ_parts c.ts week_start)
          ])

    pub push_cursor-beyond :
        (service : String) (week : Text) (d : Direction)
        → (week_start ≡ placed.start)
          ⊎ ((placed.start +ℤ pos week_ms ≤ℤ week_start)
              ⊎ (week_start +ℤ pos week_ms ≤ℤ placed.start))
        → push_cursor c placed.start week_start d r
          ≡ beyond (some c) d (entry_of service week week_start r h)
    push_cursor-beyond service week backward (inl e) = push_cursor-same backward e
    push_cursor-beyond service week backward (inr e) = push_cursor-other backward e
    push_cursor-beyond service week forward (inl e) = push_cursor-same forward e
    push_cursor-beyond service week forward (inr e) = push_cursor-other forward e

&&_true : (b : Bool) → (b && true) ≡ b
&&_true true = refl
&&_true false = refl

-- The statement of a week and the entries that are wanted agree on its rows.
module _ (p : Platform) (laws : IsWeeks p.weeks) (service : String) (week : Text)
    (week_start : ℤ) where
  sides :
      {a b : ℤ}
      → (a ≡ b) ⊎ ((a +ℤ pos week_ms ≤ℤ b) ⊎ (b +ℤ pos week_ms ≤ℤ a))
      → (a ≡ b) ⊎ ((b +ℤ pos week_ms ≤ℤ a) ⊎ (a +ℤ pos week_ms ≤ℤ b))
  sides (inl e) = inl e
  sides (inr (inl e)) = inr (inr e)
  sides (inr (inr e)) = inr (inl e)

  query_holds-wants_text :
      (query : Option Text) (r : LogRow) → query_holds p query r ≡ wants_text p query r.line
  query_holds-wants_text none r = refl
  query_holds-wants_text (some query) r = refl

  pub where_of-wanted :
      (filter : LogFilter) (cursor : Option LogCursor) (d : Direction)
      → p.weeks.start week ≡ some week_start
      → IsTime week_start
      → NearOption filter.from
      → NearOption filter.to
      → PlacedOption p.weeks cursor
      → (where_holds : LogRow → Bool) × (where_of p filter
            (filter.query >>= sanitize_fts_query p.is_whitespace)
            cursor
            d
            week_start
          ≡ some where_holds)
        × ((r : LogRow) (h : IsRow r)
            → where_holds r ≡ wanted p filter cursor d (entry_of service week week_start r h))
  unfolding where_of
  where_of-wanted filter none d e near from to placed = (
    _,
    refl,
    λ r h.
        ap₂ ◌&&◌ (query_holds-wants_text (filter.query >>= sanitize_fts_query p.is_whitespace) r)
          (push_filters-wants week_start near service week filter r h from to)
        ∙ sym (&&_true (wants p filter (entry_of service week week_start r h))),
  )
  where_of-wanted filter (some c) d e near from to placed = (
    _,
    rw (placed.start_eq, ◌>>=◌) refl,
    λ r h.
        ap₂ ◌&&◌
          (ap₂ ◌&&◌ (query_holds-wants_text (filter.query >>= sanitize_fts_query p.is_whitespace) r)
            (push_filters-wants week_start near service week filter r h from to))
          (push_cursor-beyond week_start near r h c placed service week d
            (sides (laws.apart week c.week week_start placed.start e placed.start_eq))),
  )
