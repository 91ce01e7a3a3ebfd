-- ===== src/Logs/Store/Query.antt =====
-- src/logs/store.rs: a query answers with the page of the timeline that its filter asks for.
use vpsiner.Prelude.{
  ◌+◌, ◌≡◌, ◌∙◌, String, Option, none, some, take, keep, lookup, Eq-Text, Text, codes, arith,
}
use vpsiner.Model.Logs.{LogFilter, LogCursor, LogPage}
use vpsiner.Logs.Helpers.{safe_service_path}
use vpsiner.Logs.Weeks.{IsWeeks}
use vpsiner.Logs.Rows.{Direction, backward, forward, in_direction}
use vpsiner.Logs.Store.{
  Platform, Refusals, ServiceDir, Root, done, query, read_cursor, scan_page, page_of, page_limit,
}
use vpsiner.Logs.Store.Wanted.{wanted, NearOption, PlacedOption}
use vpsiner.Logs.Store.Timeline.{IsDir, timeline}
use vpsiner.Logs.Store.Scan.{IsCalm}
use vpsiner.Logs.Store.Pages.{IsPage, page_of-IsPage, scan_page-timeline}

-- The cursor and the direction that a filter reads with.
pub data Reads (p : Platform) (filter : LogFilter) : Option LogCursor → Direction → Type 0 where
  newest : filter.before ≡ none → filter.after ≡ none → Reads p filter none backward
  older :
      (c : LogCursor) (t : Text)
      → filter.before ≡ some t
      → p.decode_cursor t ≡ some c
      → filter.after ≡ none
      → Reads p filter (some c) backward
  newer :
      (c : LogCursor) (t : Text)
      → filter.after ≡ some t
      → p.decode_cursor t ≡ some c
      → filter.before ≡ none
      → Reads p filter (some c) forward

module _ (p : Platform) (refuses : Refusals) (calm : IsCalm refuses) (service : String)
    (root : Root) (dir : ServiceDir)
    (found : lookup (safe_service_path (codes service)) root ≡ some dir) where
  query-scan_page :
      (filter : LogFilter) (cursor : Option LogCursor) (d : Direction)
      → Reads p filter cursor d
      → query p refuses service filter root ≡ scan_page p refuses service filter cursor d dir
  unfolding query read_cursor
  query-scan_page filter cursor d (newest b a) = ground (arith, calm.directory, found)
  query-scan_page filter cursor d (older c t b e a) = ground (arith, calm.directory, found)
  query-scan_page filter cursor d (newer c t a e b) = ground (arith, calm.directory, found)

  -- With nothing refused, a query of a directory as the store writes it, with at most one readable
  -- cursor, whose timestamp lies in the week it names, is answered with a page: of the entries of
  -- the timeline that are wanted, in the direction of the query, the first `limit` ones, oldest
  -- first, with cursors of the first and the last and whether there are more. Bounds lie within
  -- 2^61 milliseconds of 1970.
  pub query-IsPage :
      (laws : IsWeeks p.weeks) (valid : IsDir p.weeks dir) (filter : LogFilter)
      (cursor : Option LogCursor) (d : Direction)
      → NearOption filter.from
      → NearOption filter.to
      → Reads p filter cursor d
      → PlacedOption p.weeks cursor
      → (page : LogPage) × (query p refuses service filter root ≡ done page)
        × IsPage p filter d
            (keep (wanted p filter cursor d) (in_direction d (timeline p service dir)))
            page
  query-IsPage laws valid filter cursor d from to reads placed =
      let all = keep (wanted p filter cursor d) (in_direction d (timeline p service dir)) in
      (
        page_of p filter d (page_limit filter.limit) (take (page_limit filter.limit + 1) all),
        query-scan_page filter cursor d reads
            ∙ scan_page-timeline p laws service dir valid filter cursor from to placed refuses d
                calm,
        page_of-IsPage p filter d all,
      )
