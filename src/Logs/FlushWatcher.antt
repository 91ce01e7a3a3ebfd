-- ===== src/Logs/FlushWatcher.antt =====
-- src/logs/flush_watcher.rs: the revisions that listeners of flushed lines watch.
use vpsiner.Prelude.{
  ℕ, suc, ◌+◌, ◌≡◌, String, Bool, true, List, [], ◌∷◌, Option, none, some, HashMap, lookup, insert,
  lookup-insert, if◌then◌else◌, Eq-String, arith,
}
use text.Mathlib.Text.{◌==◌ as str_eq}
use text.Mathlib.TextEquality.{eq_iff}

pub record LogFlushWatcher : Type 0 where
  pub services : HashMap String ℕ
  -- For listeners of every service.
  pub any : ℕ

abbrev pub LogFlushWatcher_new : LogFlushWatcher
LogFlushWatcher_new = record { services = []; any = 0 }

-- `or_insert_with`: the revision of a service, 0 for one that was never named.
abbrev pub or_insert : Option ℕ → ℕ
or_insert none = 0
or_insert (some revision) = revision

-- A receiver, which has seen the current revision, and the watcher, which now has the service.
unfoldable pub subscribe_service : LogFlushWatcher → String → ℕ × LogFlushWatcher
subscribe_service w service =
    let revision = or_insert (lookup service w.services) in
    (revision, record w { services = insert service revision w.services })

unfoldable pub subscribe_any : LogFlushWatcher → ℕ
subscribe_any w = w.any

unfoldable pub notify : LogFlushWatcher → String → LogFlushWatcher
notify w service = record {
  services = insert service (suc (or_insert (lookup service w.services))) w.services;
  any = suc w.any;
}

-- The revision of a service that a new receiver would see.
abbrev revision_of : LogFlushWatcher → String → ℕ
revision_of w service = or_insert (lookup service w.services)

-- The calls of the watcher.
pub data WatcherCall : Type 0 where
  subscribes : String → WatcherCall
  notifies : String → WatcherCall

abbrev pub call : LogFlushWatcher → WatcherCall → LogFlushWatcher
call w (subscribes s) = (subscribe_service w s).1
call w (notifies s) = notify w s

abbrev pub calls : LogFlushWatcher → List WatcherCall → LogFlushWatcher
calls w [] = w
calls w (c ∷ rest) = calls (call w c) rest

abbrev pub notifications : (String → Bool) → List WatcherCall → ℕ
notifications p [] = 0
notifications p (subscribes s ∷ rest) = notifications p rest
notifications p (notifies s ∷ rest) = (if p s then 1 else 0) + notifications p rest

call-revision :
    (w : LogFlushWatcher) (c : WatcherCall) (service : String)
    → revision_of (call w c) service
      ≡ revision_of w service + notifications (λ s. str_eq s service) (c ∷ [])
unfolding subscribe_service notify
call-revision w (subscribes s) service =
    ground (
      arith,
      lookup-insert s service (or_insert (lookup s w.services)) w.services,
      eq_iff s service,
    )
call-revision w (notifies s) service = ground (
  arith,
  lookup-insert s service (suc (or_insert (lookup s w.services))) w.services,
  eq_iff s service,
)

call-any :
    (w : LogFlushWatcher) (c : WatcherCall)
    → (call w c).any ≡ w.any + notifications (λ s. true) (c ∷ [])
unfolding subscribe_service notify
call-any w (subscribes s) = omega arith
call-any w (notifies s) = omega arith

notifications-first :
    (p : String → Bool) (c : WatcherCall) (rest : List WatcherCall)
    → notifications p (c ∷ rest) ≡ notifications p (c ∷ []) + notifications p rest
notifications-first p (subscribes s) rest = omega arith
notifications-first p (notifies s) rest = omega arith

-- From any state, whatever is called: the revision of a service is moved on by the number of
-- notifications of that service since, and the revision of all by the number of all of them.
pub calls-revisions :
    (w : LogFlushWatcher) (cs : List WatcherCall) (service : String)
    → ((subscribe_service (calls w cs) service).0
        ≡ (subscribe_service w service).0 + notifications (λ s. str_eq s service) cs)
      × (subscribe_any (calls w cs) ≡ subscribe_any w + notifications (λ s. true) cs)
unfolding subscribe_service subscribe_any
calls-revisions w [] service = (omega arith, omega arith)
calls-revisions w (c ∷ rest) service =
    let later = calls-revisions (call w c) rest service in
    (
      omega (
        arith,
        later.0,
        call-revision w c service,
        notifications-first (λ s. str_eq s service) c rest,
      ),
      omega (arith, later.1, call-any w c, notifications-first (λ s. true) c rest),
    )
