-- ===== src/Metadata/Store/Statements.antt =====
-- src/metadata/mod.rs: what the statements on `services` do to the table.
use vpsiner.Prelude.{
  ℕ, ◌≤◌, ◌<◌, ◌^◌, ◌≡◌, refl, subst, String, Bool, true, false, Option, none, some, List, [], ◌∷◌,
  arith, inl, inr, ℤ,
}
use vpsiner.Error.{AppResult, ok}
use vpsiner.Model.Metrics.{ServiceId}
use vpsiner.Metadata.Store.{
  ServiceRow, Services, service_id, service_ids, find_name, resolve_service, touch_service, expired,
  delete_services_before,
}
use vpsiner.Metadata.Store.Table.{
  Has, In, IsTable, find_name-Has, update_seen-Has, touch_rows-Has, spared-Has, spared-or-expired,
  update_seen-IsTable, touch_rows-IsTable, spared-IsTable, new_row-Has, new_row-IsTable,
}

-- The table after a statement: well formed, and no id of before has changed its meaning.
pub record IsLater (db db' : Services) : Type 0 where
  pub table : IsTable db'
  pub grows : db.next_sid ≤ db'.next_sid
  pub meaning : (i : ℕ) (m : String) → Has db'.rows i m → i < db.next_sid → Has db.rows i m

pub IsLater-refl : (db : Services) → IsTable db → IsLater db db
IsLater-refl db t = record { table = t; grows = omega arith; meaning = λ i m h _. h }

pub IsLater-trans : (a b c : Services) → IsLater a b → IsLater b c → IsLater a c
IsLater-trans a b c f g = record {
  table = g.table;
  grows = omega (arith, f.grows, g.grows);
  meaning = λ i m h lt. f.meaning i m (g.meaning i m h (omega (arith, f.grows, lt))) lt;
}

pub service_id-ok : (v sid : ℕ) → service_id v ≡ ok sid → v ≡ sid
unfolding service_id
service_id-ok v sid h = ground arith

-- An upsert keeps every row, and an id that it answers is that of a row with the name.
pub record IsResolved (name : String) (db : Services) (result : AppResult ServiceId × Services)
    : Type 0 where
  pub later : IsLater db result.1
  pub kept : (i : ℕ) (m : String) → Has db.rows i m → Has result.1.rows i m
  pub found : (sid : ServiceId) → result.0 ≡ ok sid → Has result.1.rows sid name

IsResolved-by :
    (name : String) (now : ℤ) (db : Services)
    → IsTable db
    → (o : Option ServiceRow) → find_name name db.rows ≡ o
    → IsResolved name db (resolve_service false name now db)
unfolding resolve_service
IsResolved-by name now db t none e =
    rw (e, resolve_service)
      (record {
        later = record {
          table = new_row-IsTable db name now e t;
          grows = omega arith;
          meaning = λ i m h lt. elim ((new_row-Has db name now i m).0 h) [
            | inl held ↦ held
            | inr (e, _) ↦ absurd (omega (arith, e, lt))
          ];
        };
        kept = λ i m h. (new_row-Has db name now i m).1 (inl h);
        found = λ sid h.
            (new_row-Has db name now sid name).1 (inr (service_id-ok db.next_sid sid h, refl));
      })
IsResolved-by name now db t (some row) e =
    rw (e, resolve_service)
      (record {
        later = record {
          table = update_seen-IsTable name now db t;
          grows = omega arith;
          meaning = λ i m h lt. (update_seen-Has name now db.rows i m).0 h;
        };
        kept = λ i m h. (update_seen-Has name now db.rows i m).1 h;
        found = λ sid h. (update_seen-Has name now db.rows sid name).1 (
            subst (λ x. Has db.rows x name) (service_id-ok row.sid sid h)
              (find_name-Has name db.rows row e));
      })

pub resolve_service-IsResolved :
    (refused : Bool) (name : String) (now : ℤ) (db : Services)
    → IsTable db
    → IsResolved name db (resolve_service refused name now db)
unfolding resolve_service
resolve_service-IsResolved true name now db t = record {
  later = IsLater-refl db t;
  kept = λ i m h. h;
  found = λ sid h. cc h;
}
resolve_service-IsResolved false name now db t =
    IsResolved-by name now db t (find_name name db.rows) refl

pub touch_service-IsLater :
    (refused : Bool) (sid : ServiceId) (now : ℤ) (db : Services)
    → IsTable db
    → IsLater db (touch_service refused sid now db).1
unfolding touch_service
touch_service-IsLater true sid now db t = IsLater-refl db t
touch_service-IsLater false sid now db t = record {
  table = touch_rows-IsTable sid now db t;
  grows = omega arith;
  meaning = λ i m h lt. (touch_rows-Has sid now db.rows i m).0 h;
}

pub touch_service-kept :
    (refused : Bool) (sid : ServiceId) (now : ℤ) (db : Services) (i : ℕ) (m : String)
    → Has db.rows i m
    → Has (touch_service refused sid now db).1.rows i m
unfolding touch_service
touch_service-kept true sid now db i m h = h
touch_service-kept false sid now db i m h = (touch_rows-Has sid now db.rows i m).1 h

pub delete_services_before-IsLater :
    (refused : Bool) (cutoff : ℤ) (db : Services)
    → IsTable db
    → IsLater db (delete_services_before refused cutoff db).1
unfolding delete_services_before
delete_services_before-IsLater true cutoff db t = IsLater-refl db t
delete_services_before-IsLater false cutoff db t = record {
  table = spared-IsTable cutoff db t;
  grows = omega arith;
  meaning = λ i m h lt. spared-Has cutoff db.rows i m h;
}

expired_below :
    (cutoff : ℤ) (rows : List ServiceRow) (bound : ℕ)
    → ((i : ℕ) (n : String) → Has rows i n → i < bound)
    → (i : ℕ) → In i (expired cutoff rows)
    → i < bound
unfolding expired
expired_below cutoff [] bound h i held = absurd held
expired_below cutoff (row ∷ rest) bound h i held =
    let first = h row.sid row.name (inl (refl, refl)) in
    let later = expired_below cutoff rest bound (λ j n k. h j n (inr k)) i in ground arith

service_ids-ok : (sids : List ℕ) → ((i : ℕ) → In i sids → i < 2 ^ 32) → service_ids sids ≡ ok sids
unfolding service_ids service_id
service_ids-ok [] h = refl
service_ids-ok (v ∷ rest) h =
    let small = h v (inl refl) in
    let later = service_ids-ok rest (λ i k. h i (inr k)) in ground arith

-- While ids fit in a `u32`, the answer is the ids of the rows deleted, and a row that is not deleted
-- is kept.
pub delete_services_before-answer :
    (cutoff : ℤ) (db : Services)
    → IsTable db
    → db.next_sid ≤ 2 ^ 32
    → (delete_services_before false cutoff db).0 ≡ ok (expired cutoff db.rows)
unfolding delete_services_before
delete_services_before-answer cutoff db t small =
    service_ids-ok (expired cutoff db.rows)
      (λ i h. omega (arith, expired_below cutoff db.rows db.next_sid t.issued i h, small))

pub delete_services_before-kept :
    (cutoff : ℤ) (db : Services) (i : ℕ) (m : String)
    → Has db.rows i m
    → ¬ In i (expired cutoff db.rows)
    → Has (delete_services_before false cutoff db).1.rows i m
unfolding delete_services_before
delete_services_before-kept cutoff db i m h k = elim (spared-or-expired cutoff db.rows i m h) [
  | inl kept ↦ kept
  | inr gone ↦ absurd (k gone)
]
