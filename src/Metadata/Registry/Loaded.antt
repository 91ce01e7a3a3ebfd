-- ===== src/Metadata/Registry/Loaded.antt =====
-- src/metadata/service_registry.rs: `load` builds a cache that agrees with the table.
use vpsiner.Prelude.{
  ◌≡◌, refl, subst, String, Bool, true, false, List, [], ◌∷◌, arith, ◌⊎◌, inl, inr, pos, lookup,
  insert, Eq-String, Eq-ℕ, All,
}
use vpsiner.Error.{AppResult, ok, err}
use vpsiner.Model.Metrics.{ServiceId}
use vpsiner.Metadata.Store.{ServiceRow, Services, service_id, list_rows, list_services}
use vpsiner.Metadata.Store.Table.{Has, IsTable}
use vpsiner.Metadata.Store.Statements.{service_id-ok}
use vpsiner.Metadata.Registry.{Inner, Inner_default, Registry, load_all, load, remember}
use vpsiner.Metadata.Registry.Coherent.{IsCache, IsCoherent, remember-IsCache}

AppResult-cases :
    {A : Type 0} → (a : AppResult A) → ((e : _) × (a ≡ err e)) ⊎ ((x : A) × (a ≡ ok x))
AppResult-cases (ok x) = inr (x, refl)
AppResult-cases (err e) = inl (e, refl)

abbrev IsRow : List ServiceRow → ServiceId × String → Type 0
IsRow rows (sid, name) = Has rows sid name

later-IsRow :
    (x : ServiceRow) (rest : List ServiceRow) (l : List (ServiceId × String))
    → All (IsRow rest) l
    → All (IsRow (x ∷ rest)) l
later-IsRow x rest [] h = tt
later-IsRow x rest (y ∷ l) h = (inr h.0, later-IsRow x rest l h.1)

list_rows-rows :
    (rows : List ServiceRow) (listed : List (ServiceId × String))
    → list_rows rows ≡ ok listed
    → All (IsRow rows) listed
unfolding list_rows
list_rows-rows [] [] h = tt
list_rows-rows [] (y ∷ l) h = absurd (ground (arith, h))
list_rows-rows (x ∷ rest) listed h = elim (AppResult-cases (service_id x.sid)) [
  | inl (e, f) ↦ absurd (ground (arith, f, h))
  | inr (sid, f) ↦ elim (AppResult-cases (list_rows rest)) [
    | inl (e, g) ↦ absurd (ground (arith, f, g, h))
    | inr (more, g) ↦
        let e : (sid, x.name) ∷ more ≡ listed = ground (arith, f, g, h) in
        subst (λ l. All (IsRow (x ∷ rest)) l) e
          (
            inl (service_id-ok x.sid sid f, refl),
            later-IsRow x rest more (list_rows-rows rest more g),
          )
  ]
]

-- Adding a row leaves what `remember` leaves, but for the stamp.
load_all-IsCache :
    (db : Services) (inner : Inner) (listed : List (ServiceId × String))
    → IsTable db
    → All (IsRow db.rows) listed
    → IsCache db.rows inner
    → IsCache db.rows (load_all inner listed)
unfolding load_all remember
load_all-IsCache db inner [] t rows c = c
load_all-IsCache db inner ((sid, name) ∷ rest) t rows c =
    let one = remember-IsCache db inner name sid (pos 0) t rows.0 c in
    load_all-IsCache db
      (record {
        by_name = insert name sid inner.by_name;
        by_id = insert sid name inner.by_id;
        touched_ms = inner.touched_ms;
      })
      rest t rows.1 (record { inverse = one.inverse; stored = one.stored })

list_services-rows :
    (refused : Bool) (db : Services) (listed : List (ServiceId × String))
    → list_services refused db ≡ ok listed
    → All (IsRow db.rows) listed
unfolding list_services
list_services-rows true db listed h = absurd (ground (arith, h))
list_services-rows false db listed h = list_rows-rows db.rows listed h

no_pairs : (rows : List ServiceRow) → IsCache rows Inner_default
unfolding lookup
no_pairs rows = record { inverse = λ n i. (λ h. cc h, λ h. cc h); stored = λ n i h. cc h }

-- A registry that was loaded from a well-formed table is coherent, and stands over that table.
pub load-IsCoherent :
    (refused : Bool) (db : Services) (r : Registry)
    → IsTable db
    → load refused db ≡ ok r
    → IsCoherent r × (r.store ≡ db)
unfolding load
load-IsCoherent refused db r t h = elim (AppResult-cases (list_services refused db)) [
  | inl (e, f) ↦ absurd (ground (arith, f, h))
  | inr (listed, f) ↦
      let loaded : Registry = record { store = db; inner = load_all Inner_default listed } in
      let e : loaded ≡ r = ground (arith, f, h) in
      subst (λ s. IsCoherent s × (s.store ≡ db)) e
        (
          record {
            table = t;
            cache =
                load_all-IsCache db Inner_default listed t (list_services-rows refused db listed f)
                  (no_pairs db.rows);
          },
          refl,
        )
]
