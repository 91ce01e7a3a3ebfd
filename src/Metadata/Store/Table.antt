-- ===== src/Metadata/Store/Table.antt =====
-- src/metadata/mod.rs: what a `services` table keeps: its `UNIQUE` names, its primary keys, and ids
-- that are never given out again.
use vpsiner.Prelude.{
  subst, ℕ, ◌<◌, ◌+◌, ◌≡◌, ap, ◌∙◌, sym, String, none, some, List, [], ◌∷◌, ◌++◌, arith, ◌⊎◌, inl,
  inr, ◌↔◌, ℤ, Bool-cases, Eq-String, Eq-ℕ, some,
}
use text.Mathlib.Text.{◌==◌ as str_eq}
use text.Mathlib.TextEquality.{eq_iff}
use vpsiner.Metadata.Store.{
  ServiceRow, Services, find_name, update_seen, touch_rows, spared, expired,
}

-- A row of the table with this id and name.
abbrev pub Has : List ServiceRow → ℕ → String → Type 0
Has [] sid name = ⊥
Has (row ∷ rest) sid name = ((row.sid ≡ sid) × (row.name ≡ name)) ⊎ Has rest sid name

pub record IsTable (db : Services) : Type 0 where
  pub issued : (i : ℕ) (n : String) → Has db.rows i n → i < db.next_sid
  pub one_id : (i j : ℕ) (n : String) → Has db.rows i n → Has db.rows j n → i ≡ j
  pub one_name : (i : ℕ) (n m : String) → Has db.rows i n → Has db.rows i m → n ≡ m

pub find_name-Has :
    (n : String) (rows : List ServiceRow) (row : ServiceRow)
    → find_name n rows ≡ some row
    → Has rows row.sid n
unfolding find_name
find_name-Has n [] row h = cc
find_name-Has n (x ∷ rest) row h = elim (Bool-cases (str_eq x.name n)) [
  | inl same ↦
      let e : x ≡ row = ground arith in
      inl (ap (λ (r : ServiceRow). r.sid) e, (eq_iff x.name n).0 same)
  | inr other ↦ inr (find_name-Has n rest row (rw other at h))
]

pub find_name-none :
    (n : String) (rows : List ServiceRow) (i : ℕ) → find_name n rows ≡ none → ¬ Has rows i n
unfolding find_name
find_name-none n [] i h = λ x. x
find_name-none n (x ∷ rest) i h = elim (Bool-cases (str_eq x.name n)) [
  | inl same ↦ absurd (ground arith)
  | inr other ↦ λ held. elim held [
    | inl first ↦ absurd (ground (arith, other, eq_iff x.name n, first.1))
    | inr later ↦ find_name-none n rest i (rw other at h) later
  ]
]

-- Refreshing a stamp changes no id and no name.
pub update_seen-Has :
    (n : String) (now : ℤ) (rows : List ServiceRow) (i : ℕ) (m : String)
    → Has (update_seen n now rows) i m ↔ Has rows i m
unfolding update_seen
update_seen-Has n now [] i m = (λ h. h, λ h. h)
update_seen-Has n now (x ∷ rest) i m = ground (arith, update_seen-Has n now rest i m)

pub touch_rows-Has :
    (sid : ℕ) (now : ℤ) (rows : List ServiceRow) (i : ℕ) (m : String)
    → Has (touch_rows sid now rows) i m ↔ Has rows i m
unfolding touch_rows
touch_rows-Has sid now [] i m = (λ h. h, λ h. h)
touch_rows-Has sid now (x ∷ rest) i m = ground (arith, touch_rows-Has sid now rest i m)

Has-append :
    (rows : List ServiceRow) (row : ServiceRow) (i : ℕ) (m : String)
    → Has (rows ++ row ∷ []) i m ↔ (Has rows i m ⊎ ((row.sid ≡ i) × (row.name ≡ m)))
Has-append [] row i m = ground arith
Has-append (x ∷ rest) row i m = ground (arith, Has-append rest row i m)

abbrev pub In : ℕ → List ℕ → Type 0
In i [] = ⊥
In i (j ∷ rest) = (j ≡ i) ⊎ In i rest

pub spared-Has :
    (cutoff : ℤ) (rows : List ServiceRow) (i : ℕ) (m : String)
    → Has (spared cutoff rows) i m
    → Has rows i m
unfolding spared
spared-Has cutoff [] i m h = h
spared-Has cutoff (x ∷ rest) i m h = ground (arith, spared-Has cutoff rest i m)

pub spared-or-expired :
    (cutoff : ℤ) (rows : List ServiceRow) (i : ℕ) (m : String)
    → Has rows i m
    → Has (spared cutoff rows) i m ⊎ In i (expired cutoff rows)
unfolding spared expired
spared-or-expired cutoff [] i m h = absurd h
spared-or-expired cutoff (x ∷ rest) i m h = ground (arith, spared-or-expired cutoff rest i m)

-- A name or id of a table that is not in a row is not in use.
pub not_issued : (db : Services) (m : String) → IsTable db → ¬ Has db.rows db.next_sid m
not_issued db m t held = absurd (omega (arith, t.issued db.next_sid m held))

pub update_seen-IsTable :
    (n : String) (now : ℤ) (db : Services)
    → IsTable db
    → IsTable (record db { rows = update_seen n now db.rows })
update_seen-IsTable n now db t = record {
  issued = λ i m h. t.issued i m ((update_seen-Has n now db.rows i m).0 h);
  one_id = λ i j m h k.
      t.one_id i j m ((update_seen-Has n now db.rows i m).0 h)
        ((update_seen-Has n now db.rows j m).0 k);
  one_name = λ i m o h k.
      t.one_name i m o ((update_seen-Has n now db.rows i m).0 h)
        ((update_seen-Has n now db.rows i o).0 k);
}

pub touch_rows-IsTable :
    (sid : ℕ) (now : ℤ) (db : Services)
    → IsTable db
    → IsTable (record db { rows = touch_rows sid now db.rows })
touch_rows-IsTable sid now db t = record {
  issued = λ i m h. t.issued i m ((touch_rows-Has sid now db.rows i m).0 h);
  one_id = λ i j m h k.
      t.one_id i j m ((touch_rows-Has sid now db.rows i m).0 h)
        ((touch_rows-Has sid now db.rows j m).0 k);
  one_name = λ i m o h k.
      t.one_name i m o ((touch_rows-Has sid now db.rows i m).0 h)
        ((touch_rows-Has sid now db.rows i o).0 k);
}

pub spared-IsTable :
    (cutoff : ℤ) (db : Services) → IsTable db → IsTable (record db { rows = spared cutoff db.rows })
spared-IsTable cutoff db t = record {
  issued = λ i m h. t.issued i m (spared-Has cutoff db.rows i m h);
  one_id = λ i j m h k.
      t.one_id i j m (spared-Has cutoff db.rows i m h) (spared-Has cutoff db.rows j m k);
  one_name = λ i m o h k.
      t.one_name i m o (spared-Has cutoff db.rows i m h) (spared-Has cutoff db.rows i o k);
}

abbrev pub new_row : Services → String → ℤ → Services
new_row db n now = record {
  rows = db.rows ++ record { sid = db.next_sid; name = n; last_seen_ms = now } ∷ [];
  next_sid = db.next_sid + 1;
}

pub new_row-Has :
    (db : Services) (n : String) (now : ℤ) (i : ℕ) (m : String)
    → Has (new_row db n now).rows i m ↔ (Has db.rows i m ⊎ ((db.next_sid ≡ i) × (n ≡ m)))
new_row-Has db n now i m =
    Has-append db.rows (record { sid = db.next_sid; name = n; last_seen_ms = now }) i m

pub new_row-IsTable :
    (db : Services) (n : String) (now : ℤ)
    → find_name n db.rows ≡ none
    → IsTable db
    → IsTable (new_row db n now)
new_row-IsTable db n now fresh t = record {
  issued = λ i m h. elim ((new_row-Has db n now i m).0 h) [
    | inl held ↦ omega (arith, t.issued i m held)
    | inr (e, _) ↦ omega arith
  ];
  one_id = λ i j m h k. elim ((new_row-Has db n now i m).0 h) [
    | inl a ↦ elim ((new_row-Has db n now j m).0 k) [
      | inl b ↦ t.one_id i j m a b
      | inr (_, named) ↦
          absurd (find_name-none n db.rows i fresh (subst (λ x. Has db.rows i x) (sym named) a))
    ]
    | inr (e, named) ↦ elim ((new_row-Has db n now j m).0 k) [
      | inl b ↦
          absurd (find_name-none n db.rows j fresh (subst (λ x. Has db.rows j x) (sym named) b))
      | inr (f, _) ↦ sym e ∙ f
    ]
  ];
  one_name = λ i m o h k. elim ((new_row-Has db n now i m).0 h) [
    | inl a ↦ elim ((new_row-Has db n now i o).0 k) [
      | inl b ↦ t.one_name i m o a b
      | inr (f, _) ↦ absurd (omega (arith, t.issued i m a, f))
    ]
    | inr (e, named) ↦ elim ((new_row-Has db n now i o).0 k) [
      | inl b ↦ absurd (omega (arith, t.issued i o b, e))
      | inr (_, g) ↦ sym named ∙ g
    ]
  ];
}
