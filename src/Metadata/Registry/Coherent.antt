-- ===== src/Metadata/Registry/Coherent.antt =====
-- src/metadata/service_registry.rs: the cache agrees with the table, through every operation.
use vpsiner.Prelude.{
  subst, ◌≡◌, String, some, List, [], ◌∷◌, arith, inl, inr, ◌↔◌, ◌≢◌, ℤ, lookup, lookup-insert,
  lookup-remove, Bool-cases, Option-cases, Eq-String, Eq-ℕ, ==_iff,
}
use text.Mathlib.Text.{◌==◌ as str_eq}
use text.Mathlib.TextEquality.{eq_iff}
use vpsiner.Model.Metrics.{ServiceId}
use vpsiner.Metadata.Store.{ServiceRow, Services}
use vpsiner.Metadata.Store.Table.{Has, In, IsTable}
use vpsiner.Metadata.Registry.{Inner, Registry, forget_one, forget, remember}

-- Names and ids of the cache are inverse to one another, and every pair is a row of the table.
pub record IsCache (rows : List ServiceRow) (inner : Inner) : Type 0 where
  pub inverse :
      (n : String) (i : ServiceId)
      → (lookup n inner.by_name ≡ some i) ↔ (lookup i inner.by_id ≡ some n)
  pub stored : (n : String) (i : ServiceId) → lookup n inner.by_name ≡ some i → Has rows i n

pub record IsCoherent (r : Registry) : Type 0 where
  pub table : IsTable r.store
  pub cache : IsCache r.store.rows r.inner

pub remember-IsCache :
    (db : Services) (inner : Inner) (n : String) (sid : ServiceId) (now : ℤ)
    → IsTable db
    → Has db.rows sid n
    → IsCache db.rows inner
    → IsCache db.rows (remember inner n sid now)
unfolding remember
remember-IsCache db inner n sid now t held c = record {
  inverse = λ m i.
      let to = c.inverse m i in
      let row = c.stored m i in
      let names = t.one_name sid n m held in
      let ids = t.one_id sid i n held in
      ground (
        arith,
        lookup-insert n m sid inner.by_name,
        lookup-insert sid i n inner.by_id,
        eq_iff n m,
        ==_iff sid i,
      );
  stored = λ m i h.
      let found = lookup-insert n m sid inner.by_name in
      elim (Bool-cases (str_eq n m)) [
        | inl same ↦
            let e : sid ≡ i = ground (arith, found, same, h) in
            subst (λ x. Has db.rows x m) e
              (subst (λ x. Has db.rows sid x) ((eq_iff n m).0 same) held)
        | inr other ↦ c.stored m i (ground (arith, found, other, h))
      ];
}

-- The pairs of the cache but for one id.
forget_one-by_name :
    (inner : Inner) (sid : ServiceId)
    → ((n : String) (i : ServiceId)
        → (lookup n inner.by_name ≡ some i) ↔ (lookup i inner.by_id ≡ some n))
    → (n : String) (i : ServiceId)
    → (lookup n (forget_one inner sid).by_name ≡ some i)
      ↔ ((lookup n inner.by_name ≡ some i) × (sid ≢ i))
unfolding forget_one
forget_one-by_name inner sid inverse n i = elim (Option-cases (lookup sid inner.by_id)) [
  | inl e ↦ rw (e, forget_one) (ground (arith, inverse n i, e))
  | inr (m, e) ↦
      rw (e, forget_one)
        (let removed = lookup-remove m n inner.by_name in
          let this = inverse m sid in let that = inverse n i in ground (arith, e, eq_iff m n))
]

forget_one-by_id :
    (inner : Inner) (sid : ServiceId) (n : String) (i : ServiceId)
    → (lookup i (forget_one inner sid).by_id ≡ some n)
      ↔ ((lookup i inner.by_id ≡ some n) × (sid ≢ i))
unfolding forget_one
forget_one-by_id inner sid n i = elim (Option-cases (lookup sid inner.by_id)) [
  | inl e ↦ rw (e, forget_one) (ground (arith, e))
  | inr (m, e) ↦
      rw (e, forget_one) (ground (arith, e, lookup-remove sid i inner.by_id, ==_iff sid i))
]

forget_one-IsCache :
    (rows : List ServiceRow) (inner : Inner) (sid : ServiceId)
    → IsCache rows inner
    → IsCache rows (forget_one inner sid)
forget_one-IsCache rows inner sid c = record {
  inverse = λ n i. ground (
    arith,
    forget_one-by_name inner sid c.inverse n i,
    forget_one-by_id inner sid n i,
    c.inverse n i,
  );
  stored = λ n i h. c.stored n i ((forget_one-by_name inner sid c.inverse n i).0 h).0;
}

-- What is left after forgetting is what was there, less the ids forgotten.
pub forget-IsCache :
    (rows : List ServiceRow) (inner : Inner) (sids : List ServiceId)
    → IsCache rows inner
    → IsCache rows (forget inner sids)
unfolding forget
forget-IsCache rows inner [] c = c
forget-IsCache rows inner (sid ∷ rest) c =
    forget-IsCache rows (forget_one inner sid) rest (forget_one-IsCache rows inner sid c)

pub forget-by_name :
    (rows : List ServiceRow) (inner : Inner) (sids : List ServiceId)
    → IsCache rows inner
    → (n : String) (i : ServiceId)
    → (lookup n (forget inner sids).by_name ≡ some i)
      ↔ ((lookup n inner.by_name ≡ some i) × (¬ In i sids))
unfolding forget
forget-by_name rows inner [] c n i = (λ h. (h, λ x. x), λ h. h.0)
forget-by_name rows inner (sid ∷ rest) c n i =
    let one = forget_one-by_name inner sid c.inverse n i in
    let others =
      forget-by_name rows (forget_one inner sid) rest (forget_one-IsCache rows inner sid c) n i in
    (
      (λ h. (
        (one.0 (others.0 h).0).0,
        λ held. elim held [ inl e ↦ (one.0 (others.0 h).0).1 e | inr later ↦ (others.0 h).1 later ],
      )),
      λ h. others.1 (one.1 (h.0, λ e. h.1 (inl e)), λ held. h.1 (inr held)),
    )
