-- ===== src/Logs/Rows/Decoded.antt =====
-- src/logs/store.rs: what is read of one week, in terms of all entries of the week in their order.
use mathlib.Core.List.{reverse, reverse-cons, append-nil}
use vpsiner.Prelude.{
  ℕ, zero, suc, ◌≡◌, refl, sym, ap, ◌∙◌, Bool, String, List, [], ◌∷◌, ◌++◌, none, some, ℤ, take,
  keep, keep-append, All, All-keep, All-reverse, Text, Bool-cases, Option-cases, inl, inr, arith,
}
use vpsiner.Logs.Rows.{
  LogRow, StoredLog, Direction, backward, forward, row_before, insert_ordered, order_rows,
  in_direction, select_rows, decode_row, decode_rows,
}

pub keep-reverse {ℓ} :
    {A : Type ℓ} (p : A → Bool) (xs : List A) → keep p (reverse xs) ≡ reverse (keep p xs)
keep-reverse p [] = refl
keep-reverse p (x ∷ xs) = elim (Bool-cases (p x)) [
  | inl e ↦ rw (reverse-cons, keep-append, keep-reverse p xs, e) (rw reverse-cons)
  | inr e ↦ rw (reverse-cons, keep-append, keep-reverse p xs, e) (append-nil (reverse (keep p xs)))
]

module _ (P : LogRow → Type 0) where
  pub All-insert_ordered :
      (r : LogRow) (rows : List LogRow) → P r → All P rows → All P (insert_ordered r rows)
  unfolding insert_ordered
  All-insert_ordered r [] h k = (h, tt)
  All-insert_ordered r (x ∷ rows) h k = elim (Bool-cases (row_before r x)) [
    | inl e ↦ rw e (h, k)
    | inr e ↦ rw e (k.0, All-insert_ordered r rows h k.1)
  ]

  pub All-order_rows : (rows : List LogRow) → All P rows → All P (order_rows rows)
  unfolding order_rows
  All-order_rows [] h = tt
  All-order_rows (r ∷ rows) h = All-insert_ordered r (order_rows rows) h.0 (All-order_rows rows h.1)

  All-in_direction : (d : Direction) (rows : List LogRow) → All P rows → All P (in_direction d rows)
  All-in_direction forward rows h = h
  All-in_direction backward rows h = All-reverse P rows h

module _ (service : String) (week : Text) (week_start : ℤ) where
  pub decode_rows-append :
      (xs ys : List LogRow)
      → decode_rows service week week_start (xs ++ ys)
        ≡ decode_rows service week week_start xs ++ decode_rows service week week_start ys
  unfolding decode_rows
  decode_rows-append [] ys = refl
  decode_rows-append (x ∷ xs) ys = ground (arith, decode_rows-append xs ys)

  decode_rows-none :
      (r : LogRow) (rows : List LogRow)
      → decode_row service week week_start r ≡ none
      → decode_rows service week week_start (r ∷ rows) ≡ decode_rows service week week_start rows
  unfolding decode_rows
  decode_rows-none r rows e = ground arith

  pub decode_rows-some :
      (r : LogRow) (entry : StoredLog) (rows : List LogRow)
      → decode_row service week week_start r ≡ some entry
      → decode_rows service week week_start (r ∷ rows)
        ≡ entry ∷ decode_rows service week week_start rows
  unfolding decode_rows
  decode_rows-some r entry rows e = ground arith

  decode_rows-nil : decode_rows service week week_start [] ≡ []
  unfolding decode_rows
  decode_rows-nil = refl

  decode_rows-reverse :
      (xs : List LogRow)
      → decode_rows service week week_start (reverse xs)
        ≡ reverse (decode_rows service week week_start xs)
  decode_rows-reverse [] = rw decode_rows-nil
  decode_rows-reverse (x ∷ xs) =
      rw (reverse-cons, decode_rows-append, decode_rows-reverse xs)
        (elim (Option-cases (decode_row service week week_start x)) [
          | inl e ↦
              rw (decode_rows-none x [] e, decode_rows-none x xs e, decode_rows-nil)
                (append-nil (reverse (decode_rows service week week_start xs)))
          | inr (entry, e) ↦
              rw (decode_rows-some x entry [] e, decode_rows-some x entry xs e, decode_rows-nil)
                (sym (reverse-cons entry (decode_rows service week week_start xs)))
        ])

  pub decode_rows-in_direction :
      (d : Direction) (xs : List LogRow)
      → decode_rows service week week_start (in_direction d xs)
        ≡ in_direction d (decode_rows service week week_start xs)
  decode_rows-in_direction forward xs = refl
  decode_rows-in_direction backward xs = decode_rows-reverse xs

  module _ (where_holds : LogRow → Bool) (wanted : StoredLog → Bool) where
    -- The row is readable, and is asked for exactly if its entry is.
    abbrev pub IsSeen : LogRow → Type 0
    IsSeen r =
        (entry : StoredLog) × (decode_row service week week_start r ≡ some entry)
        × (where_holds r ≡ wanted entry)

    decode_rows-take :
        (n : ℕ) (rows : List LogRow)
        → All IsSeen rows
        → decode_rows service week week_start (take n rows)
          ≡ take n (decode_rows service week week_start rows)
    unfolding decode_rows
    decode_rows-take zero rows h = refl
    decode_rows-take (suc n) [] h = refl
    decode_rows-take (suc n) (r ∷ rows) h = ground (arith, decode_rows-take n rows h.1)

    decode_rows-keep :
        (rows : List LogRow)
        → All IsSeen rows
        → decode_rows service week week_start (keep where_holds rows)
          ≡ keep wanted (decode_rows service week week_start rows)
    unfolding decode_rows
    decode_rows-keep [] h = refl
    decode_rows-keep (r ∷ rows) h = ground (arith, decode_rows-keep rows h.1)

    -- Of the rows that are asked for, in their order, as many as the limit allows.
    pub select_rows-decoded :
        (d : Direction) (limit : ℕ) (rows : List LogRow)
        → All IsSeen rows
        → decode_rows service week week_start (select_rows where_holds d limit rows)
          ≡ take limit
              (keep wanted (in_direction d (decode_rows service week week_start (order_rows rows))))
    unfolding select_rows
    select_rows-decoded d limit rows h =
        let ordered = All-in_direction IsSeen d (order_rows rows) (All-order_rows IsSeen rows h) in
        decode_rows-take limit (keep where_holds (in_direction d (order_rows rows)))
          (All-keep IsSeen where_holds (in_direction d (order_rows rows)) ordered)
        ∙ ap (take limit) (
            decode_rows-keep (in_direction d (order_rows rows)) ordered
            ∙ ap (keep wanted) (decode_rows-in_direction d (order_rows rows)))
