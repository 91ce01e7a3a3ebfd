-- ===== src/Logs/Weeks/Names.antt =====
-- src/logs/helpers.rs: the name of a week database gives its week back.
use vpsiner.Prelude.{
  ℕ, zero, suc, ◌+◌, ◌-◌, ◌*◌, ◌/◌, ◌%◌, ◌^◌, ◌≤◌, ◌<◌, ◌≡◌, ◌≢◌, refl, sym, ap, ◌∙◌, subst, Bool,
  true, false, ◌&&◌, [], ◌∷◌, ◌++◌, Option, none, some, ◌>>=◌, ℤ, pos, negsuc, neg, ◌*ℤ◌, pos_part,
  neg_part, ltb, leb, if◌then◌else◌, Text, codes, strip_prefix, parse_digits, parse_uint, eq_text,
  eq_text_iff, All, All-append, length, length-append, arith, Bool-cases, inl, inr, ==_iff, ltb→lt,
  append_assoc,
}
use vpsiner.Logs.Weeks.{
  Calendar, digits, show_ℕ, show_ℤ, show_padded, week_file_name, parse_i32, split_once,
  strip_suffix, database_week_start_ms,
}

abbrev IsDigit : ℕ → Type 0
IsDigit c = (b'0' ≤ c) × (c ≤ b'9')

digits-IsDigit : (fuel n : ℕ) → All IsDigit (digits fuel n)
unfolding digits
digits-IsDigit zero n = tt
digits-IsDigit (suc fuel) n = elim (Bool-cases (ltb n 10)) [
  | inl small ↦ rw small ((omega arith, ground arith), tt)
  | inr large ↦ rw large (
      All-append IsDigit (digits fuel (n / 10)) ((n % 10 + b'0') ∷ [])
        (digits-IsDigit fuel (n / 10)) (omega arith, tt))
]

parse_digits-append :
    (w acc : ℕ) (xs ys : Text)
    → parse_digits w acc (xs ++ ys) ≡ (parse_digits w acc xs >>= (λ n. parse_digits w n ys))
unfolding parse_digits
parse_digits-append w acc [] ys = refl
parse_digits-append w acc (x ∷ xs) ys =
    elim (Bool-cases (leb b'0' x && leb x b'9' && ltb (acc * 10 + (x - b'0')) (2 ^ w))) [
      | inl e ↦ rw e (parse_digits-append w (acc * 10 + (x - b'0')) xs ys)
      | inr e ↦ rw e refl
    ]

parse_digits-digit :
    (w acc d : ℕ)
    → d < 10
    → acc * 10 + d < 2 ^ w
    → parse_digits w acc ((d + b'0') ∷ []) ≡ some (acc * 10 + d)
unfolding parse_digits
parse_digits-digit w acc d h k = ground arith

parse_digits-digits :
    (w fuel n : ℕ) → n < fuel → n < 2 ^ w → parse_digits w 0 (digits fuel n) ≡ some n
unfolding digits
parse_digits-digits w zero n h k = absurd (omega (arith, h))
parse_digits-digits w (suc fuel) n h k = elim (Bool-cases (ltb n 10)) [
  | inl small ↦
      rw small
        (parse_digits-digit w 0 n (ltb→lt n 10 small) (omega (arith, k)) ∙ ap some (omega arith))
  | inr large ↦
      rw
        (
          large,
          parse_digits-append,
          parse_digits-digits w fuel (n / 10) (ground arith) (omega (arith, k)),
        )
        (parse_digits-digit w (n / 10) (n % 10) (omega arith) (omega (arith, k))
          ∙ ap some (omega arith))
]

ends_in : (s : Text) (d : ℕ) → (c : ℕ) × (rest : Text) × (s ++ d ∷ [] ≡ c ∷ rest)
ends_in [] d = (d, [], refl)
ends_in (c ∷ s) d = (c, s ++ d ∷ [], refl)

-- The digits of a number: at least one.
digits-nonempty : (fuel n : ℕ) → (c : ℕ) × (rest : Text) × (digits (suc fuel) n ≡ c ∷ rest)
unfolding digits
digits-nonempty fuel n = elim (Bool-cases (ltb n 10)) [
  | inl small ↦ (n + b'0', [], rw small refl)
  | inr large ↦
      let (c, rest, e) = ends_in (digits fuel (n / 10)) (n % 10 + b'0') in (c, rest, rw large e)
]

parse_uint-plain :
    (w : ℕ) (c : ℕ) (rest : Text)
    → IsDigit c
    → parse_uint w (c ∷ rest) ≡ parse_digits w 0 (c ∷ rest)
unfolding parse_uint
parse_uint-plain w c [] h = refl
parse_uint-plain w c (d ∷ rest) h = ground arith

parse_uint-zero :
    (c : ℕ) (rest : Text) → parse_uint 8 (b'0' ∷ c ∷ rest) ≡ parse_digits 8 0 (c ∷ rest)
unfolding parse_uint parse_digits
parse_uint-zero c rest = refl

parse_i32-plain :
    (c : ℕ) (rest : Text)
    → IsDigit c
    → parse_i32 (c ∷ rest) ≡ (parse_digits 31 0 (c ∷ rest) >>= (λ n. some (pos n)))
unfolding parse_i32
parse_i32-plain c [] h = refl
parse_i32-plain c (d ∷ rest) h = ground (arith, parse_uint-plain 31 c (d ∷ rest) h)

-- The suffix of a text that ends in it.
strip_suffix-append : (s suffix : Text) → strip_suffix suffix (s ++ suffix) ≡ some s
unfolding strip_suffix
strip_suffix-append [] [] = refl
strip_suffix-append [] (c ∷ suffix) = rw ((eq_text_iff (c ∷ suffix) (c ∷ suffix)).1 refl) refl
strip_suffix-append (c ∷ s) suffix =
    rw (longer (eq_text (c ∷ (s ++ suffix)) suffix) refl, strip_suffix-append s suffix) refl
  where
    longer : (b : Bool) → eq_text (c ∷ (s ++ suffix)) suffix ≡ b → b ≡ false
    longer true e = absurd (
        omega
          (arith, ap length ((eq_text_iff (c ∷ (s ++ suffix)) suffix).0 e), length-append s suffix))
    longer false e = refl

strip_prefix-append : (s t : Text) → strip_prefix s (s ++ t) ≡ some t
unfolding strip_prefix
strip_prefix-append [] t = refl
strip_prefix-append (c ∷ s) t = rw ((==_iff c c).1 refl, strip_prefix-append s t) refl

-- The separator is found behind a text that its first character does not occur in.
split_once-append :
    (a : ℕ) (separator before after : Text)
    → All (λ c. c ≢ a) before
    → split_once (a ∷ separator) (before ++ ((a ∷ separator) ++ after)) ≡ some (before, after)
unfolding split_once
split_once-append a separator [] after h = ground (arith, strip_prefix-append separator after)
split_once-append a separator (c ∷ before) after h =
    ground (arith, h.0, split_once-append a separator before after h.1)

show_ℕ-digits : (n : ℕ) → show_ℕ n ≡ digits (suc n) n
unfolding show_ℕ
show_ℕ-digits n = refl

show_ℕ-nonempty : (n : ℕ) → (c : ℕ) × (rest : Text) × IsDigit c × (show_ℕ n ≡ c ∷ rest)
show_ℕ-nonempty n =
    let (c, rest, e) = digits-nonempty n n in
    (c, rest, (subst (All IsDigit) e (digits-IsDigit (suc n) n)).0, show_ℕ-digits n ∙ e)

parse_digits-show_ℕ : (w n : ℕ) → n < 2 ^ w → parse_digits w 0 (show_ℕ n) ≡ some n
parse_digits-show_ℕ w n h =
    ap (parse_digits w 0) (show_ℕ-digits n) ∙ parse_digits-digits w (suc n) n (omega arith) h

parse_i32-minus :
    (c : ℕ) (rest : Text)
    → parse_i32 (b'-' ∷ c ∷ rest) ≡ (
        parse_digits 32 0 (c ∷ rest) >>= (λ n. if leb n (2 ^ 31) then some (neg (pos n)) else none))
unfolding parse_i32
parse_i32-minus c rest = refl

negated :
    (n : ℕ)
    → suc n < 2 ^ 31
    → (if leb (suc n) (2 ^ 31) then some (neg (pos (suc n))) else none) ≡ some (negsuc n)
unfolding neg
negated n h = ground arith

-- A year and a week that are printed are parsed as they were.
parse_i32-show :
    (year : ℤ)
    → pos_part year < 2 ^ 31
    → neg_part year < 2 ^ 31
    → parse_i32 (show_ℤ year) ≡ some year
unfolding show_ℤ
parse_i32-show (pos n) h k =
    let (c, rest, d, e) = show_ℕ-nonempty n in
    ap parse_i32 e
    ∙ parse_i32-plain c rest d
    ∙ ap (λ s. parse_digits 31 0 s >>= (λ m. some (pos m))) (sym e)
    ∙ ap (λ o. o >>= (λ m. some (pos m))) (parse_digits-show_ℕ 31 n h)
parse_i32-show (negsuc n) h k =
    let (c, rest, d, e) = show_ℕ-nonempty (suc n) in
    ap (λ s. parse_i32 (b'-' ∷ s)) e
    ∙ parse_i32-minus c rest
    ∙ ap (λ s. parse_digits 32 0 s >>= (λ m. if leb m (2 ^ 31) then some (neg (pos m)) else none))
        (sym e)
    ∙ ap (λ o. o >>= (λ m. if leb m (2 ^ 31) then some (neg (pos m)) else none))
        (parse_digits-show_ℕ 32 (suc n) (omega (arith, k)))
    ∙ negated n k

show_padded-eq :
    (week : ℕ) → show_padded week ≡ (if ltb week 10 then b'0' ∷ show_ℕ week else show_ℕ week)
unfolding show_padded
show_padded-eq week = refl

parse_u8-show : (week : ℕ) → week < 100 → parse_uint 8 (show_padded week) ≡ some week
parse_u8-show week h =
    let (c, rest, d, e) = show_ℕ-nonempty week in
    let parsed : parse_digits 8 0 (c ∷ rest) ≡ some week =
      ap (parse_digits 8 0) (sym e) ∙ parse_digits-show_ℕ 8 week (omega (arith, h)) in
    ap (parse_uint 8) (show_padded-eq week)
    ∙ padded (ltb week 10) (λ b. parse_uint 8 b ≡ some week)
        (subst (λ s. parse_uint 8 (b'0' ∷ s) ≡ some week) (sym e) (parse_uint-zero c rest ∙ parsed))
        (subst (λ s. parse_uint 8 s ≡ some week) (sym e) (parse_uint-plain 8 c rest d ∙ parsed))
  where
    padded :
        (b : Bool) (P : Text → Type 0)
        → P (b'0' ∷ show_ℕ week)
        → P (show_ℕ week)
        → P (if b then b'0' ∷ show_ℕ week else show_ℕ week)
    padded true P x y = x
    padded false P x y = y

digit_no_underscore : (s : Text) → All IsDigit s → All (λ c. c ≢ b'_') s
digit_no_underscore [] h = tt
digit_no_underscore (c ∷ s) h = ((λ e. omega (arith, h.0, e)), digit_no_underscore s h.1)

show_ℤ-no_underscore : (year : ℤ) → All (λ c. c ≢ b'_') (show_ℤ year)
unfolding show_ℤ
show_ℤ-no_underscore (pos n) =
    subst (All (λ c. c ≢ b'_')) (sym (show_ℕ-digits n))
      (digit_no_underscore (digits (suc n) n) (digits-IsDigit (suc n) n))
show_ℤ-no_underscore (negsuc n) = (
  (λ e. omega (arith, e)),
  subst (All (λ c. c ≢ b'_')) (sym (show_ℕ-digits (suc n)))
      (digit_no_underscore (digits (suc (suc n)) (suc n)) (digits-IsDigit (suc (suc n)) (suc n))),
)

stem_of :
    (year : ℤ) (week : ℕ)
    → strip_suffix (codes ".db") (week_file_name year week)
      ≡ some (show_ℤ year ++ (codes "_w" ++ show_padded week))
unfolding week_file_name
stem_of year week =
    ap (strip_suffix (codes ".db")) (
      ap (λ s. show_ℤ year ++ s) (sym (append_assoc (codes "_w") (show_padded week) (codes ".db")))
      ∙ sym (append_assoc (show_ℤ year) (codes "_w" ++ show_padded week) (codes ".db")))
    ∙ strip_suffix-append (show_ℤ year ++ (codes "_w" ++ show_padded week)) (codes ".db")

-- The name that is printed of a year and a week, of sizes below 2^31 and 100, stands for the
-- Monday that the calendar gives for them, in milliseconds.
pub database_week_start_ms-week_file_name :
    (calendar : Calendar) (year : ℤ) (week : ℕ)
    → pos_part year < 2 ^ 31
    → neg_part year < 2 ^ 31
    → week < 100
    → database_week_start_ms calendar (week_file_name year week)
      ≡ (calendar.monday year week >>= (λ monday. some (monday *ℤ pos 1000)))
unfolding database_week_start_ms week_file_name
database_week_start_ms-week_file_name calendar year week h k l =
    ap (λ o. o >>= parsed) (stem_of year week)
    ∙ ap (λ o. o >>= fields)
        (split_once-append b'_' (b'w' ∷ []) (show_ℤ year) (show_padded week)
          (show_ℤ-no_underscore year))
    ∙ ap (λ o. o >>= (λ y. parse_uint 8 (show_padded week) >>= (λ w. monday_of y w)))
        (parse_i32-show year h k)
    ∙ ap (λ o. o >>= (λ w. monday_of year w)) (parse_u8-show week l)
  where
    monday_of : ℤ → ℕ → Option ℤ
    monday_of y w = calendar.monday y w >>= (λ monday. some (monday *ℤ pos 1000))

    fields : Text × Text → Option ℤ
    fields x = parse_i32 x.0 >>= (λ y. parse_uint 8 x.1 >>= (λ w. monday_of y w))

    parsed : Text → Option ℤ
    parsed stem = split_once (codes "_w") stem >>= fields
