-- ===== src/Logs/Helpers/Path.antt =====
-- src/logs/helpers.rs: the directory name of a service stays inside its parent.
use vpsiner.Prelude.{
  ℕ, false, refl, sym, ◌∙◌, ◌⊎◌, eq_text, if◌then◌else◌, ◌≤◌, ◌≡◌, ◌≢◌, ap, Bool, true, ◌||◌, List,
  [], ◌∷◌, ◌++◌, Bool-cases, inl, inr, ◌==◌, All, All-append, arith, length, length-append, keep,
}
use vpsiner.Logs.Helpers.{join, split_path, is_kept_part, safe_service_path}

-- No separator of a path.
abbrev pub IsPlainName : List ℕ → Type 0
IsPlainName = All (λ c. (c ≢ b'/') × (c ≢ b'\\'))

split_path-plain : (s : List ℕ) → IsPlainName (split_path s).0 × All IsPlainName (split_path s).1
unfolding split_path
split_path-plain [] = (tt, tt)
split_path-plain (c ∷ rest) =
    let (first, parts) = split_path-plain rest in
    elim (Bool-cases (c == b'/' || c == b'\\')) [
      | inl e ↦ rw (e, split_path) (tt, (first, parts))
      | inr e ↦ rw (e, split_path) ((ground (arith, e), first), parts)
    ]

keep-All : {A : Type 0} (P : A → Type 0) (p : A → Bool) (xs : List A) → All P xs → All P (keep p xs)
keep-All P p [] h = h
keep-All P p (x ∷ xs) h = ground (arith, keep-All P p xs h.1, h.0)

keep-kept : {A : Type 0} (p : A → Bool) (xs : List A) → All (λ x. p x ≡ true) (keep p xs)
keep-kept p [] = tt
keep-kept p (x ∷ xs) = ground (arith, keep-kept p xs)

join-plain : (parts : List (List ℕ)) → All IsPlainName parts → IsPlainName (join (b'_' ∷ []) parts)
unfolding join
join-plain [] h = tt
join-plain (p ∷ []) h = h.0
join-plain (p ∷ q ∷ rest) h =
    All-append _ p (b'_' ∷ join (b'_' ∷ []) (q ∷ rest)) h.0
      (((λ e. ground arith), (λ e. ground arith)), join-plain (q ∷ rest) h.1)

-- Not one of the two names that a directory has for itself and for its parent.
abbrev pub IsInside : List ℕ → Type 0
IsInside name = (name ≢ b'.' ∷ []) × (name ≢ b'.' ∷ b'.' ∷ [])

kept-IsInside : (p : List ℕ) → is_kept_part p ≡ true → IsInside p
unfolding is_kept_part
kept-IsInside [] h = cc h
kept-IsInside (a ∷ []) h = (λ e. ground (arith, e, h), λ e. ground (arith, e, h))
kept-IsInside (a ∷ b ∷ []) h = (λ e. ground (arith, e, h), λ e. ground (arith, e, h))
kept-IsInside (a ∷ b ∷ c ∷ rest) h = (λ e. ground (arith, e), λ e. ground (arith, e))

kept-long : (p : List ℕ) → is_kept_part p ≡ true → 1 ≤ length p
unfolding is_kept_part
kept-long [] h = cc h
kept-long (a ∷ rest) h = omega arith

join-long :
    (p : List ℕ) (rest : List (List ℕ))
    → is_kept_part p ≡ true
    → 1 ≤ length (join (b'_' ∷ []) (p ∷ rest))
unfolding join
join-long p [] h = kept-long p h
join-long p (q ∷ rest) h =
    omega (arith, length-append p (b'_' ∷ join (b'_' ∷ []) (q ∷ rest)), kept-long p h)

long-IsInside : (name : List ℕ) → 3 ≤ length name → IsInside name
long-IsInside name h =
    (λ e. absurd (omega (arith, ap length e, h)), λ e. absurd (omega (arith, ap length e, h)))

join-IsInside :
    (parts : List (List ℕ))
    → All (λ p. is_kept_part p ≡ true) parts
    → IsInside (join (b'_' ∷ []) parts)
unfolding join
join-IsInside [] h = ((λ e. cc e), (λ e. cc e))
join-IsInside (p ∷ []) h = kept-IsInside p h.0
join-IsInside (p ∷ q ∷ rest) h = long-IsInside (p ++ b'_' ∷ join (b'_' ∷ []) (q ∷ rest)) (
    omega (
      arith,
      length-append p (b'_' ∷ join (b'_' ∷ []) (q ∷ rest)),
      kept-long p h.0,
      join-long q rest h.1.0,
    ))

-- What becomes of one part of a name: `.` and `..` are dropped.
abbrev pub part : List ℕ → List ℕ
part a = if eq_text a (b'.' ∷ []) || eq_text a (b'.' ∷ b'.' ∷ []) then [] else a

-- Two names as one; nothing is put between a name and no name.
abbrev pub joined : List ℕ → List ℕ → List ℕ
joined [] ys = ys
joined (x ∷ xs) [] = x ∷ xs
joined (x ∷ xs) (y ∷ ys) = x ∷ xs ++ b'_' ∷ y ∷ ys

part-kept :
    (a : List ℕ) → (is_kept_part a ≡ true → part a ≡ a) × (is_kept_part a ≡ false → part a ≡ [])
unfolding is_kept_part
part-kept [] = (λ h. refl, λ h. refl)
part-kept (a ∷ []) = (λ h. ground arith, λ h. ground arith)
part-kept (a ∷ b ∷ []) = (λ h. ground arith, λ h. ground arith)
part-kept (a ∷ b ∷ c ∷ rest) = (λ h. ground arith, λ h. cc h)

no_separator : (c : ℕ) → (c ≢ b'/') × (c ≢ b'\\') → (c == b'/' || c == b'\\') ≡ false
no_separator c h = ground (arith, h.0, h.1)

is_separator : (c : ℕ) → (c ≡ b'/') ⊎ (c ≡ b'\\') → (c == b'/' || c == b'\\') ≡ true
is_separator c (inl h) = ground (arith, h)
is_separator c (inr h) = ground (arith, h)

split_path-one : (a : List ℕ) → IsPlainName a → split_path a ≡ (a, [])
unfolding split_path
split_path-one [] h = refl
split_path-one (c ∷ a) h = rw (no_separator c h.0, split_path-one a h.1) refl

split_path-append :
    (a rest : List ℕ) (c : ℕ)
    → IsPlainName a
    → (c ≡ b'/') ⊎ (c ≡ b'\\')
    → split_path (a ++ c ∷ rest) ≡ (a, (split_path rest).0 ∷ (split_path rest).1)
unfolding split_path
split_path-append [] rest c h k = rw (is_separator c k) refl
split_path-append (d ∷ a) rest c h k =
    rw (no_separator d h.0, split_path-append a rest c h.1 k) refl

joined_long : (x : ℕ) (xs ys : List ℕ) → 1 ≤ length ys → joined (x ∷ xs) ys ≡ x ∷ xs ++ b'_' ∷ ys
joined_long x xs [] h = absurd (omega (arith, h))
joined_long x xs (y ∷ ys) h = refl

join-cons :
    (a : List ℕ) (parts : List (List ℕ))
    → is_kept_part a ≡ true
    → All (λ p. is_kept_part p ≡ true) parts
    → join (b'_' ∷ []) (a ∷ parts) ≡ joined a (join (b'_' ∷ []) parts)
unfolding join is_kept_part
join-cons [] parts h k = cc h
join-cons (x ∷ a) [] h k = refl
join-cons (x ∷ a) (q ∷ rest) h k =
    sym (joined_long x a (join (b'_' ∷ []) (q ∷ rest)) (join-long q rest k.0))

path_parts-cons :
    (a : List ℕ) (parts : List (List ℕ))
    → join (b'_' ∷ []) (keep is_kept_part (a ∷ parts))
      ≡ joined (part a) (join (b'_' ∷ []) (keep is_kept_part parts))
path_parts-cons a parts = elim (Bool-cases (is_kept_part a)) [
  | inl kept ↦
      rw (kept, (part-kept a).0 kept)
        (join-cons a (keep is_kept_part parts) kept (keep-kept is_kept_part parts))
  | inr gone ↦ rw (gone, (part-kept a).1 gone) refl
]

joined_nil : (a : List ℕ) → joined a [] ≡ a
joined_nil [] = refl
joined_nil (x ∷ a) = refl

-- Whatever a service is called, its name in a path has no `/` and no `\`, and is neither `.` nor
-- `..`. A name without separators is kept as it is, but for these two, of which nothing is left;
-- and of a name that begins with such a part and a separator, the part is joined with `_` to what
-- is left of the rest, where both are not empty.
pub safe_service_path-IsInside :
    (service a rest : List ℕ) (c : ℕ)
    → IsPlainName a
    → (c ≡ b'/') ⊎ (c ≡ b'\\')
    → IsPlainName (safe_service_path service)
      × IsInside (safe_service_path service)
      × (safe_service_path a ≡ part a)
      × (safe_service_path (a ++ c ∷ rest) ≡ joined (part a) (safe_service_path rest))
unfolding safe_service_path
safe_service_path-IsInside service a rest c plain separator =
    let (first, parts) = split_path-plain service in
    let all_parts = (split_path service).0 ∷ (split_path service).1 in
    (
      join-plain (keep is_kept_part all_parts)
          (keep-All IsPlainName is_kept_part all_parts (first, parts)),
      join-IsInside (keep is_kept_part all_parts) (keep-kept is_kept_part all_parts),
      ap (λ (s : List ℕ × List (List ℕ)). join (b'_' ∷ []) (keep is_kept_part (s.0 ∷ s.1)))
            (split_path-one a plain)
          ∙ (path_parts-cons a [] ∙ unfold join in joined_nil (part a)),
      ap (λ (s : List ℕ × List (List ℕ)). join (b'_' ∷ []) (keep is_kept_part (s.0 ∷ s.1)))
            (split_path-append a rest c plain separator)
          ∙ path_parts-cons a ((split_path rest).0 ∷ (split_path rest).1),
    )
