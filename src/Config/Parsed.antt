-- ===== src/Config/Parsed.antt =====
-- src/config.rs: what a setting is once it is parsed, and when parsing it panics.
use vpsiner.Prelude.{
  Text, parse_digits, parse_uint, ℕ, ◌+◌, ◌-◌, ◌*◌, ◌^◌, ◌<◌, ◌≡◌, refl, Bool, true, false, ◌&&◌,
  String, [], ◌∷◌, Option, none, some, ◌>>=◌, ltb, leb, ◌==◌, if◌then◌else◌, &&_both, inl, inr, ◌⊎◌,
  arith,
}
use vpsiner.Config.{
  enabled, disabled, DockerControlsMode_to_string, DockerControlsMode, DockerControlsMode_from_str,
  auto, Environment, parse_or, asserted, parse_positive_or, parse_bounded_u64_or, parse_percent_or,
}

-- Some variable is set.
abbrev SetsVariable : Environment → Type 0
SetsVariable env = (key : String) × (value : Text) × (env.var key ≡ some value)

-- A value with the property, or a panic in an environment that sets a variable.
abbrev pub Outcome {ℓ} : {A : Type ℓ} → Environment → (A → Type 0) → Option A → Type 0
Outcome env P none = SetsVariable env
Outcome env P (some a) = P a

pub Outcome-bind {ℓ κ} :
    {A : Type ℓ} {B : Type κ} (env : Environment) (P : A → Type 0) (Q : B → Type 0) (o : Option A)
    (f : A → Option B)
    → Outcome env P o
    → ((a : A) → P a → Outcome env Q (f a))
    → Outcome env Q (o >>= f)
Outcome-bind env P Q none f h k = h
Outcome-bind env P Q (some a) f h k = k a h

-- What holds of a result, if there is one.
abbrev AllOf {ℓ} : {A : Type ℓ} → Option A → (A → Type 0) → Type 0
AllOf none P = Unit
AllOf (some a) P = P a

If-All {ℓ} :
    {A : Type ℓ} (b : Bool) (P : A → Type 0) (x y : Option A)
    → AllOf x P
    → AllOf y P
    → AllOf (if b then x else y) P
If-All true P x y h k = h
If-All false P x y h k = k

If_true-All {ℓ} :
    {A : Type ℓ} (b : Bool) (P : A → Type 0) (x : Option A)
    → (b ≡ true → AllOf x P)
    → AllOf (if b then x else none) P
If_true-All true P x h = h refl
If_true-All false P x h = tt

parse_digits-bound :
    (w acc : ℕ) (s : Text) → acc < 2 ^ w → AllOf (parse_digits w acc s) (λ n. n < 2 ^ w)
unfolding parse_digits
parse_digits-bound w acc [] h = h
parse_digits-bound w acc (b ∷ rest) h =
    let next = acc * 10 + (b - b'0') in
    If_true-All (leb b'0' b && leb b b'9' && ltb next (2 ^ w)) (λ n. n < 2 ^ w) _
      (λ e. parse_digits-bound w next rest (ground arith))

parse_uint-bound : (w : ℕ) (s : Text) → 0 < 2 ^ w → AllOf (parse_uint w s) (λ n. n < 2 ^ w)
unfolding parse_uint
parse_uint-bound w [] h = tt
parse_uint-bound w (b ∷ []) h = parse_digits-bound w 0 (b ∷ []) h
parse_uint-bound w (b ∷ c ∷ rest) h =
    If-All (b == b'+') (λ n. n < 2 ^ w) _ _ (parse_digits-bound w 0 (c ∷ rest) h)
      (parse_digits-bound w 0 (b ∷ c ∷ rest) h)

AllOf-Outcome {ℓ} :
    {A : Type ℓ} (env : Environment) (P : A → Type 0) (o : Option A)
    → SetsVariable env
    → AllOf o P
    → Outcome env P o
AllOf-Outcome env P none set h = set
AllOf-Outcome env P (some a) set h = h

Outcome-map {ℓ} :
    {A : Type ℓ} (env : Environment) (P Q : A → Type 0) (o : Option A)
    → ((a : A) → P a → Q a)
    → Outcome env P o
    → Outcome env Q o
Outcome-map env P Q none f h = h
Outcome-map env P Q (some a) f h = f a h

AllOf-with {ℓ} :
    {A : Type ℓ} (P Q : A → Type 0) (o : Option A)
    → ((a : A) → Q a)
    → AllOf o P
    → AllOf o (λ a. P a × Q a)
AllOf-with P Q none q h = tt
AllOf-with P Q (some a) q h = (h, q a)

pub AllOf-Unit {ℓ} : {A : Type ℓ} (o : Option A) → AllOf o (λ a. Unit)
AllOf-Unit none = tt
AllOf-Unit (some a) = tt

module _ (env : Environment) (key : String) where
  parse_value {ℓ} :
      {T : Type ℓ} (P : T → Type 0) (from_str : Text → Option T) (default : T) (o : Option Text)
      → env.var key ≡ o
      → ((s : Text) → env.var key ≡ some s → AllOf (from_str s) P)
      → P default
      → Outcome env P (elim o [ none ↦ some default | some value ↦ from_str value ])
  parse_value P from_str default none e h d = d
  parse_value P from_str default (some value) e h d =
      AllOf-Outcome env P (from_str value) (key, value, e) (h value e)

  pub parse_or-Outcome {ℓ} :
      {T : Type ℓ} (P : T → Type 0) (from_str : Text → Option T) (default : T)
      → ((s : Text) → env.var key ≡ some s → AllOf (from_str s) P)
      → P default
      → Outcome env P (parse_or from_str env key default)
  unfolding parse_or
  parse_or-Outcome P from_str default h d = parse_value P from_str default (env.var key) refl h d

  -- A number in its word, parsed if a variable is set.
  parse_tested-Outcome :
      (w default : ℕ) (test : ℕ → Bool)
      → 0 < 2 ^ w
      → default < 2 ^ w
      → test default ≡ true
      → Outcome env
          (λ n. (n < 2 ^ w) × (SetsVariable env ⊎ (test n ≡ true)))
          (parse_or (parse_uint w) env key default)
  parse_tested-Outcome w default test h d e =
      parse_or-Outcome (λ n. (n < 2 ^ w) × (SetsVariable env ⊎ (test n ≡ true))) (parse_uint w)
        default
        (λ s set.
          AllOf-with (λ n. n < 2 ^ w) (λ n. SetsVariable env ⊎ (test n ≡ true)) (parse_uint w s)
            (λ n. inl (key, s, set)) (parse_uint-bound w s h))
        (d, inr e)

  pub parse_any-Outcome :
      (w default : ℕ)
      → 0 < 2 ^ w
      → default < 2 ^ w
      → Outcome env (λ n. n < 2 ^ w) (parse_or (parse_uint w) env key default)
  parse_any-Outcome w default h d =
      parse_or-Outcome (λ n. n < 2 ^ w) (parse_uint w) default (λ s e. parse_uint-bound w s h) d

  -- An assertion on a parsed number fails only if the variable is set.
  asserted-Outcome :
      (test : ℕ → Bool) (P : ℕ → Type 0) (o : Option ℕ)
      → Outcome env (λ n. P n × (SetsVariable env ⊎ (test n ≡ true))) o
      → Outcome env (λ n. P n × (test n ≡ true)) (o >>= (λ n. asserted (test n) n))
  asserted-Outcome test P none h = h
  asserted-Outcome test P (some n) h = checked (test n) refl
    where
      checked : (b : Bool) → test n ≡ b → Outcome env (λ m. P m × (test m ≡ true)) (asserted b n)
      checked true e = (h.0, e)
      checked false e = elim (h.1) [ inl set ↦ set | inr e' ↦ cc (e, e') ]

  pub parse_positive_or-Outcome :
      (w default : ℕ)
      → 0 < 2 ^ w
      → default < 2 ^ w
      → ltb 0 default ≡ true
      → Outcome env (λ n. (n < 2 ^ w) × (ltb 0 n ≡ true)) (parse_positive_or w env key default)
  unfolding parse_positive_or
  parse_positive_or-Outcome w default h d e =
      asserted-Outcome (ltb 0) (λ n. n < 2 ^ w) (parse_or (parse_uint w) env key default)
        (parse_tested-Outcome w default (ltb 0) h d e)

  pub parse_percent_or-Outcome :
      Outcome env (λ n. (n < 2 ^ 8) × (leb n 100 ≡ true)) (parse_percent_or env key 40)
  unfolding parse_percent_or
  parse_percent_or-Outcome =
      asserted-Outcome (λ n. leb n 100) (λ n. n < 2 ^ 8) (parse_or (parse_uint 8) env key 40)
        (parse_tested-Outcome 8 40 (λ n. leb n 100) (omega arith) (omega arith) refl)

  pub parse_bounded_u64_or-Outcome :
      Outcome env
        (λ n. ((n < 2 ^ 64) × (ltb 0 n ≡ true)) × (leb n 10 ≡ true))
        (parse_bounded_u64_or env key 5 10)
  unfolding parse_bounded_u64_or parse_positive_or
  parse_bounded_u64_or-Outcome =
      let Set = SetsVariable env in
      asserted-Outcome (λ n. leb n 10) (λ n. (n < 2 ^ 64) × (ltb 0 n ≡ true))
        (parse_positive_or 64 env key 5)
        (Outcome-map env (λ n. ((n < 2 ^ 64) × (Set ⊎ (leb n 10 ≡ true))) × (ltb 0 n ≡ true))
          (λ n. ((n < 2 ^ 64) × (ltb 0 n ≡ true)) × (Set ⊎ (leb n 10 ≡ true)))
          (parse_positive_or 64 env key 5) (λ n h. ((h.0.0, h.1), h.0.1))
          (asserted-Outcome (ltb 0) (λ n. (n < 2 ^ 64) × (Set ⊎ (leb n 10 ≡ true)))
            (parse_or (parse_uint 64) env key 5)
            (Outcome-map env (λ n. (n < 2 ^ 64) × (Set ⊎ ((ltb 0 n && leb n 10) ≡ true)))
              (λ n. ((n < 2 ^ 64) × (Set ⊎ (leb n 10 ≡ true))) × (Set ⊎ (ltb 0 n ≡ true)))
              (parse_or (parse_uint 64) env key 5)
              (λ n h. elim (h.1) [
                | inl s ↦ ((h.0, inl s), inl s)
                | inr e ↦ (
                  (h.0, inr (&&_both (ltb 0 n) (leb n 10) e).1),
                  inr (&&_both (ltb 0 n) (leb n 10) e).0,
                )
              ])
              (parse_tested-Outcome 64 5 (λ n. ltb 0 n && leb n 10) (omega arith) (omega arith)
                refl))))

-- A mode that is printed reads back as itself.
from_str-to_string :
    (mode : DockerControlsMode)
    → DockerControlsMode_from_str (DockerControlsMode_to_string mode) ≡ some mode
unfolding DockerControlsMode_from_str DockerControlsMode_to_string
from_str-to_string auto = refl
from_str-to_string enabled = refl
from_str-to_string disabled = refl
