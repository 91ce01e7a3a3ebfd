-- ===== src/Logs/Helpers/Ansi.antt =====
-- src/logs/helpers.rs: what `strip_ansi_escape_codes` returns, and where it panics.
use vpsiner.Prelude.{
  ℕ, ◌≤◌, ◌≡◌, ◌≢◌, refl, sym, ap, ◌∙◌, Bool, true, false, not, ◌&&◌, ◌||◌, List, [], ◌∷◌, none,
  some, subst, Option-cases, Bool-cases, inl, inr, ltb, leb, ◌==◌, if◌then◌else◌, All, arith,
}
use vpsiner.Logs.Helpers.{
  Scan, text, within, escape, csi, osc, osc_escape, is_continuation, scan, strip,
  strip_ansi_escape_codes,
}

-- Text in which a continuation byte follows a byte that is not ASCII, as in all valid text, and an
-- escape byte never stands before a byte that is not ASCII. `wide` and `escaped` are about the byte
-- before.
unfoldable pub is_plain : Bool → Bool → List ℕ → Bool
is_plain wide escaped [] = true
is_plain wide escaped (b ∷ rest) =
    (not (is_continuation b) || wide)
    && ((not escaped || ltb b 128) && is_plain (leb 128 b) (b == 0x1b) rest)

strip_more :
    (s : Scan) (b : ℕ) (rest output : List ℕ)
    → strip s (b ∷ rest) ≡ some output
    → (n : Scan) × (c : Bool) × (more : List ℕ) × ((scan s b ≡ some (n, c))
        × (strip n rest ≡ some more)
        × (output ≡ (if c then b ∷ more else more)))
unfolding strip
strip_more s b rest output h = elim (Option-cases (scan s b)) [
  | inl e ↦ absurd (ground (arith, e, h))
  | inr ((n, c), e) ↦ elim (Option-cases (strip n rest)) [
    | inl f ↦ absurd (ground (arith, e, f, h))
    | inr (more, f) ↦ (n, c, more, (e, f, ground (arith, e, f, h)))
  ]
]

scan_copies : (s n : Scan) (b : ℕ) → scan s b ≡ some (n, true) → b ≢ 0x1b
unfolding scan
scan_copies text n b h = ground arith
scan_copies within n b h = ground arith
scan_copies escape n b h = ground arith
scan_copies csi n b h = ground arith
scan_copies osc n b h = ground arith
scan_copies osc_escape n b h = ground arith

strip-clean :
    (s : Scan) (bytes output : List ℕ) → strip s bytes ≡ some output → All (λ b. b ≢ 0x1b) output
unfolding strip
strip-clean s [] [] h = tt
strip-clean s [] (x ∷ output) h = absurd (ground (arith, h))
strip-clean s (b ∷ rest) output h =
    let (n, c, more, facts) = strip_more s b rest output h in
    let clean = strip-clean n rest more facts.1 in
    elim (Bool-cases c) [
      | inl e ↦
          let copied : scan s b ≡ some (n, true) = facts.0 ∙ ap (λ x. some (n, x)) e in
          let whole : output ≡ b ∷ more = ground (arith, facts.2, e) in
          subst (All (λ x. x ≢ 0x1b)) (sym whole) (scan_copies s n b copied, clean)
      | inr e ↦
          let whole : output ≡ more = ground (arith, facts.2, e) in
          subst (All (λ x. x ≢ 0x1b)) (sym whole) clean
    ]

abbrev is_within : Scan → Bool
is_within within = true
is_within _ = false

scan_keeps :
    (s n : Scan) (b : ℕ)
    → scan s b ≡ some (n, true)
    → (n ≡ within) × ((b == 0x1b) ≡ false) × (is_within s ≡ false → is_continuation b ≡ false)
unfolding scan
scan_keeps text n b h = (ground arith, ground arith, λ e. ground arith)
scan_keeps within n b h = (ground arith, ground arith, λ e. cc e)
scan_keeps escape n b h = absurd (ground arith)
scan_keeps csi n b h = absurd (ground arith)
scan_keeps osc n b h = absurd (ground arith)
scan_keeps osc_escape n b h = absurd (ground arith)

scan_drops : (s n : Scan) (b : ℕ) → scan s b ≡ some (n, false) → is_within n ≡ false
unfolding scan
scan_drops text n b h = ground arith
scan_drops within n b h = ground arith
scan_drops escape n b h = ground arith
scan_drops csi n b h = ground arith
scan_drops osc n b h = ground arith
scan_drops osc_escape n b h = ground arith

strip_keeps_within :
    (b : ℕ) (more : List ℕ)
    → (b == 0x1b) ≡ false
    → strip within more ≡ some more
    → strip within (b ∷ more) ≡ some (b ∷ more)
unfolding strip scan
strip_keeps_within b more e h = ground (arith, e, h)

strip_keeps_text :
    (b : ℕ) (more : List ℕ)
    → (b == 0x1b) ≡ false
    → is_continuation b ≡ false
    → strip within more ≡ some more
    → strip text (b ∷ more) ≡ some (b ∷ more)
unfolding strip scan
strip_keeps_text b more e f h = ground (arith, e, f, h)

-- What was stripped is not changed by stripping it again, within a character or, unless it began
-- there, before one.
strip-again :
    (s : Scan) (bytes output : List ℕ)
    → strip s bytes ≡ some output
    → (strip within output ≡ some output) × (is_within s ≡ false → strip text output ≡ some output)
unfolding strip
strip-again s [] [] h = (refl, λ e. refl)
strip-again s [] (x ∷ output) h = absurd (ground (arith, h))
strip-again s (b ∷ rest) output h =
    let (n, c, more, facts) = strip_more s b rest output h in
    let again = strip-again n rest more facts.1 in
    elim (Bool-cases c) [
      | inl e ↦
          let copied : scan s b ≡ some (n, true) = facts.0 ∙ ap (λ x. some (n, x)) e in
          let (inside, plain, first) = scan_keeps s n b copied in
          let whole : output ≡ b ∷ more = ground (arith, facts.2, e) in
          subst (λ o. (strip within o ≡ some o) × (is_within s ≡ false → strip text o ≡ some o))
            (sym whole)
            (
              strip_keeps_within b more plain again.0,
              λ t. strip_keeps_text b more plain (first t) again.0,
            )
      | inr e ↦
          let dropped : scan s b ≡ some (n, false) = facts.0 ∙ ap (λ x. some (n, x)) e in
          let whole : output ≡ more = ground (arith, facts.2, e) in
          subst (λ o. (strip within o ≡ some o) × (is_within s ≡ false → strip text o ≡ some o))
            (sym whole) (again.0, λ t. again.1 (scan_drops s n b dropped))
    ]

safe_state : Bool → Bool → Scan → Bool
safe_state wide escaped text = not wide
safe_state wide escaped within = not escaped
safe_state wide escaped escape = escaped
safe_state wide escaped _ = true

scan_goes_on :
    (wide escaped : Bool) (s : Scan) (b : ℕ)
    → safe_state wide escaped s ≡ true
    → (not (is_continuation b) || wide) ≡ true
    → (not escaped || ltb b 128) ≡ true
    → scan s b ≢ none
unfolding scan safe_state
scan_goes_on wide escaped text b safe h k = ground arith
scan_goes_on wide escaped within b safe h k = ground arith
scan_goes_on wide escaped escape b safe h k = ground arith
scan_goes_on wide escaped csi b safe h k = ground arith
scan_goes_on wide escaped osc b safe h k = ground arith
scan_goes_on wide escaped osc_escape b safe h k = ground arith

scan_safe :
    (wide escaped : Bool) (s n : Scan) (c : Bool) (b : ℕ)
    → safe_state wide escaped s ≡ true
    → (not escaped || ltb b 128) ≡ true
    → scan s b ≡ some (n, c)
    → safe_state (leb 128 b) (b == 0x1b) n ≡ true
unfolding scan safe_state
scan_safe wide escaped text n c b safe k h = ground arith
scan_safe wide escaped within n c b safe k h = ground arith
scan_safe wide escaped escape n c b safe k h = ground arith
scan_safe wide escaped csi n c b safe k h = ground arith
scan_safe wide escaped osc n c b safe k h = ground arith
scan_safe wide escaped osc_escape n c b safe k h = ground arith

strip-plain :
    (wide escaped : Bool) (s : Scan) (bytes : List ℕ)
    → safe_state wide escaped s ≡ true
    → is_plain wide escaped bytes ≡ true
    → (output : List ℕ) × (strip s bytes ≡ some output)
unfolding strip is_plain
strip-plain wide escaped s [] safe h = ([], refl)
strip-plain wide escaped s (b ∷ rest) safe h =
    let first : (not (is_continuation b) || wide) ≡ true = ground arith in
    let second : (not escaped || ltb b 128) ≡ true = ground arith in
    let later : is_plain (leb 128 b) (b == 0x1b) rest ≡ true = ground arith in
    elim (Option-cases (scan s b)) [
      | inl e ↦ absurd (scan_goes_on wide escaped s b safe first second e)
      | inr ((n, c), e) ↦
          let (output, f) =
            strip-plain (leb 128 b) (b == 0x1b) n rest
              (scan_safe wide escaped s n c b safe second e) later in
          (if c then b ∷ output else output, rw (e, strip, f) refl)
    ]

-- Of text in which each continuation byte follows a byte that is not ASCII, and no escape byte
-- stands before a byte that is not ASCII, stripping returns a text, which has no escape byte and
-- is not changed by stripping it again.
pub strip_ansi_escape_codes-plain :
    (value : List ℕ)
    → is_plain false false value ≡ true
    → (output : List ℕ) × ((strip_ansi_escape_codes value ≡ some output)
        × All (λ b. b ≢ 0x1b) output
        × (strip_ansi_escape_codes output ≡ some output))
unfolding strip_ansi_escape_codes safe_state
strip_ansi_escape_codes-plain value h =
    let (output, e) = strip-plain false false text value refl h in
    (output, (e, strip-clean text value output e, (strip-again text value output e).1 refl))

-- A text that begins with an escape byte, a byte that is not ASCII and a continuation byte makes
-- stripping panic: the string is cut behind the first byte of the character.
pub strip_ansi_escape_codes-panics :
    (lead next : ℕ) (rest : List ℕ)
    → 128 ≤ lead
    → is_continuation next ≡ true
    → strip_ansi_escape_codes (0x1b ∷ lead ∷ next ∷ rest) ≡ none
unfolding strip_ansi_escape_codes strip scan is_continuation
strip_ansi_escape_codes-panics lead next rest h k = ground arith
