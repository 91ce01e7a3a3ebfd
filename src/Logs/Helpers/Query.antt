-- ===== src/Logs/Helpers/Query.antt =====
-- src/logs/helpers.rs: what a query text is turned into.
use mathlib.Core.List.{append-nil, append_assoc}
use vpsiner.Prelude.{
  ℕ, ◌≡◌, ◌≢◌, refl, sym, ap, ap₂, ◌∙◌, Bool, false, not, ◌&&◌, ◌||◌, List, [], ◌∷◌, ◌++◌, map,
  Option, none, some, Bool-cases, inl, inr, ◌==◌, if◌then◌else◌, All, All-append, arith,
}
use vpsiner.Logs.Helpers.{
  flush_token, replace_quotes, quote, join, or_separator, tokenize, sanitize_fts_query,
}

-- Not empty, and without a quote.
abbrev pub IsWord : List ℕ → Type 0
IsWord token = (token ≢ []) × All (λ c. c ≢ b'"') token

-- A word between quotes.
abbrev pub phrase : List ℕ → List ℕ
phrase token = b'"' ∷ (token ++ b'"' ∷ [])

abbrev pub concat : List (List ℕ) → List ℕ
concat [] = []
concat (part ∷ rest) = part ++ concat rest

concat-append : (xs : List (List ℕ)) (y : List ℕ) → concat (xs ++ y ∷ []) ≡ concat xs ++ y
concat-append [] y = append-nil y
concat-append (x ∷ xs) y =
    ap (λ l. x ++ l) (concat-append xs y) ∙ sym (append_assoc x (concat xs) y)

flush_token-words :
    (tokens : List (List ℕ)) (current : List ℕ)
    → All IsWord tokens
    → All (λ c. c ≢ b'"') current
    → All IsWord (flush_token tokens current)
unfolding flush_token
flush_token-words tokens [] h k = h
flush_token-words tokens (c ∷ current) h k =
    All-append IsWord tokens ((c ∷ current) ∷ []) h (((λ e. cc e), k), tt)

flush_token-concat :
    (tokens : List (List ℕ)) (current : List ℕ)
    → concat (flush_token tokens current) ≡ concat tokens ++ current
unfolding flush_token
flush_token-concat tokens [] = sym (append-nil (concat tokens))
flush_token-concat tokens (c ∷ current) = concat-append tokens (c ∷ current)

replace_quotes-word : (token : List ℕ) → All (λ c. c ≢ b'"') token → replace_quotes token ≡ token
unfolding replace_quotes
replace_quotes-word [] h = refl
replace_quotes-word (c ∷ rest) h = ground (arith, replace_quotes-word rest h.1, h.0)

quote-words : (tokens : List (List ℕ)) → All IsWord tokens → map quote tokens ≡ map phrase tokens
unfolding quote
quote-words [] h = refl
quote-words (t ∷ rest) h =
    ap₂ (λ x xs. x ∷ xs) (ap (λ x. b'"' ∷ (x ++ b'"' ∷ [])) (replace_quotes-word t h.0.1))
      (quote-words rest h.1)

module _ (is_whitespace : ℕ → Bool) where
  -- The characters of a query that are neither quotes nor, outside quotes, white space.
  abbrev pub kept : Bool → List ℕ → List ℕ
  kept in_quotes [] = []
  kept in_quotes (c ∷ rest) =
      let more = kept (if c == b'"' then not in_quotes else in_quotes) rest in
      if c == b'"' || (is_whitespace c && not in_quotes) then more else c ∷ more

  tokenize-words :
      (tokens : List (List ℕ)) (current : List ℕ) (q : Bool) (raw : List ℕ)
      → All IsWord tokens
      → All (λ c. c ≢ b'"') current
      → All IsWord (tokenize is_whitespace tokens current q raw)
  unfolding tokenize
  tokenize-words tokens current q [] h k = flush_token-words tokens current h k
  tokenize-words tokens current q (c ∷ rest) h k =
      let quoted = if c == b'"' then not q else q in
      elim (Bool-cases (c == b'"' || (is_whitespace c && not q))) [
        | inl e ↦
            rw (e, tokenize)
              (tokenize-words (flush_token tokens current) [] quoted rest
                (flush_token-words tokens current h k) tt)
        | inr e ↦
            rw (e, tokenize)
              (let other : c ≢ b'"' = ground (arith, e) in
                tokenize-words tokens (current ++ c ∷ []) quoted rest h
                  (All-append _ current (c ∷ []) k (other, tt)))
      ]

  tokenize-kept :
      (tokens : List (List ℕ)) (current : List ℕ) (q : Bool) (raw : List ℕ)
      → concat (tokenize is_whitespace tokens current q raw)
        ≡ (concat tokens ++ current) ++ kept q raw
  unfolding tokenize
  tokenize-kept tokens current q [] =
      flush_token-concat tokens current ∙ sym (append-nil (concat tokens ++ current))
  tokenize-kept tokens current q (c ∷ rest) =
      let quoted = if c == b'"' then not q else q in
      elim (Bool-cases (c == b'"' || (is_whitespace c && not q))) [
        | inl e ↦
            rw (e, tokenize)
              (tokenize-kept (flush_token tokens current) [] quoted rest
                ∙ ap (λ l. l ++ kept quoted rest)
                    (append-nil (concat (flush_token tokens current))
                      ∙ flush_token-concat tokens current))
        | inr e ↦
            rw (e, tokenize)
              (tokenize-kept tokens (current ++ c ∷ []) quoted rest ∙ simp append_assoc)
      ]

-- The words of a query as phrases, one or another of which a line is to hold.
abbrev pub query_of : List (List ℕ) → Option (List ℕ)
query_of [] = none
query_of (word ∷ rest) = some (join or_separator (map phrase (word ∷ rest)))

-- Whatever is typed, the query is `none` or quoted phrases joined by ` OR `: the phrases are not
-- empty, have no quote in them, and hold, in order, the characters typed that are neither quotes
-- nor white space outside quotes; it is `none` where there are no phrases.
pub sanitize_fts_query-phrases :
    (is_whitespace : ℕ → Bool) (raw : List ℕ)
    → (words : List (List ℕ)) × All IsWord words
      × (concat words ≡ kept is_whitespace false raw)
      × (sanitize_fts_query is_whitespace raw ≡ query_of words)
unfolding sanitize_fts_query
sanitize_fts_query-phrases is_whitespace raw =
    let words = tokenize is_whitespace [] [] false raw in
    let good = tokenize-words is_whitespace [] [] false raw tt tt in
    (words, good, tokenize-kept is_whitespace [] [] false raw, as_phrases words good)
  where
    as_phrases :
        (words : List (List ℕ))
        → All IsWord words
        → (elim words [
          | [] ↦ none
          | token ∷ rest ↦ some (join or_separator (map quote (token ∷ rest)))
        ])
          ≡ query_of words
    as_phrases [] h = refl
    as_phrases (w ∷ rest) h = ap (λ ws. some (join or_separator ws)) (quote-words (w ∷ rest) h)
