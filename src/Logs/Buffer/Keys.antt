-- ===== src/Logs/Buffer/Keys.antt =====
-- src/logs/buffer.rs: the checkpoints that go with a batch are keys of its lines, and a row of the
-- checkpoint table comes from a checkpoint that was written.
use vpsiner.Prelude.{
  ℕ, ◌≡◌, refl, subst₂, sym, String, Bool, true, Option, some, List, [], ◌∷◌, ◌++◌, HashMap, arith,
  ◌⊎◌, inl, inr, lookup, insert, lookup-insert, if◌then◌else◌, All, Bool-cases, Option-cases, ltb_ℤ,
}
use vpsiner.Model.ContainerId.{ContainerId, Eq-ContainerId, eq_id, eq_id_iff}
use vpsiner.Model.Logs.{LogStream, LogLine}
use vpsiner.Logs.Buffer.{
  Service, Batch, Checkpoint, cids, insert_id, lt_bytes, checkpoints_of, take_batch, advance,
  advance_all,
}
use vpsiner.Logs.Buffer.Dedup.{key, latest, after}

-- Some element of the list has the property.
abbrev pub Any {ℓ} : {A : Type ℓ} → (A → Type 0) → List A → Type 0
Any P [] = ⊥
Any P (x ∷ xs) = P x ⊎ Any P xs

pub Any-append_left {ℓ} :
    {A : Type ℓ} (P : A → Type 0) (xs ys : List A) → Any P xs → Any P (xs ++ ys)
Any-append_left P (x ∷ xs) ys (inl h) = inl h
Any-append_left P (x ∷ xs) ys (inr h) = inr (Any-append_left P xs ys h)
Any-append_left P [] ys h = absurd h

pub Any-append_right {ℓ} :
    {A : Type ℓ} (P : A → Type 0) (xs ys : List A) → Any P ys → Any P (xs ++ ys)
Any-append_right P [] ys h = h
Any-append_right P (x ∷ xs) ys h = inr (Any-append_right P xs ys h)

module _ (hash : LogStream → String → ℕ) where
  -- A line of the container with this time and hash.
  abbrev pub Of : ContainerId → Checkpoint → LogLine → Type 0
  Of cid c l = (l.cid ≡ cid) × (key hash l ≡ c)

  or_here :
      (cid : ContainerId) (c : Checkpoint) (x : LogLine) (xs : List LogLine)
      → x.cid ≡ cid
      → (c ≡ key hash x) ⊎ Any (Of cid c) xs
      → Any (Of cid c) (x ∷ xs)
  or_here cid c x xs p (inl e) = inl (p, sym e)
  or_here cid c x xs p (inr q) = inr q

  or_there :
      (cid : ContainerId) (c d : Checkpoint) (x : LogLine) (xs : List LogLine)
      → (c ≡ d) ⊎ Any (Of cid c) xs
      → (c ≡ d) ⊎ Any (Of cid c) (x ∷ xs)
  or_there cid c d x xs (inl e) = inl e
  or_there cid c d x xs (inr q) = inr (inr q)

  latest_known :
      (known : ContainerId → Option Checkpoint) (xs : List LogLine) (cid : ContainerId)
      (c : Checkpoint)
      → known cid ≡ some c
      → (c' : Checkpoint) × (latest hash known xs cid ≡ some c') × ((c' ≡ c) ⊎ Any (Of cid c') xs)
  latest_known known [] cid c h = (c, h, inl refl)
  latest_known known (x ∷ xs) cid c h = elim (Bool-cases (eq_id x.cid cid)) [
    | inl same ↦
        let (c', e, r) = latest_known (after hash known x) xs cid (key hash x) (rw same refl) in
        (c', e, inr (or_here cid c' x xs ((eq_id_iff x.cid cid).0 same) r))
    | inr other ↦
        let (c', e, r) = latest_known (after hash known x) xs cid c (rw other h) in
        (c', e, or_there cid c' c x xs r)
  ]

  -- Whatever was known before, the last key of a container with a line among `xs` is that of one
  -- of them.
  pub latest-Any :
      (known : ContainerId → Option Checkpoint) (xs : List LogLine) (cid : ContainerId)
      → Any (λ l. l.cid ≡ cid) xs
      → (c : Checkpoint) × (latest hash known xs cid ≡ some c) × Any (Of cid c) xs
  latest-Any known [] cid h = absurd h
  latest-Any known (x ∷ xs) cid (inl p) =
      let same : eq_id x.cid cid ≡ true = (eq_id_iff x.cid cid).1 p in
      let (c, e, r) = latest_known (after hash known x) xs cid (key hash x) (rw same refl) in
      (c, e, or_here cid c x xs p r)
  latest-Any known (x ∷ xs) cid (inr h) =
      let (c, e, r) = latest-Any (after hash known x) xs cid h in (c, e, inr r)

  -- The ids of the lines are ids of lines.
  insert_id-Any :
      (P : ContainerId → Type 0) (id : ContainerId) (ids : List ContainerId)
      → P id
      → All P ids
      → All P (insert_id id ids)
  unfolding insert_id
  insert_id-Any P id [] h a = (h, tt)
  insert_id-Any P id (x ∷ ids) h a = elim (Bool-cases (eq_id id x)) [
    | inl same ↦ rw same a
    | inr other ↦ elim (Bool-cases (lt_bytes id.bytes x.bytes)) [
      | inl less ↦ rw (other, less) (h, a)
      | inr more ↦ rw (other, more) (a.0, insert_id-Any P id ids h a.1)
    ]
  ]

  All-map :
      (P Q : ContainerId → Type 0) (ids : List ContainerId)
      → ((id : ContainerId) → P id → Q id)
      → All P ids
      → All Q ids
  All-map P Q [] f a = tt
  All-map P Q (x ∷ ids) f a = (f x a.0, All-map P Q ids f a.1)

  cids-Any : (xs : List LogLine) → All (λ id. Any (λ l. l.cid ≡ id) xs) (cids xs)
  unfolding cids
  cids-Any [] = tt
  cids-Any (x ∷ xs) =
      insert_id-Any (λ id. Any (λ l. l.cid ≡ id) (x ∷ xs)) x.cid (cids xs) (inl refl)
        (All-map (λ id. Any (λ l. l.cid ≡ id) xs) (λ id. Any (λ l. l.cid ≡ id) (x ∷ xs)) (cids xs)
          (λ id h. inr h) (cids-Any xs))

  abbrev pub Backed : List LogLine → ContainerId × Checkpoint → Type 0
  Backed xs (cid, c) = Any (Of cid c) xs

  -- The checkpoints that go with a batch are keys of its own lines.
  checkpoints_of-Backed :
      (known : HashMap ContainerId Checkpoint) (xs : List LogLine) (ids : List ContainerId)
      → ((cid : ContainerId)
          → Any (λ l. l.cid ≡ cid) xs
          → (c : Checkpoint) × (lookup cid known ≡ some c) × Any (Of cid c) xs)
      → All (λ id. Any (λ l. l.cid ≡ id) xs) ids
      → All (Backed xs) (checkpoints_of known ids)
  unfolding checkpoints_of
  checkpoints_of-Backed known xs [] f a = tt
  checkpoints_of-Backed known xs (id ∷ ids) f a =
      let (c, e, r) = f id a.0 in
      rw (e, checkpoints_of) (r, checkpoints_of-Backed known xs ids f a.1)

  pub take_batch-Backed :
      (w : Bool) (s to : Service) (b : Batch)
      → ((cid : ContainerId)
          → Any (λ l. l.cid ≡ cid) s.lines
          → (c : Checkpoint) × (lookup cid s.checkpoints ≡ some c) × Any (Of cid c) s.lines)
      → take_batch w s ≡ some (to, b)
      → All (Backed b.lines) b.checkpoints
  unfolding take_batch
  take_batch-Backed w s to b f h =
      let own : b.checkpoints ≡ checkpoints_of s.checkpoints (cids s.lines) = ground arith in
      let all : b.lines ≡ s.lines = ground arith in
      rw (own, all)
        (checkpoints_of-Backed s.checkpoints s.lines (cids s.lines) f (cids-Any s.lines))

  pub Backed-Any :
      (xs : List LogLine) (cs : List (ContainerId × Checkpoint)) (cid : ContainerId)
      (c : Checkpoint)
      → All (Backed xs) cs
      → Any (λ e. (e.0 ≡ cid) × (e.1 ≡ c)) cs
      → Any (Of cid c) xs
  Backed-Any xs [] cid c a h = absurd h
  Backed-Any xs ((id, d) ∷ cs) cid c a (inl (p, q)) = subst₂ (λ i e. Any (Of i e) xs) p q a.0
  Backed-Any xs (e ∷ cs) cid c a (inr h) = Backed-Any xs cs cid c a.1 h

-- A row is written only by its own checkpoint.
advance-from :
    (rows : HashMap ContainerId Checkpoint) (id cid : ContainerId) (d c : Checkpoint)
    → lookup cid (advance rows id d) ≡ some c
    → (lookup cid rows ≡ some c) ⊎ ((id ≡ cid) × (d ≡ c))
unfolding advance
advance-from rows id cid d c h = elim (Option-cases (lookup id rows)) [
  | inl absent ↦ written (lookup-insert id cid d rows) (rw (absent, advance) at h)
  | inr ((stored, hash), present) ↦ elim (Bool-cases (ltb_ℤ d.0 stored)) [
    | inl later ↦ inl (rw (present, later, advance) at h)
    | inr not_later ↦ written (lookup-insert id cid d rows) (rw (present, not_later, advance) at h)
  ]
]
  where
    written :
        lookup cid (insert id d rows) ≡ (if eq_id id cid then some d else lookup cid rows)
        → lookup cid (insert id d rows) ≡ some c
        → (lookup cid rows ≡ some c) ⊎ ((id ≡ cid) × (d ≡ c))
    written e k = elim (Bool-cases (eq_id id cid)) [
      | inl same ↦ inr ((eq_id_iff id cid).0 same, ground arith)
      | inr other ↦ inl (ground arith)
    ]

pub advance_all-from :
    (succeeds : ContainerId → Bool) (rows : HashMap ContainerId Checkpoint)
    (cs : List (ContainerId × Checkpoint)) (cid : ContainerId) (c : Checkpoint)
    → lookup cid (advance_all succeeds rows cs) ≡ some c
    → (lookup cid rows ≡ some c) ⊎ Any (λ e. (e.0 ≡ cid) × (e.1 ≡ c)) cs
unfolding advance_all
advance_all-from succeeds rows [] cid c h = inl h
advance_all-from succeeds rows ((id, d) ∷ cs) cid c h = elim (Bool-cases (succeeds id)) [
  | inl done ↦ elim (advance_all-from succeeds (advance rows id d) cs cid c (rw (done) at h)) [
    | inr later ↦ inr (inr later)
    | inl now ↦ elim (advance-from rows id cid d c now) [
      | inl old ↦ inl old
      | inr new ↦ inr (inl new)
    ]
  ]
  | inr failed ↦ elim (advance_all-from succeeds rows cs cid c (rw (failed) at h)) [
    | inr later ↦ inr (inr later)
    | inl old ↦ inl old
  ]
]
