-- ===== src/Anonymity/Positions.antt =====
-- Where the loop over the cursor puts the commitments.
use bagsvault.Base.{
  ℕ, zero, suc, ◌-◌, ◌≤◌, ◌≡◌, refl, sym, ap, ◌∙◌, List, [], ◌∷◌, ◌++◌, some, Str, length,
  get_elem?, replicate, length-append, length-replicate, append_assoc, arith,
}
use bagsvault.Solana.Instruction.{Bytes}
use bagsvault.Anonymity.{
  zero32, CommitmentDoc, leaf_bytes, Loaded, place, load_doc, load_from, nothing_loaded,
}

module _ {ℓ} {A : Type ℓ} where
  get_elem?-append_left :
      (xs ys : List A) (i : ℕ) (x : A) → get_elem? xs i ≡ some x → get_elem? (xs ++ ys) i ≡ some x
  get_elem?-append_left [] ys i x h = absurd (cc)
  get_elem?-append_left (a ∷ xs) ys zero x h = h
  get_elem?-append_left (a ∷ xs) ys (suc i) x h = get_elem?-append_left xs ys i x h

  get_elem?-append_end :
      (xs : List A) (y : A) (i : ℕ) → length xs ≡ i → get_elem? (xs ++ (y ∷ [])) i ≡ some y
  get_elem?-append_end [] y zero h = refl
  get_elem?-append_end [] y (suc i) h = absurd (omega arith)
  get_elem?-append_end (a ∷ xs) y zero h = absurd (omega arith)
  get_elem?-append_end (a ∷ xs) y (suc i) h = get_elem?-append_end xs y i (omega arith)

-- The documents are whole and their indices rise, as the query's sort on a unique field gives them.
abbrev pub AreAscending : ℕ → List CommitmentDoc → Type 0
AreAscending low [] = Unit
AreAscending low (doc ∷ docs) =
    (idx : ℕ) × (commit_hex : Str) × (doc.merkle_index ≡ some idx)
    × (doc.commitment ≡ some commit_hex)
    × (low ≤ idx)
    × AreAscending (suc idx) docs

module _ (leaf_index : ℕ) where
  padding : ℕ → Loaded → List Bytes
  padding idx l = l.commitments ++ replicate (idx - length l.commitments) zero32

  place-commitments :
      (idx : ℕ) (leaf : Bytes) (l : Loaded)
      → (place leaf_index idx leaf l).commitments ≡ padding idx l ++ (leaf ∷ [])
  unfolding place padding
  place-commitments idx leaf l =
      sym (append_assoc l.commitments (replicate (idx - length l.commitments) zero32) (leaf ∷ []))

  length-padding :
      (idx : ℕ) (l : Loaded) → length l.commitments ≤ idx → length (padding idx l) ≡ idx
  unfolding padding
  length-padding idx l h = omega (
    arith,
    length-append l.commitments (replicate (idx - length l.commitments) zero32),
    length-replicate (idx - length l.commitments) zero32,
  )

  place-at :
      (idx : ℕ) (leaf : Bytes) (l : Loaded)
      → length l.commitments ≤ idx
      → get_elem? (place leaf_index idx leaf l).commitments idx ≡ some leaf
  place-at idx leaf l h =
      rw (place-commitments idx leaf l)
        (get_elem?-append_end (padding idx l) leaf idx (length-padding idx l h))

  length-place :
      (idx : ℕ) (leaf : Bytes) (l : Loaded)
      → length l.commitments ≤ idx
      → length (place leaf_index idx leaf l).commitments ≡ suc idx
  length-place idx leaf l h =
      ap length (place-commitments idx leaf l)
      ∙ omega (arith, length-append (padding idx l) (leaf ∷ []), length-padding idx l h)

  place-keeps :
      (idx i : ℕ) (leaf x : Bytes) (l : Loaded)
      → get_elem? l.commitments i ≡ some x
      → get_elem? (place leaf_index idx leaf l).commitments i ≡ some x
  unfolding place
  place-keeps idx i leaf x l h = get_elem?-append_left l.commitments _ i x h

  load_doc-place :
      (doc : CommitmentDoc) (idx : ℕ) (commit_hex : Str) (l : Loaded)
      → doc.merkle_index ≡ some idx
      → doc.commitment ≡ some commit_hex
      → load_doc leaf_index doc.merkle_index doc.commitment l
        ≡ place leaf_index idx (leaf_bytes commit_hex) l
  load_doc-place doc idx commit_hex l i c = rw (i, c) (unfold load_doc in refl)

  load_from-cons :
      (doc : CommitmentDoc) (docs : List CommitmentDoc) (idx : ℕ) (commit_hex : Str) (l : Loaded)
      → doc.merkle_index ≡ some idx
      → doc.commitment ≡ some commit_hex
      → load_from leaf_index (doc ∷ docs) l
        ≡ load_from leaf_index docs (place leaf_index idx (leaf_bytes commit_hex) l)
  unfolding load_from
  load_from-cons doc docs idx commit_hex l i c =
      ap (load_from leaf_index docs) (load_doc-place doc idx commit_hex l i c)

  load_from-keeps :
      (docs : List CommitmentDoc) (low : ℕ) (l : Loaded) (i : ℕ) (x : Bytes)
      → AreAscending low docs
      → get_elem? l.commitments i ≡ some x
      → get_elem? (load_from leaf_index docs l).commitments i ≡ some x
  load_from-keeps [] low l i x h at = unfold load_from in at
  load_from-keeps (doc ∷ docs) low l i x (idx, commit_hex, di, dc, le, rest) at =
      rw (load_from-cons doc docs idx commit_hex l di dc) (
        load_from-keeps docs (suc idx) (place leaf_index idx (leaf_bytes commit_hex) l) i x rest
          (place-keeps idx i (leaf_bytes commit_hex) x l at))

  load_from-at :
      (docs : List CommitmentDoc) (low : ℕ) (l : Loaded) (j i : ℕ) (doc : CommitmentDoc) (hex : Str)
      → AreAscending low docs
      → length l.commitments ≤ low
      → get_elem? docs j ≡ some doc
      → doc.merkle_index ≡ some i
      → doc.commitment ≡ some hex
      → get_elem? (load_from leaf_index docs l).commitments i ≡ some (leaf_bytes hex)
  load_from-at [] low l j i doc hex asc n at di dc = absurd (cc)
  load_from-at (d ∷ docs) low l zero i doc hex (idx, commit_hex, i', c', le, rest) n at di dc =
      let here : d ≡ doc = cc in
      let index : idx ≡ i = cc (ap (λ (r : CommitmentDoc). r.merkle_index) here) in
      let text : commit_hex ≡ hex = cc (ap (λ (r : CommitmentDoc). r.commitment) here) in
      rw (load_from-cons d docs idx commit_hex l i' c', ← index, ← text)
        (load_from-keeps docs (suc idx) (place leaf_index idx (leaf_bytes commit_hex) l) idx
          (leaf_bytes commit_hex) rest (place-at idx (leaf_bytes commit_hex) l (omega arith)))
  load_from-at (d ∷ docs) low l (suc j) i doc hex (idx, commit_hex, i', c', le, rest) n at di dc =
      rw (load_from-cons d docs idx commit_hex l i' c') (
        load_from-at docs (suc idx) (place leaf_index idx (leaf_bytes commit_hex) l) j i doc hex
          rest (omega (arith, length-place idx (leaf_bytes commit_hex) l (omega arith))) at di dc)

-- Every commitment that the query returns, in rising order, stands at its own index in the list that
-- is replayed, whatever gaps lie between.
load_positions :
    (leaf_index : ℕ) (docs : List CommitmentDoc) (j i : ℕ) (doc : CommitmentDoc) (hex : Str)
    → AreAscending 0 docs
    → get_elem? docs j ≡ some doc
    → doc.merkle_index ≡ some i
    → doc.commitment ≡ some hex
    → get_elem? (load_from leaf_index docs nothing_loaded).commitments i ≡ some (leaf_bytes hex)
load_positions leaf_index docs j i doc hex asc =
    load_from-at leaf_index docs 0 nothing_loaded j i doc hex asc (omega arith)
