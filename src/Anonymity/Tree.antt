-- ===== src/Anonymity/Tree.antt =====
-- The tree of all leaves, computed level by level, against the replay that keeps one node a level.
use bagsvault.Base.{
  ℕ, zero, suc, ◌/◌, ◌%◌, ◌==◌, ◌^◌, ◌≤◌, ◌<◌, ◌≡◌, refl, sym, ap, ap₂, ◌∙◌, ◌⊎◌, inl, inr, true,
  false, List, [], ◌∷◌, ◌++◌, append_assoc, append-nil, Option, none, some, length, take, get_elem?,
  replicate, length-append, arith,
}
use native.Mathlib.Nat.{pow-suc}
use bagsvault.Solana.Instruction.{Bytes}
use bagsvault.Anonymity.{
  zero32, merkle_tree_depth, is_even, Inserted, insert_leaf, at_level, bubble,
}
use bagsvault.Anonymity.Served.{filled_before, root_after}

-- The node that still waits for its right neighbour.
odd_one : List Bytes → Option Bytes
odd_one [] = none
odd_one (a ∷ []) = some a
odd_one (a ∷ b ∷ rest) = odd_one rest

abbrev Parity : List Bytes → Type 0
Parity xs =
    ((odd_one xs ≡ none) × (is_even (length xs) ≡ true))
    ⊎ ((z : Bytes) × (odd_one xs ≡ some z) × (is_even (length xs) ≡ false))

is_even_step : (n : ℕ) → is_even (suc (suc n)) ≡ is_even n
unfolding is_even
is_even_step n = let same : suc (suc n) % 2 ≡ n % 2 = omega arith in ap (λ (m : ℕ). m == 0) same

parity : (xs : List Bytes) → Parity xs
unfolding odd_one
parity [] = unfold is_even in inl (refl, refl)
parity (a ∷ []) = unfold is_even in inr (a, refl, refl)
parity (a ∷ b ∷ rest) = elim (parity rest) [
  | inl (e, p) ↦ inl (e, is_even_step (length rest) ∙ p)
  | inr (z, e, p) ↦ inr (z, e, is_even_step (length rest) ∙ p)
]

odd_one-even : (xs : List Bytes) (c : Bytes) → odd_one xs ≡ none → odd_one (xs ++ (c ∷ [])) ≡ some c
unfolding odd_one
odd_one-even [] c h = refl
odd_one-even (a ∷ []) c h = absurd (cc)
odd_one-even (a ∷ b ∷ rest) c h = odd_one-even rest c h

odd_one-odd :
    (xs : List Bytes) (c z : Bytes) → odd_one xs ≡ some z → odd_one (xs ++ (c ∷ [])) ≡ none
unfolding odd_one
odd_one-odd [] c z h = absurd (cc)
odd_one-odd (a ∷ []) c z h = refl
odd_one-odd (a ∷ b ∷ rest) c z h = odd_one-odd rest c z h

module _ (hash_pair : Bytes → Bytes → Bytes) where
  -- The next level: neighbours are hashed, and a last node without one is hashed with zero.
  unfoldable pub next_level : List Bytes → List Bytes
  next_level [] = []
  next_level (a ∷ []) = hash_pair a zero32 ∷ []
  next_level (a ∷ b ∷ rest) = hash_pair a b ∷ next_level rest

  -- The root over so many levels.
  unfoldable pub tree_root : ℕ → List Bytes → Bytes
  tree_root zero [] = zero32
  tree_root zero (a ∷ rest) = a
  tree_root (suc depth) nodes = tree_root depth (next_level nodes)

  -- The nodes of the next level that are complete.
  full : List Bytes → List Bytes
  full [] = []
  full (a ∷ []) = []
  full (a ∷ b ∷ rest) = hash_pair a b ∷ full rest

  length-full : (xs : List Bytes) → length (full xs) ≡ length xs / 2
  unfolding full
  length-full [] = refl
  length-full (a ∷ []) = refl
  length-full (a ∷ b ∷ rest) = omega (arith, length-full rest)

  next_level-even :
      (xs : List Bytes) (c : Bytes)
      → odd_one xs ≡ none
      → next_level (xs ++ (c ∷ [])) ≡ full xs ++ (hash_pair c zero32 ∷ [])
  unfolding next_level full odd_one
  next_level-even [] c h = refl
  next_level-even (a ∷ []) c h = absurd (cc)
  next_level-even (a ∷ b ∷ rest) c h = ap (λ t. hash_pair a b ∷ t) (next_level-even rest c h)

  next_level-odd :
      (xs : List Bytes) (c z : Bytes)
      → odd_one xs ≡ some z
      → next_level (xs ++ (c ∷ [])) ≡ full xs ++ (hash_pair z c ∷ [])
  unfolding next_level full odd_one
  next_level-odd [] c z h = absurd (cc)
  next_level-odd (a ∷ []) c z h = let same : a ≡ z = cc in ap (λ t. hash_pair t c ∷ []) same
  next_level-odd (a ∷ b ∷ rest) c z h = ap (λ t. hash_pair a b ∷ t) (next_level-odd rest c z h)

  full-even : (xs : List Bytes) (c : Bytes) → odd_one xs ≡ none → full (xs ++ (c ∷ [])) ≡ full xs
  unfolding full odd_one
  full-even [] c h = refl
  full-even (a ∷ []) c h = absurd (cc)
  full-even (a ∷ b ∷ rest) c h = ap (λ t. hash_pair a b ∷ t) (full-even rest c h)

  full-odd :
      (xs : List Bytes) (c z : Bytes)
      → odd_one xs ≡ some z
      → full (xs ++ (c ∷ [])) ≡ full xs ++ (hash_pair z c ∷ [])
  unfolding full odd_one
  full-odd [] c z h = absurd (cc)
  full-odd (a ∷ []) c z h = let same : a ≡ z = cc in ap (λ t. hash_pair t c ∷ []) same
  full-odd (a ∷ b ∷ rest) c z h = ap (λ t. hash_pair a b ∷ t) (full-odd rest c z h)

  -- Each level's node is the one that waits, if one does.
  abbrev Fits : List Bytes → List Bytes → Type 0
  Fits xs [] = Unit
  Fits xs (f ∷ fs) = ((z : Bytes) → odd_one xs ≡ some z → f ≡ z) × Fits (full xs) fs

  abbrev insertion : Bytes → List Bytes → List Bytes → Inserted
  insertion c xs filled = insert_leaf hash_pair c (length xs) filled

  insertion-even :
      (c f : Bytes) (xs fs : List Bytes)
      → is_even (length xs) ≡ true
      → insertion c xs (f ∷ fs)
        ≡ at_level hash_pair true f c (insertion (hash_pair c zero32) (full xs) fs)
  unfolding insert_leaf bubble
  insertion-even c f xs fs e = rw (e, length-full xs)

  insertion-odd :
      (c f : Bytes) (xs fs : List Bytes)
      → is_even (length xs) ≡ false
      → insertion c xs (f ∷ fs)
        ≡ at_level hash_pair false f c (insertion (hash_pair f c) (full xs) fs)
  unfolding insert_leaf bubble
  insertion-odd c f xs fs e = rw (e, length-full xs)

  -- An insertion at a node's place leaves what the earlier nodes need.
  Fits-keep : (c : Bytes) (xs fs : List Bytes) → Fits xs fs → Fits xs (insertion c xs fs).filled
  unfolding at_level
  Fits-keep c xs [] h = unfold insert_leaf in tt
  Fits-keep c xs (f ∷ fs) h = elim (parity xs) [
    | inl (e, p) ↦
        rw (insertion-even c f xs fs p)
          ((λ z found. absurd (cc)), Fits-keep (hash_pair c zero32) (full xs) fs h.1)
    | inr (z, e, p) ↦
        rw (insertion-odd c f xs fs p) (h.0, Fits-keep (hash_pair f c) (full xs) fs h.1)
  ]

  Fits-insert :
      (c : Bytes) (xs fs : List Bytes)
      → Fits xs fs
      → Fits (xs ++ (c ∷ [])) (insertion c xs fs).filled
  unfolding at_level
  Fits-insert c xs [] h = unfold insert_leaf in tt
  Fits-insert c xs (f ∷ fs) h = elim (parity xs) [
    | inl (e, p) ↦
        rw (insertion-even c f xs fs p, odd_one-even xs c e, full-even xs c e)
          ((λ z found. cc), Fits-keep (hash_pair c zero32) (full xs) fs h.1)
    | inr (z, e, p) ↦
        rw (insertion-odd c f xs fs p, odd_one-odd xs c z e, full-odd xs c z e, h.0 z e)
          ((λ y found. absurd (cc)), Fits-insert (hash_pair z c) (full xs) fs h.1)
  ]

  insertion-root :
      (c : Bytes) (xs fs : List Bytes)
      → Fits xs fs
      → length xs < 2 ^ length fs
      → (insertion c xs fs).root ≡ tree_root (length fs) (xs ++ (c ∷ []))
  unfolding tree_root at_level
  insertion-root c [] [] h few = unfold insert_leaf in refl
  insertion-root c (x ∷ xs) [] h few = absurd (omega arith)
  insertion-root c xs (f ∷ fs) h few =
      let half : length (full xs) < 2 ^ length fs =
        omega (arith, length-full xs, pow-suc 2 (length fs)) in
      elim (parity xs) [
        | inl (e, p) ↦
            ap (λ i. i.root) (insertion-even c f xs fs p)
            ∙ insertion-root (hash_pair c zero32) (full xs) fs h.1 half
            ∙ ap (tree_root (length fs)) (sym (next_level-even xs c e))
        | inr (z, e, p) ↦
            ap (λ i. i.root) (insertion-odd c f xs fs p)
            ∙ insertion-root (hash_pair f c) (full xs) fs h.1 half
            ∙ ap (λ y. tree_root (length fs) (full xs ++ (hash_pair y c ∷ []))) (h.0 z e)
            ∙ ap (tree_root (length fs)) (sym (next_level-odd xs c z e))
      ]

  length-insertion :
      (c : Bytes) (index : ℕ) (fs : List Bytes)
      → length (insert_leaf hash_pair c index fs).filled ≡ length fs
  unfolding insert_leaf
  length-insertion c index [] = refl
  length-insertion c index (f ∷ fs) =
      ground (arith, length-insertion (bubble hash_pair (is_even index) f c) (index / 2) fs)

  abbrev before : List Bytes → List Bytes → List Bytes → ℕ → List Bytes
  before xs filled leaves n = filled_before hash_pair (length xs) filled leaves n

  before-suc :
      (xs filled leaves : List Bytes) (leaf : Bytes) (n : ℕ)
      → before xs filled (leaf ∷ leaves) (suc n)
        ≡ before (xs ++ (leaf ∷ [])) (insertion leaf xs filled).filled leaves n
  unfolding filled_before
  before-suc xs filled leaves leaf n =
      let grown : suc (length xs) ≡ length (xs ++ (leaf ∷ [])) =
        omega (arith, length-append xs (leaf ∷ [])) in
      rw grown

  before-Fits :
      (n : ℕ) (xs filled leaves : List Bytes)
      → n ≤ length leaves
      → Fits xs filled
      → Fits (xs ++ take n leaves) (before xs filled leaves n)
        × (length (before xs filled leaves n) ≡ length filled)
  before-Fits zero xs filled leaves few h = unfold filled_before in rw append-nil (h, refl)
  before-Fits (suc n) xs filled [] few h = absurd (omega arith)
  before-Fits (suc n) xs filled (leaf ∷ leaves) few h =
      let (fits, long) =
        before-Fits n (xs ++ (leaf ∷ [])) (insertion leaf xs filled).filled leaves (omega arith)
          (Fits-insert leaf xs filled h) in
      rw (before-suc xs filled leaves leaf n)
        (rw append_assoc at fits, long ∙ length-insertion leaf (length xs) filled)

take-suc :
    (n : ℕ) (leaves : List Bytes) (leaf : Bytes)
    → get_elem? leaves n ≡ some leaf
    → (take (suc n) leaves ≡ take n leaves ++ (leaf ∷ []))
      × (n ≡ length (take n leaves))
      × (n ≤ length leaves)
take-suc n [] leaf h = absurd (cc)
take-suc zero (x ∷ xs) leaf h = let same : x ≡ leaf = cc in (rw same, refl, omega arith)
take-suc (suc n) (x ∷ xs) leaf h =
    let (e, l, few) = take-suc n xs leaf h in (ap (λ t. x ∷ t) e, ap suc l, omega arith)

zeros-Fits :
    (hash_pair : Bytes → Bytes → Bytes) (depth : ℕ) → Fits hash_pair [] (replicate depth zero32)
unfolding odd_one full
zeros-Fits hash_pair zero = tt
zeros-Fits hash_pair (suc depth) = ((λ z found. absurd (cc)), zeros-Fits hash_pair depth)

-- For every number of leaves up to 2 ^ 20, the root after the insertion of a leaf, which the replay
-- computes from one kept node a level, is the root of the tree of all the leaves up to it, computed
-- level by level.
pub root_after-tree :
    (hash_pair : Bytes → Bytes → Bytes) (leaves : List Bytes) (n : ℕ) (leaf : Bytes)
    → get_elem? leaves n ≡ some leaf
    → n < 2 ^ merkle_tree_depth
    → root_after hash_pair leaves n leaf
      ≡ tree_root hash_pair merkle_tree_depth (take (suc n) leaves)
unfolding root_after
root_after-tree hash_pair leaves n leaf at few =
    let (grown, long, inside) = take-suc n leaves leaf at in
    let zeros = replicate merkle_tree_depth zero32 in
    let (fits, deep) =
      before-Fits hash_pair n [] zeros leaves inside (zeros-Fits hash_pair merkle_tree_depth) in
    let filled = filled_before hash_pair 0 zeros leaves n in
    let is_deep : length filled ≡ merkle_tree_depth = deep in
    let root =
      insertion-root hash_pair leaf (take n leaves) filled fits (rw (is_deep, ← long) few) in
    ap (λ k. (insert_leaf hash_pair leaf k filled).root) long
    ∙ root
    ∙ ap₂ (tree_root hash_pair) is_deep (sym grown)
