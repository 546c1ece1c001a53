-- ===== src/Anonymity/Witness.antt =====
-- The siblings that the replay records, against those by which the tree's root is computed.
use bagsvault.Base.{
  ℕ, suc, ◌/◌, ◌≡◌, refl, sym, ap, ◌∙◌, ◌⊎◌, inl, inr, Bool, true, false, List, [], ◌∷◌, length,
  All, ℕ_discrete, arith, if◌then◌else◌,
}
use bagsvault.Solana.Instruction.{Bytes}
use bagsvault.Zk.{walk}
use bagsvault.Zk.Walk.{Collision, walk_binding}
use bagsvault.Anonymity.{zero32, is_even, Inserted, insert_leaf, at_level, bubble}

-- What the comment in the source says is recorded: zero beside a leaf on the left, the filled subtree
-- beside one on the right.
pub documented : ℕ → List Bytes → List Bytes
documented index [] = []
documented index (f ∷ fs) = (if is_even index then zero32 else f) ∷ documented (index / 2) fs

length-documented :
    (index : ℕ) (filled : List Bytes) → length (documented index filled) ≡ length filled
unfolding documented
length-documented index [] = refl
length-documented index (f ∷ fs) = ap suc (length-documented (index / 2) fs)

abbrev pub AreZero : List Bytes → Type 0
AreZero = All (λ f. f ≡ zero32)

Bytes-discrete : Discrete Bytes
Bytes-discrete = hlevel ℕ_discrete

module _ (hash_pair : Bytes → Bytes → Bytes) where
  abbrev insertion : Bytes → ℕ → List Bytes → Inserted
  insertion = insert_leaf hash_pair

  length-is_left :
      (leaf : Bytes) (index : ℕ) (filled : List Bytes)
      → length (insertion leaf index filled).is_left ≡ length filled
  unfolding insert_leaf
  length-is_left leaf index [] = refl
  length-is_left leaf index (f ∷ fs) =
      ground (arith, length-is_left (bubble hash_pair (is_even index) f leaf) (index / 2) fs)

  length-siblings :
      (leaf : Bytes) (index : ℕ) (filled : List Bytes)
      → length (insertion leaf index filled).siblings ≡ length filled
  unfolding insert_leaf
  length-siblings leaf index [] = refl
  length-siblings leaf index (f ∷ fs) =
      ground (arith, length-siblings (bubble hash_pair (is_even index) f leaf) (index / 2) fs)

  walk-at_level :
      (b : Bool) (f leaf : Bytes) (path : List Bytes) (i : Inserted)
      → walk hash_pair leaf
          ((if b then zero32 else f) ∷ path)
          (at_level hash_pair b f leaf i).is_left
        ≡ walk hash_pair (bubble hash_pair b f leaf) path i.is_left
  unfolding walk at_level bubble
  walk-at_level true f leaf path i = refl
  walk-at_level false f leaf path i = refl

  root-at_level :
      (b : Bool) (f leaf : Bytes) (i : Inserted) → (at_level hash_pair b f leaf i).root ≡ i.root
  unfolding at_level
  root-at_level true f leaf i = refl
  root-at_level false f leaf i = refl

  pub walk-documented :
      (leaf : Bytes) (index : ℕ) (filled : List Bytes)
      → walk hash_pair leaf (documented index filled) (insertion leaf index filled).is_left
        ≡ (insertion leaf index filled).root
  unfolding insert_leaf documented
  walk-documented leaf index [] = unfold walk in refl
  walk-documented leaf index (f ∷ fs) =
      let up = insertion (bubble hash_pair (is_even index) f leaf) (index / 2) fs in
      walk-at_level (is_even index) f leaf (documented (index / 2) fs) up
      ∙ walk-documented (bubble hash_pair (is_even index) f leaf) (index / 2) fs
      ∙ sym (root-at_level (is_even index) f leaf up)

  siblings-at_level :
      (b : Bool) (f leaf : Bytes) (path : List Bytes) (i : Inserted)
      → (at_level hash_pair b f leaf i).siblings ≡ (if b then zero32 else f) ∷ path
      → (f ≡ zero32) × (i.siblings ≡ path)
  unfolding at_level
  siblings-at_level true f leaf path i h = (cc, cc)
  siblings-at_level false f leaf path i h = (cc, cc)

  at_level-siblings :
      (b : Bool) (f leaf : Bytes) (path : List Bytes) (i : Inserted)
      → f ≡ zero32
      → i.siblings ≡ path
      → (at_level hash_pair b f leaf i).siblings ≡ (if b then zero32 else f) ∷ path
  unfolding at_level
  at_level-siblings true f leaf path i z h = cc
  at_level-siblings false f leaf path i z h = cc

  -- The recorded siblings are the documented ones only where every filled subtree is zero.
  siblings-documented :
      (leaf : Bytes) (index : ℕ) (filled : List Bytes)
      → (insertion leaf index filled).siblings ≡ documented index filled
      → AreZero filled
  unfolding insert_leaf documented
  siblings-documented leaf index [] h = tt
  siblings-documented leaf index (f ∷ fs) h =
      let up = insertion (bubble hash_pair (is_even index) f leaf) (index / 2) fs in
      let (z, rest) = siblings-at_level (is_even index) f leaf (documented (index / 2) fs) up h in
      (z, siblings-documented (bubble hash_pair (is_even index) f leaf) (index / 2) fs rest)

  documented-siblings :
      (leaf : Bytes) (index : ℕ) (filled : List Bytes)
      → AreZero filled
      → (insertion leaf index filled).siblings ≡ documented index filled
  unfolding insert_leaf documented
  documented-siblings leaf index [] h = refl
  documented-siblings leaf index (f ∷ fs) h =
      at_level-siblings (is_even index) f leaf (documented (index / 2) fs)
        (insertion (bubble hash_pair (is_even index) f leaf) (index / 2) fs) h.0
        (documented-siblings (bubble hash_pair (is_even index) f leaf) (index / 2) fs h.1)

  -- Checking the recorded path of an insertion against its root.
  abbrev pub Verifies : Bytes → ℕ → List Bytes → Type 0
  Verifies leaf index filled =
      walk hash_pair leaf (insertion leaf index filled).siblings
        (insertion leaf index filled).is_left
      ≡ (insertion leaf index filled).root

  pub Verifies-of_zero :
      (leaf : Bytes) (index : ℕ) (filled : List Bytes) → AreZero filled → Verifies leaf index filled
  Verifies-of_zero leaf index filled h =
      rw (documented-siblings leaf index filled h) (walk-documented leaf index filled)

  pub zero_of_Verifies :
      (leaf : Bytes) (index : ℕ) (filled : List Bytes)
      → Verifies leaf index filled
      → AreZero filled ⊎ Collision hash_pair
  zero_of_Verifies leaf index filled h = by_binding (
      walk_binding hash_pair Bytes-discrete (insertion leaf index filled).is_left
        (insertion leaf index filled).siblings (documented index filled) leaf leaf
        (length-siblings leaf index filled ∙ sym (length-is_left leaf index filled))
        (length-documented index filled ∙ sym (length-is_left leaf index filled))
        (h ∙ sym (walk-documented leaf index filled)))
    where
      by_binding :
          ((leaf ≡ leaf) × ((insertion leaf index filled).siblings ≡ documented index filled))
            ⊎ Collision hash_pair
          → AreZero filled ⊎ Collision hash_pair
      by_binding (inl (_, same)) = inl (siblings-documented leaf index filled same)
      by_binding (inr c) = inr c
