-- ===== src/Anonymity/Served.antt =====
-- The path that the endpoint serves, over the whole replay.
use bagsvault.Base.{
  ℕ, zero, suc, ◌+◌, ◌/◌, ◌<◌, ◌≡◌, ◌≢◌, refl, ap₂, ◌∙◌, ◌⊎◌, inl, inr, Bool, true, false, List, [],
  ◌∷◌, some, get_elem?, All, replicate, ◌==◌, arith,
}
use bagsvault.Solana.Instruction.{Bytes}
use bagsvault.Zk.{walk}
use bagsvault.Zk.Walk.{Collision}
use bagsvault.Anonymity.{
  zero32, merkle_tree_depth, is_even, Inserted, insert_leaf, at_level, bubble, Target, recorded,
  replay, start_target,
}
use bagsvault.Anonymity.Witness.{AreZero, Verifies, Verifies-of_zero, zero_of_Verifies}

module _ (hash_pair : Bytes → Bytes → Bytes) where
  -- `filled` before the n-th of the leaves is inserted, the first of them at position `idx`.
  unfoldable pub filled_before : ℕ → List Bytes → List Bytes → ℕ → List Bytes
  filled_before idx filled leaves zero = filled
  filled_before idx filled [] (suc n) = filled
  filled_before idx filled (leaf ∷ leaves) (suc n) =
      filled_before (suc idx) (insert_leaf hash_pair leaf idx filled).filled leaves n

  abbrev target_of : Inserted → Target
  target_of i = record { path = i.siblings; is_left = i.is_left }

  recorded-true : (b : Bool) (i : Inserted) (t : Target) → b ≡ true → recorded b i t ≡ target_of i
  unfolding recorded
  recorded-true b i t h = rw h

  recorded-false : (b : Bool) (i : Inserted) (t : Target) → b ≡ false → recorded b i t ≡ t
  unfolding recorded
  recorded-false b i t h = rw h

  replay-later :
      (leaf_index idx : ℕ) (filled leaves : List Bytes) (t : Target)
      → leaf_index < idx
      → replay hash_pair leaf_index idx filled leaves t ≡ t
  unfolding replay
  replay-later leaf_index idx filled [] t h = refl
  replay-later leaf_index idx filled (leaf ∷ leaves) t h =
      let i = insert_leaf hash_pair leaf idx filled in
      replay-later leaf_index (suc idx) i.filled leaves (recorded (idx == leaf_index) i t)
        (omega arith)
      ∙ recorded-false (idx == leaf_index) i t (ground arith)

  replay-step :
      (leaf_index idx : ℕ) (filled : List Bytes) (x : Bytes) (xs : List Bytes) (t : Target)
      → let i = insert_leaf hash_pair x idx filled in
        replay hash_pair leaf_index idx filled (x ∷ xs) t
        ≡ replay hash_pair leaf_index (suc idx) i.filled xs (recorded (idx == leaf_index) i t)
  unfolding replay
  replay-step leaf_index idx filled x xs t = refl

  replay-target :
      (d leaf_index idx : ℕ) (filled leaves : List Bytes) (t : Target) (leaf : Bytes)
      → leaf_index ≡ idx + d
      → get_elem? leaves d ≡ some leaf
      → replay hash_pair leaf_index idx filled leaves t
        ≡ target_of (insert_leaf hash_pair leaf leaf_index (filled_before idx filled leaves d))
  replay-target d leaf_index idx filled [] t leaf e h = absurd (cc)
  replay-target zero leaf_index idx filled (x ∷ xs) t leaf e h =
      let i = insert_leaf hash_pair x idx filled in
      let here : idx ≡ leaf_index = omega (arith, e) in
      let same : x ≡ leaf = cc in
      unfold replay filled_before in
      (replay-later leaf_index (suc idx) i.filled xs (recorded (idx == leaf_index) i t)
          (omega arith)
        ∙ recorded-true (idx == leaf_index) i t (ground arith)
        ∙ ap₂ (λ y n. target_of (insert_leaf hash_pair y n filled)) same here)
  replay-target (suc d) leaf_index idx filled (x ∷ xs) t leaf e h =
      let i = insert_leaf hash_pair x idx filled in
      let rest =
        replay-target d leaf_index (suc idx) i.filled xs (recorded (idx == leaf_index) i t) leaf
          (omega (arith, e)) h in
      replay-step leaf_index idx filled x xs t ∙ rest ∙ unfold filled_before in refl

  -- The lowest filled subtree is there and is not zero.
  abbrev HeadNonzero : List Bytes → Type 0
  HeadNonzero [] = ⊥
  HeadNonzero (f ∷ fs) = f ≢ zero32

  at_level-HeadNonzero :
      (b : Bool) (f leaf : Bytes) (up : Inserted)
      → f ≢ zero32
      → leaf ≢ zero32
      → HeadNonzero (at_level hash_pair b f leaf up).filled
  unfolding at_level
  at_level-HeadNonzero true f leaf up hf hl = hl
  at_level-HeadNonzero false f leaf up hf hl = hf

  insert_leaf-HeadNonzero :
      (leaf : Bytes) (idx : ℕ) (filled : List Bytes)
      → HeadNonzero filled
      → leaf ≢ zero32
      → HeadNonzero (insert_leaf hash_pair leaf idx filled).filled
  unfolding insert_leaf
  insert_leaf-HeadNonzero leaf idx [] h hl = absurd h
  insert_leaf-HeadNonzero leaf idx (f ∷ fs) h hl =
      at_level-HeadNonzero (is_even idx) f leaf
        (insert_leaf hash_pair (bubble hash_pair (is_even idx) f leaf) (idx / 2) fs) h hl

  first_leaf-HeadNonzero :
      (leaf f : Bytes) (fs : List Bytes)
      → leaf ≢ zero32
      → HeadNonzero (insert_leaf hash_pair leaf 0 (f ∷ fs)).filled
  unfolding insert_leaf is_even at_level
  first_leaf-HeadNonzero leaf f fs h = h

  filled_before-HeadNonzero :
      (n idx : ℕ) (filled leaves : List Bytes)
      → HeadNonzero filled
      → All (λ leaf. leaf ≢ zero32) leaves
      → HeadNonzero (filled_before idx filled leaves n)
  unfolding filled_before
  filled_before-HeadNonzero zero idx filled leaves h hl = h
  filled_before-HeadNonzero (suc n) idx filled [] h hl = h
  filled_before-HeadNonzero (suc n) idx filled (x ∷ xs) h hl =
      filled_before-HeadNonzero n (suc idx) (insert_leaf hash_pair x idx filled).filled xs
        (insert_leaf-HeadNonzero x idx filled h hl.0) hl.1

  not_zero : (filled : List Bytes) → HeadNonzero filled → AreZero filled → ⊥
  not_zero [] h z = h
  not_zero (f ∷ fs) h z = h z.0

-- The root after the n-th leaf is inserted, counted from zero.
unfoldable pub root_after : (Bytes → Bytes → Bytes) → List Bytes → ℕ → Bytes → Bytes
root_after hash_pair leaves n leaf =
    (insert_leaf hash_pair leaf n
      (filled_before hash_pair 0 (replicate merkle_tree_depth zero32) leaves n)).root

-- What the endpoint serves for a leaf.
abbrev pub served : (Bytes → Bytes → Bytes) → List Bytes → ℕ → Target
served hash_pair leaves leaf_index =
    replay hash_pair leaf_index 0 (replicate merkle_tree_depth zero32) leaves start_target

zeros-AreZero : (n : ℕ) → AreZero (replicate n zero32)
zeros-AreZero zero = tt
zeros-AreZero (suc n) = (refl, zeros-AreZero n)

-- `filled` when the (n + 1)-th leaf is inserted.
abbrev filled_at : (Bytes → Bytes → Bytes) → List Bytes → ℕ → List Bytes
filled_at hash_pair leaves n =
    filled_before hash_pair 0 (replicate merkle_tree_depth zero32) leaves n

filled_at-HeadNonzero :
    (hash_pair : Bytes → Bytes → Bytes) (x : Bytes) (xs : List Bytes) (n : ℕ)
    → All (λ l. l ≢ zero32) (x ∷ xs)
    → HeadNonzero hash_pair (filled_at hash_pair (x ∷ xs) (suc n))
unfolding filled_before
filled_at-HeadNonzero hash_pair x xs n nz =
    filled_before-HeadNonzero hash_pair n 1
      (insert_leaf hash_pair x 0 (replicate merkle_tree_depth zero32)).filled xs
      (first_leaf-HeadNonzero hash_pair x zero32 (replicate 19 zero32) nz.0) nz.1

-- The path served for the first leaf leads from it to the root after its insertion.
served_first :
    (hash_pair : Bytes → Bytes → Bytes) (leaf : Bytes) (leaves : List Bytes)
    → let t = served hash_pair (leaf ∷ leaves) 0 in
      walk hash_pair leaf t.path t.is_left ≡ root_after hash_pair (leaf ∷ leaves) 0 leaf
unfolding root_after
served_first hash_pair leaf leaves =
    rw
      (replay-target hash_pair 0 0 0 (replicate merkle_tree_depth zero32) (leaf ∷ leaves)
        start_target leaf (omega arith) refl)
      (unfold filled_before in
        Verifies-of_zero hash_pair leaf 0 (replicate merkle_tree_depth zero32)
          (zeros-AreZero merkle_tree_depth))

-- The path served for any later leaf never leads to the root after its insertion, where no leaf is
-- zero: a walk that ends there exhibits a collision of the hash.
pub served_later :
    (hash_pair : Bytes → Bytes → Bytes) (leaves : List Bytes) (n : ℕ) (leaf : Bytes)
    → All (λ l. l ≢ zero32) leaves
    → get_elem? leaves (suc n) ≡ some leaf
    → let t = served hash_pair leaves (suc n) in
      walk hash_pair leaf t.path t.is_left ≡ root_after hash_pair leaves (suc n) leaf
      → Collision hash_pair
unfolding root_after
served_later hash_pair [] n leaf nz at h = absurd (cc)
served_later hash_pair (x ∷ xs) n leaf nz at h =
    let e =
      replay-target hash_pair (suc n) (suc n) 0 (replicate merkle_tree_depth zero32) (x ∷ xs)
        start_target leaf (omega arith) at in
    let verified : Verifies hash_pair leaf (suc n) (filled_at hash_pair (x ∷ xs) (suc n)) =
      rw e at h in
    by_zero
      (zero_of_Verifies hash_pair leaf (suc n) (filled_at hash_pair (x ∷ xs) (suc n)) verified)
  where
    by_zero :
        AreZero (filled_at hash_pair (x ∷ xs) (suc n)) ⊎ Collision hash_pair → Collision hash_pair
    by_zero (inl z) = absurd (
        not_zero hash_pair (filled_at hash_pair (x ∷ xs) (suc n))
          (filled_at-HeadNonzero hash_pair x xs n nz) z)
    by_zero (inr c) = c
