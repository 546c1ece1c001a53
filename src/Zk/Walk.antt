-- ===== src/Zk/Walk.antt =====
-- The Merkle walk binds: a root stands for one leaf and one path, or two different pairs of nodes meet in one
-- hash at the same level of two walks.
use bagsvault.Base.{
  ℕ, suc, some, get_elem?, ap, ◌≢◌, ◌≡◌, refl, sym, ◌∙◌, ap₂, ℕ_discrete, ◌⊎◌, inl, inr, Bool, true,
  false, List, [], ◌∷◌, map, length, length-map, ℤ, arith,
}
use bagsvault.Exceptions.{ok}
use bagsvault.Zk.{walk, HashLibs, hash2, is_one, merkle_root_from_path}

module _ {ℓ} {A : Type ℓ} (node_hash : A → A → A) where
  -- Two different pairs with one hash.
  abbrev pub Collision : Type ℓ
  Collision =
      (a : A) × (b : A) × (c : A) × (d : A) × (node_hash a b ≡ node_hash c d)
      × ((a ≡ c) × (b ≡ d) → ⊥)

  same_pair :
      Discrete A → (a b c d : A) → node_hash a b ≡ node_hash c d → ((a ≡ c) × (b ≡ d)) ⊎ Collision
  same_pair disc a b c d h = elim (disc a c) [
    | no differs ↦ inr (a, b, c, d, h, λ p. differs p.0)
    | yes ac ↦ elim (disc b d) [
      | no differs ↦ inr (a, b, c, d, h, λ p. differs p.1)
      | yes bd ↦ inl (ac, bd)
    ]
  ]

  pub walk_binding :
      Discrete A
      → (sides : List Bool) (xs ys : List A) (a b : A) → length xs ≡ length sides
      → length ys ≡ length sides
      → walk node_hash a xs sides ≡ walk node_hash b ys sides
      → ((a ≡ b) × (xs ≡ ys)) ⊎ Collision
  unfolding walk
  walk_binding disc [] [] [] a b lx ly h = inl (h, refl)
  walk_binding disc [] (x ∷ xs) ys a b lx ly h = absurd (omega arith)
  walk_binding disc [] [] (y ∷ ys) a b lx ly h = absurd (omega arith)
  walk_binding disc (s ∷ sides) [] ys a b lx ly h = absurd (omega arith)
  walk_binding disc (s ∷ sides) (x ∷ xs) [] a b lx ly h = absurd (omega arith)
  walk_binding disc (true ∷ sides) (x ∷ xs) (y ∷ ys) a b lx ly h =
      by_tails (
        walk_binding disc sides xs ys (node_hash a x) (node_hash b y) (omega arith) (omega arith) h)
    where
      by_heads :
          xs ≡ ys → ((a ≡ b) × (x ≡ y)) ⊎ Collision → ((a ≡ b) × (x ∷ xs ≡ y ∷ ys)) ⊎ Collision
      by_heads t (inl (same, sibling)) = inl (same, ap₂ ◌∷◌ sibling t)
      by_heads t (inr c) = inr c

      by_tails :
          ((node_hash a x ≡ node_hash b y) × (xs ≡ ys)) ⊎ Collision
          → ((a ≡ b) × (x ∷ xs ≡ y ∷ ys)) ⊎ Collision
      by_tails (inl (e, t)) = by_heads t (same_pair disc a x b y e)
      by_tails (inr c) = inr c
  walk_binding disc (false ∷ sides) (x ∷ xs) (y ∷ ys) a b lx ly h =
      by_tails (
        walk_binding disc sides xs ys (node_hash x a) (node_hash y b) (omega arith) (omega arith) h)
    where
      by_heads :
          xs ≡ ys → ((x ≡ y) × (a ≡ b)) ⊎ Collision → ((a ≡ b) × (x ∷ xs ≡ y ∷ ys)) ⊎ Collision
      by_heads t (inl (sibling, same)) = inl (same, ap₂ ◌∷◌ sibling t)
      by_heads t (inr c) = inr c

      by_tails :
          ((node_hash x a ≡ node_hash y b) × (xs ≡ ys)) ⊎ Collision
          → ((a ≡ b) × (x ∷ xs ≡ y ∷ ys)) ⊎ Collision
      by_tails (inl (e, t)) = by_heads t (same_pair disc x a y b e)
      by_tails (inr c) = inr c

-- The two nodes that are hashed at one level, the left one first.
unfoldable pub ordered {ℓ} : {A : Type ℓ} → Bool → A → A → A × A
ordered true current sibling = (current, sibling)
ordered false current sibling = (sibling, current)

module _ {ℓ} {A : Type ℓ} (node_hash : A → A → A) where
  -- The pairs that are hashed on the way up, level by level.
  unfoldable pub hashed : A → List A → List Bool → List (A × A)
  unfolding ordered
  hashed current [] sides = []
  hashed current (sibling ∷ path) [] = []
  hashed current (sibling ∷ path) (side ∷ sides) =
      let (left, right) = ordered side current sibling in
      (left, right) ∷ hashed (node_hash left right) path sides

  -- At one level, both have a pair, the two differ, and their hash is the same.
  abbrev pub Meet : List (A × A) → List (A × A) → Type ℓ
  Meet ps qs =
      (j : ℕ) × (p : A × A) × (q : A × A) × (get_elem? ps j ≡ some p)
      × (get_elem? qs j ≡ some q)
      × (p ≢ q)
      × (node_hash p.0 p.1 ≡ node_hash q.0 q.1)

  Meet-later : (p q : A × A) (ps qs : List (A × A)) → Meet ps qs → Meet (p ∷ ps) (q ∷ qs)
  Meet-later p q ps qs (j, a, b, at_a, at_b, differ, same) = (suc j, a, b, at_a, at_b, differ, same)

  first_pair :
      Discrete A
      → (s : Bool) (a b x y : A) (ps qs : List (A × A))
      → node_hash (ordered s a x).0 (ordered s a x).1
        ≡ node_hash (ordered s b y).0 (ordered s b y).1
      → ((a ≡ b) × (x ≡ y)) ⊎ Meet (ordered s a x ∷ ps) (ordered s b y ∷ qs)
  unfolding ordered
  first_pair disc true a b x y ps qs h = elim (disc a b) [
    | no differs ↦ inr (0, (a, x), (b, y), refl, refl, (λ e. differs (ap (λ p. p.0) e)), h)
    | yes ab ↦ elim (disc x y) [
      | no differs ↦ inr (0, (a, x), (b, y), refl, refl, (λ e. differs (ap (λ p. p.1) e)), h)
      | yes xy ↦ inl (ab, xy)
    ]
  ]
  first_pair disc false a b x y ps qs h = elim (disc a b) [
    | no differs ↦ inr (0, (x, a), (y, b), refl, refl, (λ e. differs (ap (λ p. p.1) e)), h)
    | yes ab ↦ elim (disc x y) [
      | no differs ↦ inr (0, (x, a), (y, b), refl, refl, (λ e. differs (ap (λ p. p.0) e)), h)
      | yes xy ↦ inl (ab, xy)
    ]
  ]

  walk-cons :
      (s : Bool) (sides : List Bool) (a x : A) (xs : List A)
      → walk node_hash a (x ∷ xs) (s ∷ sides)
        ≡ walk node_hash (node_hash (ordered s a x).0 (ordered s a x).1) xs sides
  unfolding walk ordered
  walk-cons true sides a x xs = refl
  walk-cons false sides a x xs = refl

  walk_meets :
      Discrete A
      → (sides : List Bool) (xs ys : List A) (a b : A) → length xs ≡ length sides
      → length ys ≡ length sides
      → walk node_hash a xs sides ≡ walk node_hash b ys sides
      → ((a ≡ b) × (xs ≡ ys)) ⊎ Meet (hashed a xs sides) (hashed b ys sides)
  unfolding hashed
  walk_meets disc [] [] [] a b lx ly h = inl (unfold walk in h, refl)
  walk_meets disc [] (x ∷ xs) ys a b lx ly h = absurd (omega arith)
  walk_meets disc [] [] (y ∷ ys) a b lx ly h = absurd (omega arith)
  walk_meets disc (s ∷ sides) [] ys a b lx ly h = absurd (omega arith)
  walk_meets disc (s ∷ sides) (x ∷ xs) [] a b lx ly h = absurd (omega arith)
  walk_meets disc (s ∷ sides) (x ∷ xs) (y ∷ ys) a b lx ly h =
      let rest =
        walk_meets disc sides xs ys (node_hash (ordered s a x).0 (ordered s a x).1)
          (node_hash (ordered s b y).0 (ordered s b y).1) (omega arith) (omega arith)
          (sym (walk-cons s sides a x xs) ∙ h ∙ walk-cons s sides b y ys) in
      elim rest [
        | inr later ↦ inr (Meet-later (ordered s a x) (ordered s b y) _ _ later)
        | inl (e, t) ↦ elim (first_pair disc s a b x y (hashed _ xs sides) (hashed _ ys sides) e) [
          | inl (ab, xy) ↦ inl (ab, ap₂ ◌∷◌ xy t)
          | inr meet ↦ inr meet
        ]
      ]

ℤ-discrete : Discrete ℤ
ℤ-discrete = hlevel ℕ_discrete

merkle_root_from_path-ok :
    (libs : HashLibs) (leaf : ℤ) (path is_left : List ℤ) (root : ℤ)
    → merkle_root_from_path libs leaf path is_left ≡ ok root
    → (length path ≡ length is_left) × (walk (hash2 libs) leaf path (map is_one is_left) ≡ root)
unfolding merkle_root_from_path
merkle_root_from_path-ok libs leaf path is_left root h = ground arith

-- Two witnesses over the same sides that compute one root are the same leaf and the same path, or there is a
-- level at which the pairs of nodes that they hash differ and have the same hash.
pub merkle_root_from_path_binding :
    (libs : HashLibs) (leaf leaf' : ℤ) (path path' is_left : List ℤ) (root : ℤ)
    → merkle_root_from_path libs leaf path is_left ≡ ok root
    → merkle_root_from_path libs leaf' path' is_left ≡ ok root
    → ((leaf ≡ leaf') × (path ≡ path'))
      ⊎ Meet
          (hash2 libs)
          (hashed (hash2 libs) leaf path (map is_one is_left))
          (hashed (hash2 libs) leaf' path' (map is_one is_left))
merkle_root_from_path_binding libs leaf leaf' path path' is_left root h h' =
    let (n, w) = merkle_root_from_path-ok libs leaf path is_left root h in
    let (n', w') = merkle_root_from_path-ok libs leaf' path' is_left root h' in
    let m = length-map is_left is_one in
    walk_meets (hash2 libs) ℤ-discrete (map is_one is_left) path path' leaf leaf' (n ∙ sym m)
      (n' ∙ sym m) (w ∙ sym w')
