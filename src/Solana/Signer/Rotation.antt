-- ===== src/Solana/Signer/Rotation.antt =====
-- The cursor of a loaded pool, and who signs for the payer that `pubkey_obj` gave out.
use native.Mathlib.Nat.{mod-eq_of_lt, mod_self}
use native.Mathlib.Decide.{dec_lt}
use bagsvault.Base.{
  codes, Option-cases, ℕ, zero, suc, ◌+◌, ◌%◌, ◌<◌, ◌≤◌, ◌≡◌, ◌≢◌, refl, sym, ap, ◌∙◌, inl, inr,
  List, [], ◌∷◌, some, Str, get_elem?, length, arith,
}
use bagsvault.Exceptions.{Exn, domain, service_unavailable, Result, ok, err}
use bagsvault.Solana.Instruction.{Instruction, Pubkey}
use bagsvault.Solana.Signer.{
  KeypairFile, Solders, Signer, load_pool, rotate, by_paths, next_keypair, pubkey_obj,
  build_and_sign, sign_with, or_index_error,
}

get_elem?-below {ℓ} :
    {A : Type ℓ} (xs : List A) (i : ℕ) → i < length xs → (x : A) × (get_elem? xs i ≡ some x)
get_elem?-below [] i h = elim h [ ]
get_elem?-below (x ∷ xs) zero h = (x, refl)
get_elem?-below (x ∷ xs) (suc i) h = get_elem?-below xs i (omega arith)

-- The next place of the cursor: within the pool, and another one.
next_place : (i n : ℕ) → i < n → 2 ≤ n → ((i + 1) % n < n) × (i ≢ (i + 1) % n)
next_place i n below two = elim (dec_lt (i + 1) n) [
  | yes more ↦ let e = mod-eq_of_lt more in (omega (arith, e), λ same. omega (arith, e, same))
  | no last ↦
      let at_end : i + 1 ≡ n = omega arith in
      let e : (i + 1) % n ≡ 0 = rw at_end (mod_self n) in
      (omega (arith, e), λ same. omega (arith, e, same))
]

module _ {Keypair Hash : Type 0} (lib : Solders Keypair Hash) where
  -- Keys at different places of the pool have different addresses.
  abbrev pub AreDistinct : List Keypair → Type 0
  AreDistinct pool =
      (i j : ℕ) (a b : Keypair)
      → get_elem? pool i ≡ some a
      → get_elem? pool j ≡ some b
      → i ≢ j
      → lib.pubkey a ≢ lib.pubkey b

  -- The pool is configured and loaded.
  pub record IsPool (pool : List Keypair) (s : Signer Keypair) : Type 0 where
    pub configured : s.configured_paths ≢ []
    pub loaded : s.keypairs ≡ some pool
    pub within : s.rotation_index < length pool

  load_pool-loaded :
      (pool : List Keypair) (s : Signer Keypair)
      → s.keypairs ≡ some pool
      → load_pool lib s ≡ (ok pool, s)
  unfolding load_pool
  load_pool-loaded pool s h = ground arith

  rotate-at :
      (k : Keypair) (ks : List Keypair) (s : Signer Keypair) (x : Keypair)
      → s.rotation_index < length (k ∷ ks)
      → get_elem? (k ∷ ks) s.rotation_index ≡ some x
      → rotate lib (ok (k ∷ ks), s)
        ≡ (ok x, record s { rotation_index = (s.rotation_index + 1) % length (k ∷ ks) })
  unfolding rotate
  rotate-at k ks s x below at =
      let first : or_index_error lib (get_elem? (k ∷ ks) (s.rotation_index % length (k ∷ ks)))
          ≡ ok x =
        rw (mod-eq_of_lt below) (rw at (unfold or_index_error in refl)) in
      ap (λ r. (r, record s { rotation_index = (s.rotation_index + 1) % length (k ∷ ks) })) first

  next_keypair-pool :
      (k : Keypair) (ks : List Keypair) (s : Signer Keypair) (x : Keypair)
      → IsPool (k ∷ ks) s
      → get_elem? (k ∷ ks) s.rotation_index ≡ some x
      → next_keypair lib s
        ≡ (ok x, record s { rotation_index = (s.rotation_index + 1) % length (k ∷ ks) })
  unfolding next_keypair
  next_keypair-pool k ks s x v at = by_paths-pool s.configured_paths v.configured
    where
      by_paths-pool :
          (paths : List KeypairFile)
          → paths ≢ []
          → by_paths lib paths s
            ≡ (ok x, record s { rotation_index = (s.rotation_index + 1) % length (k ∷ ks) })
      by_paths-pool [] h = absurd (h refl)
      by_paths-pool (p ∷ ps) h =
          ap (rotate lib) (load_pool-loaded (k ∷ ks) s v.loaded) ∙ rotate-at k ks s x v.within at

  -- Taking the next key of a pool keeps it loaded and the cursor within it.
  next_keypair-IsPool :
      (k : Keypair) (ks : List Keypair) (s : Signer Keypair)
      → IsPool (k ∷ ks) s
      → 2 ≤ length (k ∷ ks)
      → IsPool (k ∷ ks) (record s { rotation_index = (s.rotation_index + 1) % length (k ∷ ks) })
  next_keypair-IsPool k ks s v two = record {
    configured = v.configured;
    loaded = v.loaded;
    within = (next_place s.rotation_index (length (k ∷ ks)) v.within two).0;
  }

  -- Two keys that are taken one after the other are at different places.
  next_keypair_twice :
      (k : Keypair) (ks : List Keypair) (s : Signer Keypair)
      → IsPool (k ∷ ks) s
      → 2 ≤ length (k ∷ ks)
      → AreDistinct (k ∷ ks)
      → (a : Keypair) × (b : Keypair) × (s' : Signer Keypair) × (next_keypair lib s ≡ (ok a, s'))
        × ((next_keypair lib s').0 ≡ ok b)
        × (lib.pubkey b ≢ lib.pubkey a)
  next_keypair_twice k ks s v two distinct =
      let (inside, moved) = next_place s.rotation_index (length (k ∷ ks)) v.within two in
      let (a, at) = get_elem?-below (k ∷ ks) s.rotation_index v.within in
      let (b, bt) = get_elem?-below (k ∷ ks) ((s.rotation_index + 1) % length (k ∷ ks)) inside in
      let s' : Signer Keypair = record s {
        rotation_index = (s.rotation_index + 1) % length (k ∷ ks);
      } in
      (
        a,
        b,
        s',
        next_keypair-pool k ks s a v at,
        ap (λ (r : Result Keypair × Signer Keypair). r.0)
            (next_keypair-pool k ks s' b (next_keypair-IsPool k ks s v two) bt),
        distinct _ _ b a bt at (λ same. moved (sym same)),
      )

module _ {Keypair Hash : Type 0} (lib : Solders Keypair Hash) where
  -- `solders` refuses to sign a message for a payer with the key of another account.
  abbrev pub RefusesOthers : Type 0
  RefusesOthers =
      (k : Keypair) (payer : Pubkey) (instructions : List Instruction) (h : Hash)
      → lib.pubkey k ≢ payer
      → (e : Exn) × (lib.compile_and_sign k payer instructions h ≡ err e)

  sign_with-other :
      RefusesOthers
      → (b : Keypair) (instructions : List Instruction) (blockhash : Str) (payer : Pubkey)
      → lib.pubkey b ≢ payer
      → (e : Exn) × (sign_with lib b instructions blockhash (some payer) ≡ err e)
  unfolding sign_with
  sign_with-other refuses b instructions blockhash payer other =
      elim (Option-cases (lib.hash_from_string blockhash)) [
        | inl bad ↦ (
          domain service_unavailable (codes "Invalid recent blockhash supplied to signer."),
          rw (bad, sign_with),
        )
        | inr (h, good) ↦
            let (e, refused) = refuses b payer instructions h other in
            (e, rw (good, sign_with) refused)
      ]

-- With a loaded pool of two or more distinct keys, a transaction that names the payer that
-- `pubkey_obj` has just given out is never signed: the cursor has moved on to another key.
pub build_and_sign-pool :
    {Keypair Hash : Type 0} (lib : Solders Keypair Hash) (k : Keypair) (ks : List Keypair)
    (s : Signer Keypair) (instructions : List Instruction) (blockhash : Str)
    → RefusesOthers lib
    → IsPool lib (k ∷ ks) s
    → 2 ≤ length (k ∷ ks)
    → AreDistinct lib (k ∷ ks)
    → (payer : Pubkey) × ((pubkey_obj lib s).0 ≡ ok payer)
      × ((e : Exn) × ((build_and_sign lib
              (pubkey_obj lib s).1
              instructions
              blockhash
              (some payer)).0
            ≡ err e))
unfolding pubkey_obj build_and_sign
build_and_sign-pool lib k ks s instructions blockhash refuses v two distinct =
    let (a, b, s', first, second, other) = next_keypair_twice lib k ks s v two distinct in
    let (e, refused) = sign_with-other lib refuses b instructions blockhash (lib.pubkey a) other in
    (lib.pubkey a, rw first, (e, rw first (rw second refused)))
