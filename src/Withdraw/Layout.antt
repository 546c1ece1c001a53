-- ===== src/Withdraw/Layout.antt =====
-- The instruction's data against the argument list of the on-chain `withdraw`, read as Borsh does.
use bagsvault.Base.{
  ℕ, ◌^◌, ◌<◌, ◌≤◌, ◌≡◌, inl, inr, refl, sym, ap, ◌∙◌, true, false, [], ◌++◌, append-nil, Str,
  codes, eq_str, ltb, ltb→lt, Bool-cases, length, take, drop, length-take, take-append_of_length,
  drop-append_of_length, if◌then◌else◌, arith,
}
use bagsvault.Base.Bytes.{le_bytes, from_le, length-le_bytes, from_le-le_bytes}
use bagsvault.Base.Hex.{pad32, length-pad32}
use bagsvault.Exceptions.{ok-injective, Exn, raised, overflow_error, ok, err, >>=-eq-ok}
use bagsvault.Solana.Instruction.{Bytes, Pubkey, Instruction}
use bagsvault.Solana.Keys.{Keys, HaveLength, system_program_id, sighash}
use bagsvault.Withdraw.{
  withdraw_name, withdraw_spl_name, to_bytes_le, WithdrawArgs, ix_data, build_withdraw_ix,
  build_withdraw_spl_ix, build_withdraw_ix_for_pool,
}

-- `withdraw(proof: Vec<u8>, root: [u8; 32], nullifier_hash: [u8; 32], recipient: Pubkey, amount: u64)`
pub record OnChainArgs : Type 0 where
  pub discriminator : Bytes
  pub proof : Bytes
  pub root : Bytes
  pub nullifier_hash : Bytes
  pub recipient : Bytes
  pub amount : ℕ
  pub rest : Bytes

read_tail : Bytes → Bytes → Bytes → OnChainArgs
read_tail head proof b = record {
  discriminator = head;
  proof = proof;
  root = take 32 b;
  nullifier_hash = take 32 (drop 32 b);
  recipient = take 32 (drop 32 (drop 32 b));
  amount = from_le (take 8 (drop 32 (drop 32 (drop 32 b))));
  rest = drop 8 (drop 32 (drop 32 (drop 32 b)));
}

read_proof : Bytes → ℕ → Bytes → OnChainArgs
read_proof head count b = read_tail head (take count b) (drop count b)

pub read_args : Bytes → OnChainArgs
read_args b = read_proof (take 8 b) (from_le (take 4 (drop 8 b))) (drop 4 (drop 8 b))

pub to_bytes_le-ok :
    (n v : ℕ) (bs : Bytes) → to_bytes_le n v ≡ ok bs → (v < 256 ^ n) × (bs ≡ le_bytes n v)
unfolding to_bytes_le
to_bytes_le-ok n v bs h = elim (Bool-cases (ltb v (256 ^ n))) [
  | inl fits ↦ (ltb→lt v (256 ^ n) fits, cc (rw fits at h))
  | inr wide ↦ absurd (cc (rw wide at h))
]

take_whole : (n : ℕ) (xs : Bytes) → length xs ≡ n → take n xs ≡ xs
take_whole n xs h = rw append-nil at (take-append_of_length n xs [] h)

drop_whole : (n : ℕ) (xs : Bytes) → length xs ≡ n → drop n xs ≡ []
drop_whole n xs h = rw append-nil at (drop-append_of_length n xs [] h)

read_tail-append :
    (head proof root nullifier recipient : Bytes) (amount : ℕ)
    → length root ≡ 32
    → length nullifier ≡ 32
    → length recipient ≡ 32
    → amount < 256 ^ 8
    → read_tail head proof (root ++ (nullifier ++ (recipient ++ le_bytes 8 amount))) ≡ record {
      discriminator = head;
      proof = proof;
      root = root;
      nullifier_hash = nullifier;
      recipient = recipient;
      amount = amount;
      rest = [];
    }
unfolding read_tail
read_tail-append head proof root nullifier recipient amount lr ln lp fits =
    rw (take-append_of_length 32 root _ lr) (
      rw (drop-append_of_length 32 root _ lr) (
        rw (take-append_of_length 32 nullifier _ ln) (
          rw (drop-append_of_length 32 nullifier _ ln) (
            rw (take-append_of_length 32 recipient _ lp) (
              rw (drop-append_of_length 32 recipient _ lp) (
                rw (take_whole 8 (le_bytes 8 amount) (length-le_bytes 8 amount)) (
                  rw (drop_whole 8 (le_bytes 8 amount) (length-le_bytes 8 amount))
                    (rw (from_le-le_bytes 8 amount fits)))))))))

-- The data that `ix_data` makes, and that it makes only if both lengths fit their words.
ix_data-ok :
    (head body : Bytes) (a : WithdrawArgs)
    → ix_data head a ≡ ok body
    → (length a.proof_bytes < 256 ^ 4)
      × (a.amount < 256 ^ 8)
      × (body
          ≡ head
            ++ (le_bytes 4 (length a.proof_bytes)
                ++ (a.proof_bytes
                    ++ (pad32 a.root_bytes
                        ++ (pad32 a.nullifier_bytes ++ (a.recipient ++ le_bytes 8 a.amount))))))
unfolding ix_data
ix_data-ok head body a h =
    let (count, ec, h1) = >>=-eq-ok (to_bytes_le 4 (length a.proof_bytes)) _ h in
    let (amount, ea, h2) = >>=-eq-ok (to_bytes_le 8 a.amount) _ h1 in
    let (lc, ic) = to_bytes_le-ok 4 (length a.proof_bytes) count ec in
    let (la, ia) = to_bytes_le-ok 8 a.amount amount ea in
    (lc, la, rw (← ic, ← ia) (sym (ok-injective h2)))

read_args-ix_data :
    (head body : Bytes) (a : WithdrawArgs)
    → length head ≡ 8
    → length a.recipient ≡ 32
    → ix_data head a ≡ ok body
    → read_args body ≡ record {
      discriminator = head;
      proof = a.proof_bytes;
      root = pad32 a.root_bytes;
      nullifier_hash = pad32 a.nullifier_bytes;
      recipient = a.recipient;
      amount = a.amount;
      rest = [];
    }
unfolding read_args read_proof
read_args-ix_data head body a lh lr h =
    let (lc, la, is) = ix_data-ok head body a h in
    let count = le_bytes 4 (length a.proof_bytes) in
    rw is (
      rw (take-append_of_length 8 head _ lh) (
        rw (drop-append_of_length 8 head _ lh) (
          rw (take-append_of_length 4 count _ (length-le_bytes 4 (length a.proof_bytes))) (
            rw (drop-append_of_length 4 count _ (length-le_bytes 4 (length a.proof_bytes))) (
              rw (from_le-le_bytes 4 (length a.proof_bytes) lc) (
                rw (take-append_of_length (length a.proof_bytes) a.proof_bytes _ refl) (
                  rw (drop-append_of_length (length a.proof_bytes) a.proof_bytes _ refl) (
                    read_tail-append head a.proof_bytes (pad32 a.root_bytes)
                      (pad32 a.nullifier_bytes) a.recipient a.amount (length-pad32 a.root_bytes)
                      (length-pad32 a.nullifier_bytes) lr la))))))))

length-sighash : (keys : Keys) (name : Str) → HaveLength keys → length (sighash keys name) ≡ 8
unfolding sighash
length-sighash keys name h = omega (arith, length-take 8 (keys.sha256 name), h.digests name)

-- The name of the on-chain handler for a pool.
pub handler_name : Pubkey → Str
handler_name token_mint =
    if eq_str token_mint system_program_id then withdraw_name else withdraw_spl_name

module _ (keys : Keys) (a : WithdrawArgs) (ix : Instruction) where
  sol-body : build_withdraw_ix keys a ≡ ok ix → ix_data (sighash keys withdraw_name) a ≡ ok ix.body
  unfolding build_withdraw_ix
  sol-body h =
      let (body, e, rest) = >>=-eq-ok (ix_data (sighash keys withdraw_name) a) _ h in
      e ∙ ap (λ (i : Instruction). ok i.body) (ok-injective rest)

  spl-body :
      build_withdraw_spl_ix keys a ≡ ok ix → ix_data (sighash keys withdraw_spl_name) a ≡ ok ix.body
  unfolding build_withdraw_spl_ix
  spl-body h =
      let (body, e, rest) = >>=-eq-ok (ix_data (sighash keys withdraw_spl_name) a) _ h in
      e ∙ ap (λ (i : Instruction). ok i.body) (ok-injective rest)

  pool-body :
      build_withdraw_ix_for_pool keys a ≡ ok ix
      → ix_data (sighash keys (handler_name a.token_mint)) a ≡ ok ix.body
  unfolding handler_name build_withdraw_ix_for_pool
  pool-body h = elim (Bool-cases (eq_str a.token_mint system_program_id)) [
    | inl sol ↦ rw sol (sol-body (rw sol at h))
    | inr spl ↦ rw spl (spl-body (rw spl at h))
  ]

-- The data of the instruction that is built for a pool, read as the on-chain handler reads it, has the
-- discriminator of the pool's handler and every argument of the request: the proof, the root and the
-- nullifier hash as 32 bytes, the recipient and the amount, and nothing is left over.
pub build-read :
    (keys : Keys) (a : WithdrawArgs) (ix : Instruction)
    → HaveLength keys
    → length a.recipient ≡ 32
    → build_withdraw_ix_for_pool keys a ≡ ok ix
    → read_args ix.body ≡ record {
      discriminator = sighash keys (handler_name a.token_mint);
      proof = a.proof_bytes;
      root = pad32 a.root_bytes;
      nullifier_hash = pad32 a.nullifier_bytes;
      recipient = a.recipient;
      amount = a.amount;
      rest = [];
    }
build-read keys a ix have lr h =
    read_args-ix_data (sighash keys (handler_name a.token_mint)) ix.body a
      (length-sighash keys (handler_name a.token_mint) have) lr (pool-body keys a ix h)

to_bytes_le-fits : (n v : ℕ) → v < 256 ^ n → to_bytes_le n v ≡ ok (le_bytes n v)
unfolding to_bytes_le
to_bytes_le-fits n v h = let e : ltb v (256 ^ n) ≡ true = ground arith in rw e

abbrev too_big : Exn
too_big = raised overflow_error (codes "int too big to convert")

to_bytes_le-wide : (n v : ℕ) → 256 ^ n ≤ v → to_bytes_le n v ≡ err too_big
unfolding to_bytes_le
to_bytes_le-wide n v h = let e : ltb v (256 ^ n) ≡ false = ground arith in rw e

ix_data-wide :
    (head : Bytes) (a : WithdrawArgs)
    → length a.proof_bytes < 256 ^ 4
    → 256 ^ 8 ≤ a.amount
    → ix_data head a ≡ err too_big
unfolding ix_data
ix_data-wide head a lp wide =
    rw (to_bytes_le-fits 4 (length a.proof_bytes) lp) (rw (to_bytes_le-wide 8 a.amount wide))

-- An amount of 2 ^ 64 or more, which the request model lets through, makes the builder raise Python's
-- own `OverflowError` and no error of the domain.
build-overflow :
    (keys : Keys) (a : WithdrawArgs)
    → length a.proof_bytes < 256 ^ 4
    → 256 ^ 8 ≤ a.amount
    → build_withdraw_ix_for_pool keys a
      ≡ err (raised overflow_error (codes "int too big to convert"))
unfolding build_withdraw_ix_for_pool build_withdraw_ix build_withdraw_spl_ix
build-overflow keys a lp wide = elim (Bool-cases (eq_str a.token_mint system_program_id)) [
  | inl sol ↦ rw sol (rw (ix_data-wide (sighash keys withdraw_name) a lp wide))
  | inr spl ↦ rw spl (rw (ix_data-wide (sighash keys withdraw_spl_name) a lp wide))
]
