-- ===== src/Examples/Proofs.antt =====
-- Merkle paths and proof requests.
use bagsvault.Base.{
  ℕ, ◌≤◌, ℤ, pos, true, false, List, [], ◌∷◌, Str, ◌≡◌, ◌≢◌, ◌⊎◌, refl, ap, length, take, replicate,
  arith,
}
use bagsvault.Exceptions.{ok}
use bagsvault.Solana.Instruction.{Bytes}
use bagsvault.Zk.{
  bn254_r, hex32, bytes_to_field, nullifier_hash, HashLibs, WithdrawProofInput, WithdrawProofResult,
  walk, hash2, is_one, commitment, merkle_root_from_path,
}
use bagsvault.Zk.Walk.{Collision, Meet, hashed, merkle_root_from_path_binding}
use bagsvault.Zk.Prover.{Toolchain, hex32_all, public_inputs, generate_withdraw_proof}
use bagsvault.Zk.Proofs.{IsProofText, generate_withdraw_proof-ok}
use bagsvault.Anonymity.{zero32, CommitmentDoc, leaf_bytes, nothing_loaded, load_from}
use bagsvault.Anonymity.Tree.{tree_root, root_after-tree}
use bagsvault.Anonymity.{merkle_tree_depth}
use bagsvault.Anonymity.Served.{served, root_after, served_later}
use bagsvault.Examples.Fixtures.{ok_or}

abbrev pub libs : HashLibs
libs = record {
  poseidon_hash_found = true;
  poseidon_found = false;
  poseidon_hash_of = λ xs. 4;
  poseidon_py_of = λ xs. 0;
  sha256 = λ b. b;
}

walked : merkle_root_from_path libs (pos 1) (pos 2 ∷ []) (pos 1 ∷ []) ≡ ok (pos 4)
unfolding merkle_root_from_path walk is_one hash2 bagsvault.Zk.hash
walked = refl

walked_too : merkle_root_from_path libs (pos 5) (pos 7 ∷ []) (pos 1 ∷ []) ≡ ok (pos 4)
unfolding merkle_root_from_path walk is_one hash2 bagsvault.Zk.hash
walked_too = refl

merkle_root_from_path_binding_example :
    ((pos 1 ≡ pos 5) × (pos 2 ∷ [] ≡ pos 7 ∷ []))
    ⊎ Meet
        (hash2 libs)
        (hashed (hash2 libs) (pos 1) (pos 2 ∷ []) (true ∷ []))
        (hashed (hash2 libs) (pos 5) (pos 7 ∷ []) (true ∷ []))
unfolding is_one
merkle_root_from_path_binding_example =
    merkle_root_from_path_binding libs (pos 1) (pos 5) (pos 2 ∷ []) (pos 7 ∷ []) (pos 1 ∷ [])
      (pos 4) walked walked_too

abbrev tools : Toolchain
tools = record {
  stub_mode = true;
  nargo_found = false;
  bb_found = false;
  circuit_dir_exists = false;
  run_toolchain = λ toml. ok [];
}

abbrev pub input : WithdrawProofInput
input = record {
  nullifier = pos 1;
  secret = pos 2;
  amount = pos 3;
  leaf_index = pos 0;
  merkle_path = pos 2 ∷ [];
  is_left = pos 1 ∷ [];
  recipient_pubkey_bytes = 1 ∷ [];
  relayer_pubkey_bytes = 2 ∷ [];
  fee_bps = pos 30;
}

abbrev proved : WithdrawProofResult
proved =
    ok_or
      (record {
        proof_hex = [];
        root_hex = [];
        nullifier_hash_hex = [];
        commitment_hex = [];
        public_inputs_hex = [];
      })
      (generate_withdraw_proof libs tools input)

is_proved : generate_withdraw_proof libs tools input ≡ ok proved
unfolding generate_withdraw_proof merkle_root_from_path public_inputs hex32 walk is_one hash2
is_proved = refl

generate_withdraw_proof-ok_example :
    (root : ℤ) × (rest : List Str) × (merkle_root_from_path libs
        (pos (commitment libs (pos 1) (pos 2) (pos 3)))
        (pos 2 ∷ [])
        (pos 1 ∷ [])
      ≡ ok root)
    × (hex32_all (
          root
          ∷ pos (nullifier_hash libs (pos 1) (pos 0))
          ∷ pos (bytes_to_field (1 ∷ []))
          ∷ pos 3
          ∷ pos (bytes_to_field (2 ∷ []))
          ∷ pos 30
          ∷ [])
        ≡ ok proved.public_inputs_hex)
    × (proved.public_inputs_hex ≡ proved.root_hex ∷ proved.nullifier_hash_hex ∷ rest)
    × (length rest ≡ 4)
    × (hex32 (pos (commitment libs (pos 1) (pos 2) (pos 3))) ≡ ok proved.commitment_hex)
    × IsProofText proved.proof_hex
generate_withdraw_proof-ok_example = generate_withdraw_proof-ok libs tools input proved is_proved

abbrev leaf_one : Bytes
leaf_one = replicate 32 1

abbrev leaf_two : Bytes
leaf_two = replicate 32 2

-- a hash under which everything collides
abbrev constant : Bytes → Bytes → Bytes
constant a b = replicate 32 9

ends_there :
    walk constant leaf_two
      (served constant (leaf_one ∷ leaf_two ∷ []) 1).path
      (served constant (leaf_one ∷ leaf_two ∷ []) 1).is_left
    ≡ root_after constant (leaf_one ∷ leaf_two ∷ []) 1 leaf_two
unfolding root_after walk bagsvault.Anonymity.replay bagsvault.Anonymity.insert_leaf
    bagsvault.Anonymity.is_even bagsvault.Anonymity.Served.filled_before
ends_there = refl

head_of : Bytes → ℕ
head_of [] = 0
head_of (b ∷ bs) = b

nonzero : (n : ℕ) → 1 ≤ n → replicate 32 n ≢ zero32
unfolding head_of
nonzero n h e = let same : n ≡ 0 = ap head_of e in omega arith

served_later_example : Collision constant
served_later_example =
    served_later constant (leaf_one ∷ leaf_two ∷ []) 0 leaf_two
      (nonzero 1 (omega arith), (nonzero 2 (omega arith), tt)) refl ends_there

root_after-tree_example :
    root_after constant (leaf_one ∷ leaf_two ∷ []) 1 leaf_two
    ≡ tree_root constant merkle_tree_depth (take 2 (leaf_one ∷ leaf_two ∷ []))
root_after-tree_example =
    root_after-tree constant (leaf_one ∷ leaf_two ∷ []) 1 leaf_two refl (omega arith)
