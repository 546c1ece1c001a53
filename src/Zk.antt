-- ===== src/Zk.antt =====
-- backend/app/services/zk_proof_service.py: field elements, hashing, the Merkle walk and the result of a
-- proof request. The Poseidon packages, SHA-256 and the nargo/bb toolchain are arguments.
pub mod Walk
pub mod Proofs
pub mod Prover
use bagsvault.Base.{
  ℕ, zero, suc, ◌+◌, ◌-◌, ◌*◌, ◌%◌, Bool, true, false, ◌||◌, not, List, [], ◌∷◌, ◌++◌, map, Option,
  none, some, Str, codes, ℤ, pos, negsuc, ◌==◌, length, replicate, if◌then◌else◌,
}
use bagsvault.Base.Bytes.{be_bytes, from_be}
use bagsvault.Base.Hex.{to_hex}
use bagsvault.Exceptions.{
  Exn, domain, service_unavailable, upstream, raised, value_error, Result, ok, err, ◌>>=◌,
}
use bagsvault.Solana.Instruction.{Bytes}

abbrev pub bn254_r : ℕ
bn254_r = 21888242871839275222246405745257275088548364400416034343698204186575808495617

-- value % BN254_R, which is never negative in Python
unfoldable pub reduce : ℤ → ℕ
reduce (pos n) = n % bn254_r
reduce (negsuc n) = bn254_r - 1 - n % bn254_r

unfoldable pub hex32 : ℤ → Result Str
unfolding to_hex
hex32 (pos n) = ok (codes "0x" ++ to_hex (be_bytes 32 (n % bn254_r)))
hex32 (negsuc n) = err (raised value_error (codes "field element must be non-negative"))

unfoldable pub bytes_to_field : Bytes → ℕ
bytes_to_field raw = from_be raw % bn254_r

unfoldable pub field_to_bytes32 : ℤ → Bytes
unfolding reduce
field_to_bytes32 value = be_bytes 32 (reduce value)

-- `_select_backend` and what each backend computes.
pub data Backend : Type 0 where
  poseidon_hash poseidon_py fallback : Backend

pub record HashLibs : Type 0 where
  pub poseidon_hash_found : Bool
  pub poseidon_found : Bool
  pub poseidon_hash_of : List ℤ → ℕ
  pub poseidon_py_of : List ℤ → ℕ
  pub sha256 : Bytes → Bytes

unfoldable pub select_backend : HashLibs → Backend
select_backend libs =
    if libs.poseidon_hash_found
    then poseidon_hash
    else if libs.poseidon_found
    then poseidon_py
    else fallback

-- what the digest is updated with, in order
digest_input : List ℤ → Bytes
unfolding field_to_bytes32
digest_input [] = []
digest_input (v ∷ vs) = field_to_bytes32 v ++ digest_input vs

hash_by : HashLibs → Backend → List ℤ → ℕ
unfolding bytes_to_field digest_input
hash_by libs poseidon_hash inputs = libs.poseidon_hash_of inputs % bn254_r
hash_by libs poseidon_py inputs = libs.poseidon_py_of inputs % bn254_r
hash_by libs fallback inputs = bytes_to_field (libs.sha256 (digest_input inputs))

unfoldable pub hash : HashLibs → List ℤ → ℕ
unfolding hash_by select_backend
hash libs inputs = hash_by libs (select_backend libs) inputs

-- `for sibling, side in zip(path, is_left)`, over any nodes and any hash of two
unfoldable pub walk {ℓ} : {A : Type ℓ} → (A → A → A) → A → List A → List Bool → A
walk hash2 current [] sides = current
walk hash2 current (sibling ∷ path) [] = current
walk hash2 current (sibling ∷ path) (true ∷ sides) = walk hash2 (hash2 current sibling) path sides
walk hash2 current (sibling ∷ path) (false ∷ sides) = walk hash2 (hash2 sibling current) path sides

-- side == 1
unfoldable pub is_one : ℤ → Bool
is_one (pos n) = n == 1
is_one (negsuc n) = false

pub record WithdrawProofInput : Type 0 where
  pub nullifier : ℤ
  pub secret : ℤ
  pub amount : ℤ
  pub leaf_index : ℤ
  pub merkle_path : List ℤ
  pub is_left : List ℤ
  pub recipient_pubkey_bytes : Bytes
  pub relayer_pubkey_bytes : Bytes
  pub fee_bps : ℤ

pub record WithdrawProofResult : Type 0 where
  pub proof_hex : Str
  pub root_hex : Str
  pub nullifier_hash_hex : Str
  pub commitment_hex : Str
  pub public_inputs_hex : List Str

module _ (libs : HashLibs) where
  unfoldable pub commitment : ℤ → ℤ → ℤ → ℕ
  commitment nullifier secret amount = hash libs (nullifier ∷ secret ∷ amount ∷ [])

  unfoldable pub nullifier_hash : ℤ → ℤ → ℕ
  nullifier_hash nullifier leaf_index = hash libs (nullifier ∷ leaf_index ∷ [])

  unfoldable pub hash2 : ℤ → ℤ → ℤ
  hash2 a b = pos (hash libs (a ∷ b ∷ []))

  unfoldable pub merkle_root_from_path : ℤ → List ℤ → List ℤ → Result ℤ
  merkle_root_from_path leaf path is_left =
      if length path == length is_left
      then ok (walk hash2 leaf path (map is_one is_left))
      else err (raised value_error (codes "merkle path and is_left must have equal length"))
