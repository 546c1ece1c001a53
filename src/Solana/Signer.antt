-- ===== src/Solana/Signer.antt =====
-- `SolanaSignerClient` of backend/app/clients/solana_signer.py: loading keypairs and the round-robin
-- cursor of a pool.
pub mod Rotation
pub mod Raw
use bagsvault.Base.{
  ℕ, zero, suc, ◌+◌, ◌%◌, Bool, true, false, ◌&&◌, List, [], ◌∷◌, Option, none, some, Str, codes, ℤ,
  pos, negsuc, ltb, get_elem?, length, if◌then◌else◌,
}
use bagsvault.Json.{Json, num, bool, arr, Items, nil, cons}
use bagsvault.Exceptions.{Exn, domain, service_unavailable, raised, other, Result, ok, err}
use bagsvault.Solana.Instruction.{Instruction, Bytes, Pubkey}

-- A keypair file: absent, not to be read or no JSON, or what it holds.
pub data KeypairFile : Type 0 where
  missing unreadable : KeypairFile
  holds : Json → KeypairFile

-- What `solders` does: keypairs from their bytes, blockhashes from their text, and signing a message
-- that is compiled for a payer. Each is `none` where the library raises.
pub record Solders (Keypair Hash : Type 0) : Type 0 where
  pub from_bytes : Bytes → Option Keypair
  pub pubkey : Keypair → Pubkey
  pub hash_from_string : Str → Option Hash
  pub compile_and_sign : Keypair → Pubkey → List Instruction → Hash → Result Bytes

pub record Signer (Keypair : Type 0) : Type 0 where
  -- the one configured file, or that of the settings
  pub configured_path : KeypairFile
  -- `[]` where `keypair_paths` is `None` or empty
  pub configured_paths : List KeypairFile
  pub keypair : Option Keypair
  pub keypairs : Option (List Keypair)
  pub rotation_index : ℕ

abbrev pub not_configured : Exn
not_configured = domain service_unavailable (codes "Relayer keypair not configured.")

-- an `int` of Python, which a `bool` is too
as_int : Json → Option ℕ
as_int (num (pos n)) = some n
as_int (bool true) = some 1
as_int (bool false) = some 0
as_int _ = none

-- `bytes(secret)` for a JSON array of numbers; `none` where an item is no number, or no byte
as_bytes : Items → Option Bytes
unfolding as_int
as_bytes nil = some []
as_bytes (cons v rest) = elim (as_int v) [
  | none ↦ none
  | some n ↦ elim (as_bytes rest) [
    | none ↦ none
    | some bytes ↦ if ltb n 256 then some (n ∷ bytes) else none
  ]
]

module _ {Keypair Hash : Type 0} (lib : Solders Keypair Hash) where
  parse_keypair : Option Bytes → Result Keypair
  parse_keypair none = err not_configured
  parse_keypair (some bytes) = elim (lib.from_bytes bytes) [
    | none ↦ err not_configured
    | some keypair ↦ ok keypair
  ]

  unfoldable pub load_keypair_from_path : KeypairFile → Result Keypair
  unfolding parse_keypair as_bytes
  load_keypair_from_path (holds (arr items)) = parse_keypair (as_bytes items)
  load_keypair_from_path _ = err not_configured

  load_all : List KeypairFile → Result (List Keypair)
  unfolding load_keypair_from_path
  load_all [] = ok []
  load_all (path ∷ paths) = elim (load_keypair_from_path path) [
    | err e ↦ err e
    | ok keypair ↦ elim (load_all paths) [ err e ↦ err e | ok keypairs ↦ ok (keypair ∷ keypairs) ]
  ]

  unfoldable pub load : Signer Keypair → Result Keypair × Signer Keypair
  unfolding load_keypair_from_path
  load s = elim s.keypair [
    | some keypair ↦ (ok keypair, s)
    | none ↦ elim (load_keypair_from_path s.configured_path) [
      | err e ↦ (err e, s)
      | ok keypair ↦ (ok keypair, record s { keypair = some keypair })
    ]
  ]

  unfoldable pub load_pool : Signer Keypair → Result (List Keypair) × Signer Keypair
  unfolding load_all
  load_pool s = elim s.keypairs [
    | some keypairs ↦ (ok keypairs, s)
    | none ↦ elim (load_all s.configured_paths) [
      | err e ↦ (err e, s)
      | ok keypairs ↦ (ok keypairs, record s { keypairs = some keypairs })
    ]
  ]

  or_index_error : Option Keypair → Result Keypair
  or_index_error none = err (raised other (codes "list index out of range"))
  or_index_error (some keypair) = ok keypair

  rotate : Result (List Keypair) × Signer Keypair → Result Keypair × Signer Keypair
  unfolding or_index_error load
  rotate (err e, s) = (err e, s)
  rotate (ok [], s) = load s
  rotate (ok (k ∷ ks), s) = (
    or_index_error (get_elem? (k ∷ ks) (s.rotation_index % length (k ∷ ks))),
    record s { rotation_index = (s.rotation_index + 1) % length (k ∷ ks) },
  )

  by_paths : List KeypairFile → Signer Keypair → Result Keypair × Signer Keypair
  unfolding load rotate load_pool
  by_paths [] s = load s
  by_paths (path ∷ paths) s = rotate (load_pool s)

  unfoldable pub next_keypair : Signer Keypair → Result Keypair × Signer Keypair
  unfolding by_paths
  next_keypair s = by_paths s.configured_paths s

  map_ok : {A B : Type 0} → (A → B) → Result A → Result B
  map_ok f (ok a) = ok (f a)
  map_ok f (err e) = err e

  unfoldable pub pubkey_obj : Signer Keypair → Result Pubkey × Signer Keypair
  unfolding map_ok
  pubkey_obj s = let (r, s') = next_keypair s in (map_ok lib.pubkey r, s')

  payer_or : Option Pubkey → Keypair → Pubkey
  payer_or none keypair = lib.pubkey keypair
  payer_or (some payer) keypair = payer

  sign_with : Keypair → List Instruction → Str → Option Pubkey → Result Bytes
  unfolding payer_or
  sign_with keypair instructions recent_blockhash payer =
      elim (lib.hash_from_string recent_blockhash) [
        | none ↦
            err (domain service_unavailable (codes "Invalid recent blockhash supplied to signer."))
        | some blockhash ↦
            lib.compile_and_sign keypair (payer_or payer keypair) instructions blockhash
      ]

  signed_by : List Instruction → Str → Option Pubkey → Result Keypair → Result Bytes
  unfolding sign_with
  signed_by instructions recent_blockhash payer (err e) = err e
  signed_by instructions recent_blockhash payer (ok keypair) =
      sign_with keypair instructions recent_blockhash payer

  unfoldable pub build_and_sign :
      Signer Keypair → List Instruction → Str → Option Pubkey → Result Bytes × Signer Keypair
  unfolding signed_by
  build_and_sign s instructions recent_blockhash payer =
      let (r, s') = next_keypair s in (signed_by instructions recent_blockhash payer r, s')
