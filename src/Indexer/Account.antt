-- ===== src/Indexer/Account.antt =====
-- `_decode_state` on the layout that its comments describe, and on the account that the program stores:
-- `MerkleTreeState` of programs/bagsvault/src/state.rs.
use bagsvault.Base.{
  ℕ, ◌^◌, ◌≤◌, ◌<◌, false, ◌++◌, some, ◌≡◌, refl, ◌∙◌, ap, length, take, drop, ltb, length-append,
  length-drop, take-append_ge, drop-append_ge, take-append_le, drop-append_le,
  take-append_of_length, drop-append_of_length, arith,
}
use bagsvault.Base.Bytes.{le_bytes, from_le, length-le_bytes, from_le-le_bytes}
use bagsvault.Base.Hex.{to_hex}
use bagsvault.Solana.Instruction.{Bytes, Pubkey}
use bagsvault.Indexer.{decode_state}

-- `MerkleTreeState`, with the arrays as their bytes.
pub record MerkleTreeState : Type 0 where
  pub authority : Pubkey
  pub token_mint : Pubkey
  pub denomination : ℕ
  pub commitment_count : ℕ
  pub relayer_fee_bps : ℕ
  pub root_cursor : ℕ
  pub paused : ℕ
  pub filled_subtrees : Bytes
  pub roots : Bytes
  pub bump : ℕ

-- What follows the two addresses.
unfoldable pub serialize_rest : MerkleTreeState → Bytes
serialize_rest a =
    le_bytes 8 a.denomination
    ++ (le_bytes 8 a.commitment_count
        ++ (le_bytes 2 a.relayer_fee_bps
            ++ (le_bytes 1 a.root_cursor
                ++ (le_bytes 1 a.paused ++ (a.filled_subtrees ++ (a.roots ++ le_bytes 1 a.bump))))))

-- The account's data: Anchor's discriminator and the fields in their order, by Borsh.
unfoldable pub serialize : Bytes → MerkleTreeState → Bytes
serialize discriminator a = discriminator ++ (a.authority ++ (a.token_mint ++ serialize_rest a))

long_enough :
    (raw : Bytes)
    → 45 ≤ length raw
    → decode_state raw
      ≡ some (record {
        root_hex = to_hex (take 32 (drop 13 raw));
        commitment_count = from_le (take 4 (drop 9 raw));
      })
unfolding decode_state
long_enough raw h = let e : ltb (length raw) 45 ≡ false = ground arith in rw e

-- On the layout that the comments describe (discriminator, bump, count as a u32, root, and the rest),
-- the decoder finds the count and the root.
pub decode_state-documented :
    (discriminator root rest : Bytes) (bump count : ℕ)
    → length discriminator ≡ 8
    → length root ≡ 32
    → count < 256 ^ 4
    → decode_state (discriminator ++ (le_bytes 1 bump ++ (le_bytes 4 count ++ (root ++ rest))))
      ≡ some (record { root_hex = to_hex root; commitment_count = count })
decode_state-documented discriminator root rest bump count ld lr fits =
    long_enough _ long ∙ rw (found_root, found_count, from_le-le_bytes 4 count fits)
  where
    raw : Bytes
    raw = discriminator ++ (le_bytes 1 bump ++ (le_bytes 4 count ++ (root ++ rest)))

    long : 45 ≤ length raw
    long = omega (
      arith,
      length-append discriminator (le_bytes 1 bump ++ (le_bytes 4 count ++ (root ++ rest))),
      length-append (le_bytes 1 bump) (le_bytes 4 count ++ (root ++ rest)),
      length-append (le_bytes 4 count) (root ++ rest),
      length-append root rest,
      length-le_bytes 1 bump,
      length-le_bytes 4 count,
    )

    at_count : drop 9 raw ≡ le_bytes 4 count ++ (root ++ rest)
    at_count =
        drop-append_ge 9 8 1 discriminator _ ld refl
        ∙ drop-append_of_length 1 (le_bytes 1 bump) _ (length-le_bytes 1 bump)

    at_root : drop 13 raw ≡ root ++ rest
    at_root =
        drop-append_ge 13 8 5 discriminator _ ld refl
        ∙ (drop-append_ge 5 1 4 (le_bytes 1 bump) _ (length-le_bytes 1 bump) refl
            ∙ drop-append_of_length 4 (le_bytes 4 count) _ (length-le_bytes 4 count))

    found_root : take 32 (drop 13 raw) ≡ root
    found_root = ap (take 32) at_root ∙ take-append_of_length 32 root rest lr

    found_count : take 4 (drop 9 raw) ≡ le_bytes 4 count
    found_count =
        ap (take 4) at_count
        ∙ take-append_of_length 4 (le_bytes 4 count) (root ++ rest) (length-le_bytes 4 count)

-- On the account that the program stores, the decoder gives as the root the end of the authority's
-- address and the start of the mint's, and as the count four bytes of the authority's address, whatever
-- the tree holds: neither the roots nor the number of commitments is read.
pub decode_state-serialized :
    (discriminator : Bytes) (a : MerkleTreeState)
    → length discriminator ≡ 8
    → length a.authority ≡ 32
    → length a.token_mint ≡ 32
    → decode_state (serialize discriminator a)
      ≡ some (record {
        root_hex = to_hex (drop 5 a.authority ++ take 5 a.token_mint);
        commitment_count = from_le (take 4 (drop 1 a.authority));
      })
unfolding serialize
decode_state-serialized discriminator a ld la lm = long_enough _ long ∙ rw (root, count)
  where
    tail : Bytes
    tail = a.token_mint ++ serialize_rest a

    long : 45 ≤ length (discriminator ++ (a.authority ++ tail))
    long = omega (
      arith,
      length-append discriminator (a.authority ++ tail),
      length-append a.authority tail,
      length-append a.token_mint (serialize_rest a),
    )

    root :
        take 32 (drop 13 (discriminator ++ (a.authority ++ tail)))
        ≡ drop 5 a.authority ++ take 5 a.token_mint
    root =
        ap (take 32) (
          drop-append_ge 13 8 5 discriminator (a.authority ++ tail) ld refl
          ∙ drop-append_le 5 a.authority tail (omega arith))
        ∙ (take-append_ge 32 27 5 (drop 5 a.authority) tail
              (omega (arith, length-drop 5 a.authority)) refl
            ∙ ap (λ t. drop 5 a.authority ++ t)
                (take-append_le 5 a.token_mint (serialize_rest a) (omega arith)))

    count : take 4 (drop 9 (discriminator ++ (a.authority ++ tail))) ≡ take 4 (drop 1 a.authority)
    count =
        ap (take 4) (
          drop-append_ge 9 8 1 discriminator (a.authority ++ tail) ld refl
          ∙ drop-append_le 1 a.authority tail (omega arith))
        ∙ take-append_le 4 (drop 1 a.authority) tail (omega (arith, length-drop 1 a.authority))
