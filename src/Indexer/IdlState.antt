-- ===== src/Indexer/IdlState.antt =====
-- The account that the program stores, by the decoder of the IDL and then by the layout.
use bagsvault.Base.{
  ℕ, ℤ, Bool, true, false, List, [], ◌∷◌, ◌++◌, Option, none, some, Str, codes, ◌≡◌, refl, sym, ◌∙◌,
  ap, length, take, drop, Option-cases, Bool-cases, inl, inr, if◌then◌else◌,
}
use bagsvault.Base.Hex.{to_hex}
use bagsvault.Base.Bytes.{from_le}
use bagsvault.Exceptions.{Result, ok}
use bagsvault.Solana.Instruction.{Bytes}
use bagsvault.Indexer.{State, Sources, decoded_by_layout, decoded_by}
use bagsvault.Indexer.Decode64.{b64decode}
use bagsvault.Indexer.Account.{MerkleTreeState, serialize, decode_state-serialized}
use bagsvault.Indexer.Anchor.{
  Member, Entries, stop, named, Account, account_dict, Decoder, Disk, load_coder, decode_available,
  decode_account, decode_by, decode_bytes, dict_of_account, decode_with_idl, state_of_dict,
}

-- The fields of `MerkleTreeState` by their names, with any values.
abbrev pub stored_entries : (Str → Member) → Entries
stored_entries v = named (codes "authority") true (v (codes "authority")) (
    named (codes "token_mint") true (v (codes "token_mint")) (
      named (codes "denomination") true (v (codes "denomination")) (
        named (codes "commitment_count") true (v (codes "commitment_count")) (
          named (codes "relayer_fee_bps") true (v (codes "relayer_fee_bps")) (
            named (codes "root_cursor") true (v (codes "root_cursor")) (
              named (codes "paused") true (v (codes "paused")) (
                named (codes "filled_subtrees") true (v (codes "filled_subtrees")) (
                  named (codes "roots") true (v (codes "roots"))
                    (named (codes "bump") true (v (codes "bump")) stop)))))))))

-- None of the keys is one of a root.
no_root :
    (truncate : Str → Result ℤ) (is_dict : Bool) (v : Str → Member)
    → state_of_dict truncate
        (some (account_dict (record { is_dict = is_dict; entries = stored_entries v })))
      ≡ ok none
unfolding state_of_dict account_dict bagsvault.Indexer.Anchor.dict_from
    bagsvault.Indexer.Anchor.put_field bagsvault.Indexer.Anchor.is_private
    bagsvault.Indexer.Anchor.decoded_of bagsvault.Indexer.Stream.state_from_decoded_dict
    bagsvault.Indexer.Stream.first_value bagsvault.Indexer.Stream.find_value
    bagsvault.Indexer.Stream.root_hex_of bagsvault.Base.eq_str bagsvault.Base.starts_with
no_root truncate true v = refl
no_root truncate false v = refl

module _ {C M : Type 0} (decode : C → Bytes → Option Account) (sources : Sources M) where
  -- whatever the decoder answers, no state comes of the account
  idl-none :
      (truncate : Str → Result ℤ) (disk : Disk C) (d : Decoder C) (b64 : Str) (raw : Bytes)
      (is_dict : Bool) (v : Str → Member)
      → b64decode b64 ≡ some raw
      → ((c : C) → decode c raw ≡ some (record { is_dict = is_dict; entries = stored_entries v }))
      → (decode_with_idl decode truncate disk d b64).1 ≡ ok none
  unfolding decode_with_idl decode_account decode_by decode_bytes dict_of_account
  idl-none truncate disk d b64 raw is_dict v text has =
      elim (Bool-cases (decode_available disk d).1) [ inl e ↦ rw e (by-coder _) | inr e ↦ rw e ]
    where
      by-coder : (o : Option C) → state_of_dict truncate (decode_by decode o b64) ≡ ok none
      by-coder none = unfold state_of_dict in refl
      by-coder (some c) = rw (text, has c) (no_root truncate is_dict v)

  -- On the account that the program stores, where the decoder of the IDL gives the fields of
  -- `MerkleTreeState` by their names, none of them is taken for the root, and what is recorded is what the
  -- layout decoder reads: parts of the authority's and of the mint's addresses as the root, and four bytes of
  -- the authority's address as the count.
  pub decoded_by-serialized :
      (truncate : Str → Result ℤ) (disk : Disk C) (d : Decoder C) (b64 : Str)
      (discriminator : Bytes) (a : MerkleTreeState) (is_dict : Bool) (v : Str → Member)
      → b64decode b64 ≡ some (serialize discriminator a)
      → ((c : C)
          → decode c (serialize discriminator a)
            ≡ some (record { is_dict = is_dict; entries = stored_entries v }))
      → sources.decode_with_idl b64 ≡ (decode_with_idl decode truncate disk d b64).1
      → length discriminator ≡ 8
      → length a.authority ≡ 32
      → length a.token_mint ≡ 32
      → decoded_by sources b64 (sources.decode_with_idl b64)
        ≡ ok (
            some (record {
              root_hex = to_hex (drop 5 a.authority ++ take 5 a.token_mint);
              commitment_count = from_le (take 4 (drop 1 a.authority));
            }))
  unfolding decoded_by decoded_by_layout
  decoded_by-serialized truncate disk d b64 discriminator a is_dict v text has by_idl ld la lm =
      rw (by_idl, idl-none truncate disk d b64 (serialize discriminator a) is_dict v text has, text)
        (ap ok (decode_state-serialized discriminator a ld la lm))
