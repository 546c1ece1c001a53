-- ===== src/Withdraw/Relay/Respelled.antt =====
-- The guard of `relay` compares the text of the nullifier, and the instruction is built from its bytes.
use bagsvault.Base.{◌∷◌, ◌++◌, Option, none, some, Str, codes, ◌≡◌, refl, false, lower, starts_with}
use bagsvault.Exceptions.{Result, ok, err}
use bagsvault.Withdraw.{cleaned, hex_to_bytes}
use bagsvault.Withdraw.Relay.{Picked, Request, Withdrawal, Prepared, prepare}
use bagsvault.Withdraw.Relay.Pipeline.{World, Services, Fresh, finish, handed, proceed, relay}

-- The same request with the nullifier written with a prefix.
abbrev pub respelled : Request → Request
respelled q = record {
  proof = q.proof;
  root = q.root;
  nullifier_hash = codes "0x" ++ q.nullifier_hash;
  recipient = q.recipient;
  amount = q.amount;
  token = q.token;
}

cleaned_prefix : (n : Str) → cleaned (codes "0x" ++ n) ≡ n
unfolding cleaned starts_with lower
cleaned_prefix n = refl

cleaned_plain : (n : Str) → starts_with (codes "0x") (lower n) ≡ false → cleaned n ≡ n
unfolding cleaned
cleaned_plain n h = rw h

hex_to_bytes-respelled :
    (n label : Str)
    → starts_with (codes "0x") (lower n) ≡ false
    → hex_to_bytes (codes "0x" ++ n) label ≡ hex_to_bytes n label
unfolding hex_to_bytes
hex_to_bytes-respelled n label h = rw (cleaned_prefix n) (rw (cleaned_plain n h))

module _ {S R : Type 0} (services : Services S R) where
  prepare-respelled :
      (picked : Result Picked) (existing : Option Withdrawal) (q : Request)
      → starts_with (codes "0x") (lower q.nullifier_hash) ≡ false
      → prepare services.keys services.settings services.chain picked existing (respelled q)
        ≡ prepare services.keys services.settings services.chain picked existing q
  unfolding prepare
  prepare-respelled picked existing q h = rw (hex_to_bytes-respelled q.nullifier_hash _ h)

  finish-submitted :
      (w : World S R) (fresh : Fresh) (q : Request) (p : Prepared) (sent : Result Str)
      → (finish services w fresh q p sent).0.submitted ≡ w.submitted
  unfolding finish
  finish-submitted w fresh q p (ok signature) = refl
  finish-submitted w fresh q p (err e) = refl

  -- If a request whose nullifier has no prefix is accepted as p where no row is stored, then the same
  -- request with the nullifier respelled with the prefix gives the same instruction to the chain,
  -- whatever row is stored for the text without it, as long as none is for the text with it.
  pub relay-respelled :
      (w : World S R) (fresh : Fresh) (q : Request) (p : Prepared) (row : Withdrawal)
      → starts_with (codes "0x") (lower q.nullifier_hash) ≡ false
      → services.rows.find_one w.withdrawals q.nullifier_hash ≡ some row
      → services.rows.find_one w.withdrawals (codes "0x" ++ q.nullifier_hash) ≡ none
      → prepare services.keys services.settings services.chain
          (services.pick_best w.relayers q.token)
          none
          q
        ≡ ok p
      → (relay services w fresh (respelled q)).0.submitted ≡ p.ix ∷ w.submitted
  unfolding relay proceed handed
  relay-respelled w fresh q p row plain stored free accepted =
      rw (free, prepare-respelled (services.pick_best w.relayers q.token) none q plain, accepted)
        (finish-submitted _ _ _ _ _)
