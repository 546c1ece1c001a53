-- ===== src/Bags/Claims.antt =====
-- The claim summary and the claim flow.
use bagsvault.Base.{List, [], ◌∷◌, Option, some, Str, ◌≡◌, ◌≢◌, refl, ◌∙◌, ap}
use bagsvault.Json.{Json, Fields}
use bagsvault.Exceptions.{ok, >>=-eq-ok, ok-injective}
use bagsvault.DepositTx.{Outside, configured, decode_pubkey, hex_to_bytes32, build_deposit_ix}
use bagsvault.DepositTx.Claim.{extract_unsigned_txs, some_txs, ClaimChain, build_claim_chain}
use bagsvault.Bags.{
  Client, ensure_configured, request, claim_request, build_claim_tx, get_claimable_fees,
  get_swap_quote, or_fees, extract_pending_fees, claimable_fees, ClaimSummary, claim_fees,
}

-- The flows, with the Bags client.
unfoldable pub with_bags : Client → Outside → Outside
with_bags client o = record o {
  get_swap_quote = get_swap_quote client 0;
  build_claim_tx = λ wallet mint. build_claim_tx client 0 wallet (some mint);
}

some_txs-ok : (txs out : List Str) → some_txs txs ≡ ok out → (txs ≡ out) × (out ≢ [])
unfolding some_txs
some_txs-ok [] out h = absurd (cc)
some_txs-ok (tx ∷ txs) out h = let same = ok-injective h in (same, λ e. cc)

summary-ok :
    (client : Client) (show : Json → Str) (wallet : Str) (mint : Option Str) (raw : Fields)
    → build_claim_tx client 0 wallet mint ≡ ok raw
    → (s : ClaimSummary) × (claim_fees show client wallet mint ≡ ok s)
      × (s.unsigned_transactions ≡ extract_unsigned_txs show raw)
unfolding claim_fees
summary-ok client show wallet mint raw asked = (
  record {
    creator_wallet = wallet;
    token_mint = mint;
    unsigned_transactions = extract_unsigned_txs show raw;
    pending_fees =
        or_fees (extract_pending_fees raw)
          (claimable_fees (get_claimable_fees client 1 wallet mint));
    raw = raw;
  },
  rw asked,
  refl,
)

asked_alike :
    (client other : Client) (wallet : Str) (mint : Option Str)
    → other.api_key ≡ client.api_key
    → other.send 0 (claim_request wallet mint) ≡ client.send 0 (claim_request wallet mint)
    → build_claim_tx other 0 wallet mint ≡ build_claim_tx client 0 wallet mint
unfolding build_claim_tx request ensure_configured
asked_alike client other wallet mint keyed alike = rw (keyed, alike) refl

-- If the claim flow returns, then the claim summary for the same wallet and mint, asked for with the same key
-- at a time when Bags answers its request for claim transactions alike, returns as well, whatever Bags
-- answers to its other request, that for claimable fees, and both have the same transactions to sign, of
-- which there is one.
pub build_claim_chain-claim_fees :
    (client other : Client) (o : Outside) (show : Json → Str) (wallet mint hex : Str)
    (c : ClaimChain)
    → other.api_key ≡ client.api_key
    → other.send 0 (claim_request wallet (some mint))
      ≡ client.send 0 (claim_request wallet (some mint))
    → build_claim_chain (with_bags client o) show wallet mint hex ≡ ok c
    → (s : ClaimSummary) × (claim_fees show other wallet (some mint) ≡ ok s)
      × (s.unsigned_transactions ≡ c.claim_txs)
      × (c.claim_txs ≢ [])
unfolding build_claim_chain with_bags
build_claim_chain-claim_fees client other o show wallet mint hex c keyed alike h0 =
    let keys = o.keys in
    let (_, _, h1) = >>=-eq-ok (configured o.bagsvault_program_id) _ h0 in
    let (p, _, h2) = >>=-eq-ok (decode_pubkey keys o.bagsvault_program_id _) _ h1 in
    let (d, _, h3) = >>=-eq-ok (decode_pubkey keys wallet _) _ h2 in
    let (t, _, h4) = >>=-eq-ok (decode_pubkey keys mint _) _ h3 in
    let (b, _, h5) = >>=-eq-ok (hex_to_bytes32 hex _) _ h4 in
    let (raw, asked, h6) = >>=-eq-ok (build_claim_tx client 0 wallet (some mint)) _ h5 in
    let (txs, found, h7) = >>=-eq-ok (some_txs (extract_unsigned_txs show raw)) _ h6 in
    let (ix, _, h8) = >>=-eq-ok (build_deposit_ix keys p t d b) _ h7 in
    let (_, _, h9) = >>=-eq-ok (o.serialize_unsigned ix d) _ h8 in
    let kept : txs ≡ c.claim_txs = ap (λ v. v.claim_txs) (ok-injective h9) in
    let (same, full) = some_txs-ok (extract_unsigned_txs show raw) txs found in
    let (s, done, listed) =
      summary-ok other show wallet (some mint) raw
        (asked_alike client other wallet (some mint) keyed alike ∙ asked) in
    (s, done, listed ∙ same ∙ kept, λ e. full (kept ∙ e))
