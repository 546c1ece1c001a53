-- ===== src/Examples/Flows.antt =====
-- The flows that build a deposit, and the claim summary.
use bagsvault.Base.{
  ℕ, zero, suc, List, [], ◌∷◌, Option, none, some, Str, codes, ◌≡◌, ◌≢◌, refl, eq_str,
}
use bagsvault.Json.{Json, obj, str, arr, cons, nil, Fields, field, end}
use bagsvault.Exceptions.{ok}
use bagsvault.Solana.Instruction.{Instruction}
use bagsvault.DepositTx.{Outside, SwapChain, build_swap_chain}
use bagsvault.DepositTx.Builder.{Chain, Unsigned, build_unsigned_tx}
use bagsvault.DepositTx.Claim.{ClaimChain, build_claim_chain}
use bagsvault.Bags.{Client, Reply, http_error, response, ClaimSummary, claim_fees}
use bagsvault.Bags.Claims.{with_bags, build_claim_chain-claim_fees}
use bagsvault.Examples.Fixtures.{keys, ok_or}

abbrev show : Json → Str
show v = codes "?"

abbrev chain : Chain
chain = record {
  get_recent_blockhash = ok (str (codes "h"));
  compile = λ ix payer hash. some (ok []);
}

abbrev answer : Fields
answer = field (codes "transaction") (str (codes "T")) end

abbrev outside : Outside
outside = record {
  keys = keys;
  bagsvault_program_id = codes "P";
  get_swap_quote = λ a b c d. ok answer;
  build_claim_tx = λ wallet mint. ok answer;
  serialize_unsigned = λ ix payer. ok (codes "D");
}

abbrev no_ix : Instruction
no_ix = record { program_id = []; accounts = []; body = [] }

abbrev unsigned : Unsigned
unsigned =
    ok_or
      (record {
        tx_base64 = [];
        blockhash = [];
        tree_state_pda = [];
        vault_pda = [];
        program_id = [];
        depositor = [];
        amount = 0;
        token = [];
        commitment = [];
        deposit = no_ix;
      })
      (build_unsigned_tx keys (codes "P") chain (codes "ab") 5 (codes "W") (codes "M"))

abbrev swapped : SwapChain
swapped =
    ok_or
      (record {
        swap_tx = [];
        deposit_tx = [];
        deposit_program_id = [];
        deposit_token_mint = [];
        deposit = no_ix;
      })
      (build_swap_chain outside (codes "I") (codes "M") 5 50 (codes "W") (codes "ab"))

abbrev no_claim : ClaimChain
no_claim = record {
  claim_txs = [];
  deposit_tx = [];
  claim_raw = end;
  deposit_program_id = [];
  deposit_token_mint = [];
  creator_wallet = [];
  deposit = no_ix;
}

abbrev claimed : ClaimChain
claimed = ok_or no_claim (build_claim_chain outside show (codes "W") (codes "M") (codes "ab"))

abbrev client : Client
client = record { api_key = codes "k"; send = λ k r. response 200 (some (obj answer)) }

-- the same key, and no answer to the second request
fails_later : ℕ → Reply
fails_later zero = response 200 (some (obj answer))
fails_later (suc k) = http_error (codes "timeout")

unfoldable other : Client
unfolding fails_later
other = record { api_key = codes "k"; send = λ k r. fails_later k }

abbrev claimed_by_bags : ClaimChain
claimed_by_bags =
    ok_or no_claim
      (build_claim_chain (with_bags client outside) show (codes "W") (codes "M") (codes "ab"))

is_claimed_by_bags :
    build_claim_chain (with_bags client outside) show (codes "W") (codes "M") (codes "ab")
    ≡ ok claimed_by_bags
unfolding build_claim_chain keys bagsvault.DepositTx.decode_pubkey
    bagsvault.DepositTx.hex_to_bytes32 bagsvault.DepositTx.decode_hex bagsvault.Base.Hex.unhexlify
    bagsvault.Withdraw.cleaned bagsvault.Base.starts_with bagsvault.Base.lower
    bagsvault.Base.Hex.digit_value bagsvault.DepositTx.Claim.extract_unsigned_txs
    bagsvault.Json.get_field eq_str bagsvault.DepositTx.build_deposit_ix with_bags
    bagsvault.Bags.build_claim_tx bagsvault.Bags.request bagsvault.Bags.ensure_configured
    bagsvault.Bags.read_reply bagsvault.Bags.as_dict
is_claimed_by_bags = refl

build_claim_chain-claim_fees_example :
    (s : ClaimSummary) × (claim_fees show other (codes "W") (some (codes "M")) ≡ ok s)
    × (s.unsigned_transactions ≡ claimed_by_bags.claim_txs)
    × (claimed_by_bags.claim_txs ≢ [])
unfolding other
build_claim_chain-claim_fees_example =
    build_claim_chain-claim_fees client other outside show (codes "W") (codes "M") (codes "ab")
      claimed_by_bags refl refl is_claimed_by_bags
