-- ===== src/Examples/Pools.antt =====
-- A pool that the script creates.
use bagsvault.Base.{[], ◌∷◌, codes}
use bagsvault.Json.{str}
use bagsvault.Exceptions.{ok}
use bagsvault.PoolInit.{Tools, Initialized, run}
use bagsvault.PoolInit.Sent.{Sent}
use bagsvault.Examples.Fixtures.{keys, one_key, ok_or}

abbrev tools : Tools
tools = record {
  keys = keys;
  bagsvault_program_id = codes "P";
  pubkey_obj = ok one_key;
  build_and_sign = λ ix hash payer. ok (1 ∷ 2 ∷ 3 ∷ []);
  get_recent_blockhash = ok (str (codes "h"));
  send_transaction = λ payload. ok (codes "S");
}

abbrev created : Initialized
created =
    ok_or
      (record {
        tree_state_pda = [];
        signature = [];
        program_id = [];
        authority = [];
        token_mint = [];
        denomination = 0;
      })
      (run tools 1000 (codes "SOL"))
