-- ===== src/Examples/Fixtures.antt =====
-- Concrete values for what the program takes from outside.
use bagsvault.Base.{[], ◌∷◌, Option, none, some, Str, replicate}
use bagsvault.Base.Hex.{pad32, length-pad32}
use bagsvault.Exceptions.{Result, ok, err}
use bagsvault.Solana.Instruction.{Pubkey}
use bagsvault.Solana.Keys.{Keys, HaveLength}

-- a text that is not empty is an address
parsed : Str → Option Pubkey
parsed [] = none
parsed (c ∷ cs) = some (pad32 (c ∷ cs))

unfoldable pub keys : Keys
unfolding pad32 parsed
keys = record {
  from_string = parsed;
  find_program_address = λ seeds program_id. program_id;
  sha256 = pad32;
  spl_token_program_id = replicate 32 1;
  associated_token_program_id = replicate 32 2;
}

pub keys_HaveLength : HaveLength keys
unfolding keys
keys_HaveLength = record { digests = length-pad32 }

abbrev pub one_key : Pubkey
one_key = replicate 32 7

-- The value of a result that is known to be one.
abbrev pub ok_or {ℓ} : {A : Type ℓ} → A → Result A → A
ok_or a (ok b) = b
ok_or a (err e) = a
