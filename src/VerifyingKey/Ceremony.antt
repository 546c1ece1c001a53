-- ===== src/VerifyingKey/Ceremony.antt =====
-- The commands of backend/scripts/build_vk.py: `compile`, `setup`, `convert` and `all`. What the file
-- system and the tools do is an argument; what is printed is left out.
use bagsvault.Base.{
  zero, suc, ◌++◌, ◌&&◌, ℤ, pos, negsuc, Bool, true, false, List, [], ◌∷◌, Option, none, some, Str,
  codes, show_ℤ, if◌then◌else◌,
}
use bagsvault.Json.{Json, obj, Fields, get_field}
use bagsvault.Exceptions.{Exn, raised, bad_parameter, other, Result, ok, err, ◌>>=◌}
use bagsvault.VerifyingKey.{required_keys, parse_vk}
use bagsvault.VerifyingKey.Render.{render_verifier_vk}

-- The file `vk_fields.json`: it is not there, is no JSON, or has a value.
pub data KeyFile : Type 0 where
  missing : KeyFile
  no_json : Str → KeyFile
  parsed : Json → KeyFile

is_there : Option Json → Bool
is_there none = false
is_there (some v) = true

unfoldable pub has_all : List Str → Fields → Bool
unfolding is_there get_field
has_all [] fs = true
has_all (key ∷ keys) fs = is_there (get_field key fs) && has_all keys fs

bad : Str → Exn
bad message = raised bad_parameter message

unfoldable pub with_keys : Fields → Result Fields
unfolding has_all bad
with_keys fs =
    if has_all required_keys fs
    then ok fs
    else err (bad (codes "VK JSON is missing required fields."))

-- `_load_vk_fields_json`; the path and what is quoted are left out of the messages
unfoldable pub load_vk_fields_json : KeyFile → Result Fields
unfolding with_keys bad
load_vk_fields_json missing =
    err (bad (codes "VK JSON not found. Did you run `bb write_vk` first?"))
load_vk_fields_json (no_json e) = err (bad (codes "VK JSON is not valid JSON: " ++ e))
load_vk_fields_json (parsed (obj fs)) = with_keys fs
load_vk_fields_json (parsed _) = err (bad (codes "VK JSON must be a top-level object."))

-- What the environment answers when it is asked.
pub record Machine : Type 0 where
  pub circuit_dir_exists : Bool
  pub nargo : Option Str
  pub nargo_exit : ℤ
  pub bb : Option Str
  -- after `compile`
  pub bytecode_exists : Bool
  pub bb_exit : ℤ
  -- after `setup`
  pub vk_json : KeyFile

-- The commands that were run, and what came of it.
pub record Outcome (A : Type 0) : Type 0 where
  pub commands : List (List Str)
  pub answer : Result A

unfoldable pub which_or_fail : Str → Option Str → Result Str
unfolding bad
which_or_fail hint none = err (bad hint)
which_or_fail hint (some found) = ok found

-- `_run`, where the command exits with a code
exited : ℤ → Result (Unit {0})
unfolding show_ℤ
exited (pos zero) = ok tt
exited (pos (suc n)) = err (raised other (codes "Exit " ++ show_ℤ (pos (suc n))))
exited (negsuc n) = err (raised other (codes "Exit " ++ show_ℤ (negsuc n)))

unfoldable pub run : List Str → ℤ → Outcome (Unit {0})
unfolding exited
run cmd code = record { commands = cmd ∷ []; answer = exited code }

unfoldable pub found_nargo : Machine → Result Str → Outcome (Unit {0})
unfolding run
found_nargo m (err e) = record { commands = []; answer = err e }
found_nargo m (ok nargo) = run (nargo ∷ codes "compile" ∷ []) m.nargo_exit

nargo_hint : Str
nargo_hint =
    codes
      "nargo not found on PATH. Install Noir + nargo from https://noir-lang.org/docs/getting_started/installation"

bb_hint : Str
bb_hint =
    codes
      "bb not found on PATH. Install Barretenberg following https://github.com/AztecProtocol/aztec-packages/tree/master/barretenberg/cpp"

-- `compile`
unfoldable pub compile : Machine → Outcome (Unit {0})
unfolding found_nargo which_or_fail nargo_hint bad
compile m =
    if m.circuit_dir_exists
    then found_nargo m (which_or_fail nargo_hint m.nargo)
    else record { commands = []; answer = err (bad (codes "Circuit directory does not exist.")) }

unfoldable pub found_bb : Machine → Result Str → Outcome (Unit {0})
unfolding run bad
found_bb m (err e) = record { commands = []; answer = err e }
found_bb m (ok bb) =
    if m.bytecode_exists
    then run
        (bb
          ∷ codes "write_vk"
          ∷ codes "-b"
          ∷ codes "target/bagsvault_withdraw.json"
          ∷ codes "-o"
          ∷ codes "target/vk"
          ∷ [])
        m.bb_exit
    else record {
      commands = [];
      answer = err (bad (codes "Circuit bytecode missing. Run `compile` first."));
    }

-- `setup`
unfoldable pub setup : Machine → Outcome (Unit {0})
unfolding found_bb which_or_fail bb_hint
setup m = found_bb m (which_or_fail bb_hint m.bb)

-- the rest of a command, after a part of it that may raise
unfoldable pub then_do : {A B : Type 0} → Outcome A → Outcome B → Outcome B
then_do {B} first rest = elim first.answer [
  | ok a ↦ record { commands = first.commands ++ rest.commands; answer = rest.answer }
  | err e ↦ record { commands = first.commands; answer = err e }
]

module _ (truncate : Str → Result ℤ) where
  -- `convert`: the text that is written, if it is
  unfoldable pub convert : KeyFile → Result Str
  unfolding load_vk_fields_json parse_vk render_verifier_vk
  convert file = do
    vk_json ← load_vk_fields_json file
    vk ← parse_vk truncate vk_json
    render_verifier_vk vk

  -- `all`
  unfoldable pub run_all : Machine → Outcome Str
  unfolding then_do compile setup
  run_all m =
      then_do (compile m) (then_do (setup m) (record { commands = []; answer = convert m.vk_json }))
