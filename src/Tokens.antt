-- ===== src/Tokens.antt =====
-- backend/app/services/token_service.py: the registry of project tokens, and the cache of their metadata.
-- Times are milliseconds. Each operation runs without another in between. The stored `bags_metadata` is always null and is left out.
pub mod Registered
pub mod Cached
use bagsvault.Base.{
  ℕ, ◌-◌, ◌++◌, Bool, not, ◌&&◌, List, [], ◌∷◌, Option, none, some, Str, codes, eq_str, is_empty,
  ltb, take, drop, if◌then◌else◌,
}
use bagsvault.Json.{Json}
use bagsvault.Exceptions.{
  Exn, domain, raised, conflict, not_found, duplicate_key, other, exn_str, Result, ok, err, ◌>>=◌,
}
use bagsvault.Mongo.{Insert, inserted, duplicate, failed, Collection}

pub record ProjectToken : Type 0 where
  pub id : Str
  pub mint : Str
  pub creator_wallet : Str
  pub symbol : Str
  pub name : Str
  pub decimals : ℕ
  pub metadata_uri : Option Str
  pub is_vault_token : Bool
  pub registered_at : ℕ

pub record TokenRegister : Type 0 where
  pub mint : Str
  pub creator_wallet : Str
  pub symbol : Str
  pub name : Str
  pub decimals : ℕ
  pub metadata_uri : Option Str

-- The values that the defaults of `ProjectToken` make up.
pub record Fresh : Type 0 where
  pub id : Str
  pub now : ℕ

-- `db.tokens` and `db.creators`.
pub record World (S C : Type 0) : Type 0 where
  pub tokens : S
  pub creators : C

abbrev pub other_creator : Exn
other_creator = domain conflict (codes "Mint already registered to a different creator.")

unfoldable pub existing_token : ProjectToken → TokenRegister → Result ProjectToken
existing_token existing payload =
    if eq_str existing.creator_wallet payload.creator_wallet then ok existing else err other_creator

unfoldable pub new_token : Str → Fresh → TokenRegister → ProjectToken
new_token vault_token_mint fresh payload = record {
  id = fresh.id;
  mint = payload.mint;
  creator_wallet = payload.creator_wallet;
  symbol = payload.symbol;
  name = payload.name;
  decimals = payload.decimals;
  metadata_uri = payload.metadata_uri;
  is_vault_token = not (is_empty vault_token_mint) && eq_str payload.mint vault_token_mint;
  registered_at = fresh.now;
}

module _ {S C : Type 0} (rows : Collection S ProjectToken)
    (link_creator : C → ProjectToken → Option C) (vault_token_mint : Str) where
  -- the creator's profile is updated if that does not raise
  linked : Option C → C → C
  linked none c = c
  linked (some c') c = c'

  unfoldable pub after_insert :
      World S C → ProjectToken → Insert S → World S C × Result ProjectToken
  unfolding linked
  after_insert w token (inserted s) = (
    record { tokens = s; creators = linked (link_creator w.creators token) w.creators },
    ok token,
  )
  after_insert w token duplicate =
      (w, err (raised duplicate_key (codes "E11000 duplicate key error")))
  after_insert w token (failed message) = (w, err (raised other message))

  unfoldable pub register_token :
      World S C → Fresh → TokenRegister → Option ProjectToken → World S C × Result ProjectToken
  register_token w fresh payload (some existing) = (w, existing_token existing payload)
  register_token w fresh payload none =
      let token = new_token vault_token_mint fresh payload in
      after_insert w token (rows.insert_one w.tokens token)

  unfoldable pub register : World S C → Fresh → TokenRegister → World S C × Result ProjectToken
  register w fresh payload = register_token w fresh payload (rows.find_one w.tokens payload.mint)

  token_or_missing : Str → Option ProjectToken → Result ProjectToken
  token_or_missing mint none =
      err (domain not_found (codes "No token registered with mint " ++ (mint ++ codes ".")))
  token_or_missing mint (some token) = ok token

  unfoldable pub get_token : S → Str → Result ProjectToken
  unfolding token_or_missing
  get_token s mint = token_or_missing mint (rows.find_one s mint)

  unfoldable pub get_vault : S → Result ProjectToken
  get_vault s =
      if is_empty vault_token_mint
      then err (
          domain not_found (
            codes
              "VAULT_TOKEN_MINT is not set. Run scripts/launch_vault_token.py and set the resulting mint pubkey in your .env file."))
      else get_token s vault_token_mint

-- `list_tokens`, on the rows as the cursor gives them
unfoldable pub list_tokens : ℕ → ℕ → List ProjectToken → List ProjectToken
list_tokens limit offset docs = take limit (drop offset docs)

-- An entry of `_metadata_cache`.
pub record Entry : Type 0 where
  pub mint : Str
  pub fetched_at : ℕ
  pub live : Json

abbrev pub ttl : ℕ
ttl = 60000

unfoldable pub cached_entry : List Entry → Str → Option Entry
cached_entry [] mint = none
cached_entry (e ∷ es) mint = if eq_str e.mint mint then some e else cached_entry es mint

-- What is given back: the live data, and the text of an error.
pub record Live : Type 0 where
  pub live : Option Json
  pub error : Option Str

-- an entry is written in front of an older one, which is not found any more
unfoldable pub fetched : List Entry → ℕ → Str → Result Json → List Entry × Live
fetched cache now mint (err e) = (cache, record { live = none; error = some (exn_str e) })
fetched cache now mint (ok live) = (
  record { mint = mint; fetched_at = now; live = live } ∷ cache,
  record { live = some live; error = none },
)

-- An entry is used while it is younger than the time to live.
unfoldable pub fetch_from : List Entry → ℕ → Str → Result Json → Option Entry → List Entry × Live
fetch_from cache now mint answer none = fetched cache now mint answer
fetch_from cache now mint answer (some e) =
    if ltb (now - e.fetched_at) ttl
    then (cache, record { live = some e.live; error = none })
    else fetched cache now mint answer

-- `_fetch_live_metadata`, where Bags would answer `answer` if it is asked now
unfoldable pub fetch_live_metadata : List Entry → ℕ → Str → Result Json → List Entry × Live
fetch_live_metadata cache now mint answer =
    fetch_from cache now mint answer (cached_entry cache mint)

-- The registry's row with the live data.
pub record TokenWithMetadata : Type 0 where
  pub token : ProjectToken
  pub live : Live

-- an empty text of an error is left out
said : Option Str → Option Str
said none = none
said (some t) = if is_empty t then none else some t

shown : Live → Live
unfolding said
shown l = record l { error = said l.error }

-- `get_with_metadata`, on what `get` gave
unfoldable pub get_with_metadata :
    List Entry → ℕ → Str → Result Json → Result ProjectToken → List Entry × Result TokenWithMetadata
unfolding fetch_live_metadata shown
get_with_metadata cache now mint answer (err e) = (cache, err e)
get_with_metadata cache now mint answer (ok token) =
    let (cache', live) = fetch_live_metadata cache now mint answer in
    (cache', ok (record { token = token; live = shown live }))
