-- ===== src/Solana/Ws.antt =====
-- backend/app/clients/solana_ws.py: the subscriptions, which connect again whenever a connection ends.
pub mod Reconnect
use bagsvault.Base.{
  ℕ, suc, ◌*◌, min, ◌++◌, Bool, true, false, not, ◌||◌, List, [], ◌∷◌, Option, none, some, Str,
  codes, eq_str, starts_with, is_empty, lower, if◌then◌else◌,
}
use bagsvault.Json.{Json, str, obj, Fields, end, field}
use bagsvault.Exceptions.{
  Exn, domain, service_unavailable, is_type_or_value, Result, ok, err, ◌>>=◌,
}
use bagsvault.Solana.Instruction.{Pubkey}
use bagsvault.Solana.Keys.{Keys}

abbrev pub initial_backoff : ℕ
initial_backoff = 1

abbrev pub max_backoff : ℕ
max_backoff = 30

-- the URL of a client
unfoldable pub create : Str → Result Str
unfolding starts_with
create ws_url =
    if is_empty ws_url
      || not (starts_with (codes "ws://") ws_url || starts_with (codes "wss://") ws_url)
    then err (domain service_unavailable (codes "Solana WebSocket URL is not configured."))
    else ok ws_url

-- An object of solders: what its `to_json` does, if it has one, with its `repr`.
pub record Notification : Type 0 where
  pub to_json : Option (Result Json)
  pub repr : Str
  -- whether it is true, where it is tested by itself
  pub is_true : Bool

-- What the socket gives at a time.
pub data Msg : Type 0 where
  listed : List Notification → Msg
  single : Notification → Msg

-- `if not msg`
unfoldable pub is_full : Msg → Bool
is_full (listed []) = false
is_full (listed (n ∷ ns)) = true
is_full (single n) = n.is_true

unfoldable pub normalize_msg : Msg → List Notification
normalize_msg (listed ns) = ns
normalize_msg (single n) = n ∷ []

-- `json.loads` is an argument.
module _ (loads : Str → Result Json) where
  -- `payload`, parsed where it is a text
  unfoldable pub parsed : Json → Result Json
  parsed (str s) = loads s
  parsed v = ok v

  raw_dict : Notification → Fields
  raw_dict n = field (codes "raw") (str n.repr) end

  -- the two errors that are caught leave the `repr`
  unfoldable pub dict_or_raw : Notification → Result Json → Result Fields
  unfolding raw_dict is_type_or_value
  dict_or_raw n (ok (obj fs)) = ok fs
  dict_or_raw n (ok _) = ok (raw_dict n)
  dict_or_raw n (err e) = if is_type_or_value e then ok (raw_dict n) else err e

  json_of : Notification → Option (Result Json) → Result Fields
  unfolding dict_or_raw parsed raw_dict
  json_of n none = ok (raw_dict n)
  json_of n (some payload) = dict_or_raw n (payload >>= parsed)

  unfoldable pub to_dict : Notification → Result Fields
  unfolding json_of
  to_dict n = json_of n n.to_json

-- `_logs_filter`
pub data LogsFilter : Type 0 where
  all_logs all_with_votes : LogsFilter
  mentions : Pubkey → LogsFilter

unfoldable pub mentions_of : Option Pubkey → Result LogsFilter
mentions_of none = err (
    domain service_unavailable (codes "logs_subscribe mentions filter received an invalid pubkey."))
mentions_of (some key) = ok (mentions key)

unfoldable pub mentioned : Keys → Option Str → Result LogsFilter
unfolding mentions_of
mentioned keys none =
    err (
      domain service_unavailable
        (codes "logs_subscribe filter='mentions' requires a pubkey value."))
mentioned keys (some value) =
    if is_empty value
    then err (
        domain service_unavailable
          (codes "logs_subscribe filter='mentions' requires a pubkey value."))
    else mentions_of (keys.from_string value)

unfoldable pub logs_filter : Keys → Str → Option Str → Result LogsFilter
unfolding mentioned lower eq_str
logs_filter keys kind value =
    let normalized = lower kind in
    if eq_str normalized (codes "all")
    then ok all_logs
    else if eq_str normalized (codes "allwithvotes") || eq_str normalized (codes "all_with_votes")
    then ok all_with_votes
    else if eq_str normalized (codes "mentions")
    then mentioned keys value
    else err (domain service_unavailable (codes "Unknown logs filter kind."))

-- How a connection ends: the server closes it, it fails, or the task is cancelled in it.
pub data Ending : Type 0 where
  closed failed cancelled : Ending

-- One connection: what it gives, and how it ends. One that cannot be opened, or is not subscribed to,
-- gives nothing and fails.
pub record Connection : Type 0 where
  pub msgs : List Msg
  pub ending : Ending
  -- the task is cancelled in the pause that follows
  pub is_cancelled_after : Bool

-- What a generator has given, and how it ended.
pub record Given : Type 0 where
  pub items : List Fields
  pub ending : Ending

abbrev after_item : Fields → Given → Given
after_item item g = record g { items = item ∷ g.items }

module _ (loads : Str → Result Json) where
  abbrev given_next : Result Fields → Given → Given
  given_next (ok item) rest = after_item item rest
  given_next (err e) rest = record { items = []; ending = failed }

  -- the items of a message; an exception in `_to_dict` ends the generator
  unfoldable pub give_items : List Notification → Given → Given
  unfolding to_dict
  give_items [] rest = rest
  give_items (n ∷ ns) rest = given_next (to_dict loads n) (give_items ns rest)

  -- `_open`
  unfoldable pub open_stream : List Msg → Ending → Given
  unfolding give_items normalize_msg is_full
  open_stream [] ending = record { items = []; ending = ending }
  open_stream (msg ∷ msgs) ending =
      let rest = open_stream msgs ending in
      if is_full msg then give_items (normalize_msg msg) rest else rest

-- What a subscriber sees of the loop: items, and pauses in seconds.
pub data Event : Type 0 where
  yielded : Fields → Event
  slept : ℕ → Event

-- The events, and whether `CancelledError` ended the loop.
pub record Trace : Type 0 where
  pub events : List Event
  pub is_cancelled : Bool

abbrev before : Event → Trace → Trace
before e t = record t { events = e ∷ t.events }

unfoldable pub yield_all : List Fields → Trace → Trace
yield_all [] t = t
yield_all (item ∷ items) t = before (yielded item) (yield_all items t)

-- an item sets the pause back
unfoldable pub backoff_after : List Fields → ℕ → ℕ
backoff_after [] backoff = backoff
backoff_after (item ∷ items) backoff = initial_backoff

unfoldable pub next_backoff : ℕ → ℕ
next_backoff backoff = min (backoff * 2) max_backoff

abbrev stop : Trace
stop = record { events = []; is_cancelled = true }

-- the end of a round: how the connection ended, the pause, and the rest
unfoldable pub round_end : Ending → Bool → ℕ → Trace → Trace
round_end cancelled after backoff rest = stop
round_end closed after backoff rest = if after then stop else before (slept backoff) rest
round_end failed after backoff rest = if after then stop else before (slept backoff) rest

unfoldable pub key_or_unavailable : Option Pubkey → Result Pubkey
key_or_unavailable none =
    err (domain service_unavailable (codes "Invalid pubkey supplied to subscribe_account."))
key_or_unavailable (some key) = ok key

module _ (loads : Str → Result Json) where
  -- `_reconnect_loop`, on the connections that it makes one after the other
  unfoldable pub reconnect_loop : ℕ → List Connection → Trace
  unfolding open_stream yield_all backoff_after next_backoff round_end
  reconnect_loop backoff [] = record { events = []; is_cancelled = false }
  reconnect_loop backoff (c ∷ cs) =
      let given = open_stream loads c.msgs c.ending in
      let pause = backoff_after given.items backoff in
      let rest = reconnect_loop (next_backoff pause) cs in
      yield_all given.items (round_end given.ending c.is_cancelled_after pause rest)

  -- the connections that a subscription of the key makes
  unfoldable pub subscribe_account : Keys → Str → (Pubkey → List Connection) → Result Trace
  subscribe_account keys pubkey_b58 connections = do
    key ← key_or_unavailable (keys.from_string pubkey_b58)
    ok (reconnect_loop initial_backoff (connections key))

  unfoldable pub subscribe_logs :
      Keys → Str → Option Str → (LogsFilter → List Connection) → Result Trace
  subscribe_logs keys filter_kind filter_value connections = do
    log_filter ← logs_filter keys filter_kind filter_value
    ok (reconnect_loop initial_backoff (connections log_filter))
