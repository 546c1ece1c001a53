-- ===== src/Indexer/Anchor.antt =====
-- backend/app/clients/anchor_decoder.py, and what merkle_indexer.py does with it: the decoder of the IDL.
-- Accounts are dictionaries or objects with named fields; other objects, whose public attributes the code
-- would collect, are left out.
use bagsvault.Base.{
  ℤ, ◌||◌, Bool, true, false, not, ◌&&◌, [], Option, none, some, Str, codes, eq_str, is_empty,
  starts_with, if◌then◌else◌,
}
use bagsvault.Base.Hex.{to_hex}
use bagsvault.Base.Spaces.{strip}
use bagsvault.Json.{Json, str, arr, obj, Items, nil, cons, Fields, end, field}
use bagsvault.Exceptions.{Result, ok}
use bagsvault.Solana.Instruction.{Bytes}
use bagsvault.Indexer.{State}
use bagsvault.Indexer.Decode64.{b64decode}
use bagsvault.Indexer.Stream.{Decoded, entry, plain, state_from_decoded_dict}

mutual
  -- What anchorpy decodes to.
  pub data Member : Type 0 where
    -- a text, a number, a truth value or None
    scalar : Json → Member
    bytes : Bytes → Member
    seq : Members → Member
    dict : Entries → Member
    -- a dataclass or an object with slots, by its fields
    fields_of : Entries → Member

  pub data Members : Type 0 where
    nothing : Members
    more : Member → Members → Members

  -- Keys as `str` gives them, and whether the key is a text itself.
  pub data Entries : Type 0 where
    stop : Entries
    named : Str → Bool → Member → Entries → Entries

-- out[k] = v
unfoldable pub put_field : Str → Json → Fields → Fields
put_field k v end = field k v end
put_field k v (field j w fs) =
    let rest = field j w (put_field k v fs) in if eq_str j k then field j v fs else rest

-- a key that the dictionary loses
unfoldable pub is_private : Str → Bool → Bool
unfolding starts_with
is_private k is_text = is_text && starts_with (codes "_") k

unfoldable mutual
  unfolding put_field is_private to_hex

  -- `_container_to_dict`
  pub container_to_dict : Member → Json
  container_to_dict (scalar v) = v
  container_to_dict (bytes bs) = str (to_hex bs)
  container_to_dict (seq vs) = arr (list_of vs)
  container_to_dict (dict es) = obj (dict_from es end)
  container_to_dict (fields_of es) = obj (fields_from es end)

  pub list_of : Members → Items
  list_of nothing = nil
  list_of (more v vs) = cons (container_to_dict v) (list_of vs)

  pub dict_from : Entries → Fields → Fields
  dict_from stop out = out
  dict_from (named k is_text v es) out =
      let kept = dict_from es (put_field k (container_to_dict v) out) in
      let lost = dict_from es out in if is_private k is_text then lost else kept

  pub fields_from : Entries → Fields → Fields
  fields_from stop out = out
  fields_from (named k is_text v es) out = fields_from es (put_field k (container_to_dict v) out)

-- What an account decodes to.
pub record Account : Type 0 where
  pub is_dict : Bool
  pub entries : Entries

unfoldable pub account_dict : Account → Fields
unfolding dict_from fields_from
account_dict a = if a.is_dict then dict_from a.entries end else fields_from a.entries end

-- `AnchorDecoder`, and `_CODER_CACHE`: the coders by the path of their IDL.
pub record Decoder (C : Type 0) : Type 0 where
  pub idl_path : Str
  pub available : Option Bool
  pub coder : Option C
  pub coder_cache : Str → Option C

-- What the disk and anchorpy have at a time. `load` reads and parses the file; any exception is none.
pub record Disk (C : Type 0) : Type 0 where
  pub exists : Str → Bool
  pub resolve : Str → Str
  pub has_anchorpy : Bool
  pub load : Str → Option C

unfoldable pub decoded_of : Fields → Decoded
decoded_of end = bagsvault.Indexer.Stream.end
decoded_of (field k v fs) = entry k (plain v) (decoded_of fs)

-- `if not decoded`
unfoldable pub state_of_dict : (Str → Result ℤ) → Option Fields → Result (Option State)
unfolding decoded_of state_from_decoded_dict
state_of_dict truncate none = ok none
state_of_dict truncate (some end) = ok none
state_of_dict truncate (some (field k v fs)) =
    state_from_decoded_dict truncate (decoded_of (field k v fs))

abbrev is_some_true : Option Bool → Bool
is_some_true none = false
is_some_true (some b) = b

module _ {C : Type 0} where
  unfoldable pub new_decoder : (Str → Option C) → Option Str → Decoder C
  unfolding strip
  new_decoder cache idl_path = record {
    idl_path = strip (path_or_empty idl_path);
    available = none;
    coder = none;
    coder_cache = cache;
  }
    where
      path_or_empty : Option Str → Str
      path_or_empty none = []
      path_or_empty (some path) = path

  abbrev disabled : Decoder C → Decoder C
  disabled d = record d { available = some false }

  abbrev enabled : C → Decoder C → Decoder C
  enabled c d = record d { coder = some c; available = some true }

  abbrev put_coder : Str → C → (Str → Option C) → Str → Option C
  put_coder key c cache k = if eq_str key k then some c else cache k

  -- what parsing the file gave
  unfoldable pub parsed_coder : Str → Decoder C → Option C → Decoder C × Option C
  parsed_coder key d none = (disabled d, none)
  parsed_coder key d (some c) =
      (record (enabled c d) { coder_cache = put_coder key c d.coder_cache }, some c)

  -- the coder of the cache, or of the file
  unfoldable pub cached_or_parsed : Disk C → Str → Decoder C → Option C → Decoder C × Option C
  unfolding parsed_coder
  cached_or_parsed disk key d (some c) = (enabled c d, some c)
  cached_or_parsed disk key d none =
      if disk.has_anchorpy then parsed_coder key d (disk.load d.idl_path) else (disabled d, none)

  unfoldable pub first_load : Disk C → Decoder C → Decoder C × Option C
  unfolding cached_or_parsed
  first_load disk d =
      let key = disk.resolve d.idl_path in
      if is_empty d.idl_path || not (disk.exists d.idl_path)
      then (disabled d, none)
      else cached_or_parsed disk key d (d.coder_cache key)

  unfoldable pub retried : Disk C → Decoder C → Option Bool → Decoder C × Option C
  unfolding first_load
  retried disk d (some false) = (d, none)
  retried disk d (some true) = first_load disk d
  retried disk d none = first_load disk d

  unfoldable pub loaded : Disk C → Decoder C → Option C → Decoder C × Option C
  unfolding retried
  loaded disk d (some c) = (d, some c)
  loaded disk d none = retried disk d d.available

  -- `_load_coder`
  unfoldable pub load_coder : Disk C → Decoder C → Decoder C × Option C
  unfolding loaded
  load_coder disk d = loaded disk d d.coder

  unfoldable pub checked_available : Disk C → Decoder C → Option Bool → Decoder C × Bool
  unfolding load_coder
  checked_available disk d none = let (d', c) = load_coder disk d in (d', is_some_true d'.available)
  checked_available disk d (some b) = (d, b)

  -- `decode_available`
  unfoldable pub decode_available : Disk C → Decoder C → Decoder C × Bool
  unfolding checked_available
  decode_available disk d = checked_available disk d d.available

  -- `coder.accounts.decode`, with none for an exception
  module _ (decode : C → Bytes → Option Account) where
    unfoldable pub dict_of_account : Option Account → Option Fields
    unfolding account_dict
    dict_of_account none = none
    dict_of_account (some a) = some (account_dict a)

    unfoldable pub decode_bytes : C → Option Bytes → Option Fields
    unfolding dict_of_account
    decode_bytes c none = none
    decode_bytes c (some raw) = dict_of_account (decode c raw)

    unfoldable pub decode_by : Option C → Str → Option Fields
    unfolding decode_bytes b64decode
    decode_by none b64 = none
    decode_by (some c) b64 = decode_bytes c (b64decode b64)

    -- `decode_account`
    unfoldable pub decode_account : Disk C → Decoder C → Str → Decoder C × Option Fields
    unfolding decode_by load_coder
    decode_account disk d b64 = let (d', c) = load_coder disk d in (d', decode_by c b64)

    -- `_decode_with_idl`, where there is a decoder
    unfoldable pub decode_with_idl :
        (Str → Result ℤ) → Disk C → Decoder C → Str → Decoder C × Result (Option State)
    unfolding decode_available decode_account state_of_dict
    decode_with_idl truncate disk d b64 =
        let (d', is_there) = decode_available disk d in
        let (d'', decoded) = decode_account disk d' b64 in
        if is_there then (d'', state_of_dict truncate decoded) else (d', ok none)
