-- ===== src/Anonymity.antt =====
-- backend/app/routers/anonymity.py: `GET /anonymity/merkle-path` and `GET /merkle/root`. SHA-256 of the
-- concatenation of two nodes is an argument, `hash_pair`; so is what the database's query returns.
pub mod Positions
pub mod Witness
pub mod Served
pub mod Tree
use bagsvault.Base.{
  ℕ, zero, suc, ◌+◌, ◌-◌, ◌/◌, ◌%◌, Bool, true, false, List, [], ◌∷◌, ◌++◌, map, Option, none, some,
  Str, codes, ◌==◌, ltb, length, replicate, starts_with, drop, if◌then◌else◌, ◌||◌,
}
use bagsvault.Base.Hex.{from_hex, pad32, to_hex}
use bagsvault.Exceptions.{Exn, domain, not_found, Result, ok, err}
use bagsvault.Solana.Instruction.{Bytes}

abbrev pub merkle_tree_depth : ℕ
merkle_tree_depth = 20

abbrev pub zero32 : Bytes
zero32 = replicate 32 0

-- A document of the query: `merkle_index` if it is an int, and `commitment` if it is a text.
pub record CommitmentDoc : Type 0 where
  pub merkle_index : Option ℕ
  pub commitment : Option Str

or_zero32 : Option Bytes → Bytes
or_zero32 none = zero32
or_zero32 (some bytes) = bytes

-- the commitment as 32 bytes; zeroes where it is no hexadecimal text
unfoldable pub leaf_bytes : Str → Bytes
unfolding or_zero32 from_hex pad32
leaf_bytes commit_hex =
    let bare = if starts_with (codes "0x") commit_hex then drop 2 commit_hex else commit_hex in
    pad32 (or_zero32 (from_hex bare))

-- `commitments` and `found_target`
pub record Loaded : Type 0 where
  pub commitments : List Bytes
  pub found_target : Bool

-- gaps are padded with zero leaves, then the leaf is appended
place : ℕ → ℕ → Bytes → Loaded → Loaded
place leaf_index idx leaf l = record {
  commitments = l.commitments ++ (replicate (idx - length l.commitments) zero32 ++ (leaf ∷ []));
  found_target = l.found_target || idx == leaf_index;
}

load_doc : ℕ → Option ℕ → Option Str → Loaded → Loaded
unfolding place leaf_bytes
load_doc leaf_index none commit l = l
load_doc leaf_index (some idx) none l = l
load_doc leaf_index (some idx) (some commit_hex) l = place leaf_index idx (leaf_bytes commit_hex) l

-- the loop over the cursor
unfoldable pub load_from : ℕ → List CommitmentDoc → Loaded → Loaded
unfolding load_doc
load_from leaf_index [] l = l
load_from leaf_index (doc ∷ docs) l =
    load_from leaf_index docs (load_doc leaf_index doc.merkle_index doc.commitment l)

abbrev pub nothing_loaded : Loaded
nothing_loaded = record { commitments = []; found_target = false }

unfoldable pub is_even : ℕ → Bool
is_even n = n % 2 == 0

-- One insertion: the levels' new `filled`, the siblings and sides that are recorded, and the root.
pub record Inserted : Type 0 where
  pub filled : List Bytes
  pub siblings : List Bytes
  pub is_left : List Bool
  pub root : Bytes

-- `target_path` and `target_is_left`
pub record Target : Type 0 where
  pub path : List Bytes
  pub is_left : List Bool

recorded : Bool → Inserted → Target → Target
recorded true i t = record { path = i.siblings; is_left = i.is_left }
recorded false i t = t

abbrev pub start_target : Target
start_target = record {
  path = replicate merkle_tree_depth zero32;
  is_left = replicate merkle_tree_depth true;
}

-- [(leaf_index >> level) & 1 == 0 for level in range(n)]
unfoldable pub sides : ℕ → ℕ → List Bool
sides zero index = []
sides (suc n) index = is_even index ∷ sides n (index / 2)

pub record MerklePath : Type 0 where
  pub leaf_index : ℕ
  pub depth : ℕ
  pub siblings : List Str
  pub is_left : List Bool
  pub source : Str

module _ (hash_pair : Bytes → Bytes → Bytes) where
  at_level : Bool → Bytes → Bytes → Inserted → Inserted
  at_level true f current up = record {
    filled = current ∷ up.filled;
    siblings = f ∷ up.siblings;
    is_left = true ∷ up.is_left;
    root = up.root;
  }
  at_level false f current up = record {
    filled = f ∷ up.filled;
    siblings = zero32 ∷ up.siblings;
    is_left = false ∷ up.is_left;
    root = up.root;
  }

  bubble : Bool → Bytes → Bytes → Bytes
  bubble true f current = hash_pair current zero32
  bubble false f current = hash_pair f current

  -- the loop over the levels, from a node and its index at the lowest of them
  unfoldable pub insert_leaf : Bytes → ℕ → List Bytes → Inserted
  unfolding at_level bubble
  insert_leaf current index [] = record { filled = []; siblings = []; is_left = []; root = current }
  insert_leaf current index (f ∷ fs) =
      at_level (is_even index) f current
        (insert_leaf (bubble (is_even index) f current) (index / 2) fs)

  -- the loop over the commitments
  unfoldable pub replay : ℕ → ℕ → List Bytes → List Bytes → Target → Target
  unfolding insert_leaf recorded
  replay leaf_index idx filled [] t = t
  replay leaf_index idx filled (leaf ∷ leaves) t =
      let i = insert_leaf leaf idx filled in
      replay leaf_index (suc idx) i.filled leaves (recorded (idx == leaf_index) i t)

  path_of : ℕ → Loaded → Result MerklePath
  unfolding replay sides to_hex
  path_of leaf_index l = elim l.commitments [
    | [] ↦ ok (record {
      leaf_index = leaf_index;
      depth = merkle_tree_depth;
      siblings = replicate merkle_tree_depth (to_hex zero32);
      is_left = sides merkle_tree_depth leaf_index;
      source = codes "fallback-empty";
    })
    | c ∷ cs ↦
        if l.found_target
        then (let t =
              replay leaf_index 0 (replicate merkle_tree_depth zero32) (c ∷ cs) start_target in
            ok (record {
              leaf_index = leaf_index;
              depth = merkle_tree_depth;
              siblings = map to_hex t.path;
              is_left = t.is_left;
              source = codes "reconstructed";
            }))
        else err (domain not_found (codes "leaf_index not yet recorded in db.commitments."))
  ]

  unfoldable pub get_merkle_path : ℕ → List CommitmentDoc → Result MerklePath
  unfolding path_of load_from
  get_merkle_path leaf_index docs = path_of leaf_index (load_from leaf_index docs nothing_loaded)
