-- ===== src/Deposits/AnonymitySet.antt =====
-- `get_anonymity_set` of backend/app/services/deposit_service.py.
use bagsvault.Base.{ℕ, Option, none, some, Str, codes, replicate}
use bagsvault.Indexer.{MerkleRoot}
use bagsvault.Indexer.Stream.{Newest, get_current_root}
use bagsvault.Deposits.{Commitments}

pub record AnonymitySet : Type 0 where
  pub count : ℕ
  pub current_root : Str
  pub updated_at : ℕ
  pub source : Str

-- the cached root, or that of an empty tree
unfoldable pub set_of : ℕ → ℕ → Option MerkleRoot → AnonymitySet
set_of now count (some current) = record {
  count = count;
  current_root = current.root;
  updated_at = current.indexed_at;
  source = current.source;
}
set_of now count none = record {
  count = count;
  current_root = replicate 64 b'0';
  updated_at = now;
  source = codes "fallback";
}

unfoldable pub get_anonymity_set :
    {S M : Type 0} → Commitments S → Newest M → ℕ → S → M → AnonymitySet
unfolding set_of get_current_root
get_anonymity_set commitments cache now s m =
    set_of now (commitments.count_documents s) (get_current_root cache m)
