-- ===== src/Indexer/Found.antt =====
-- The roots that a stream gives, in the store.
use bagsvault.Base.{
  ℕ, List, [], ◌∷◌, Option, none, some, Str, ◌≡◌, refl, ◌∙◌, ap, All, eq_str, eq_str_iff,
  Bool-cases, inl, inr,
}
use bagsvault.Json.{Json, Fields}
use bagsvault.Exceptions.{Exn, Result, ok, err}
use bagsvault.Mongo.{Insert, inserted, duplicate, failed}
use bagsvault.Indexer.{
  MerkleRoot, State, Sources, root_row, recorded, store_state, store_decoded, from_b64,
  record_from_account,
}
use bagsvault.Indexer.Sync.{Unique, recorded-found}
use bagsvault.Indexer.Stream.{Arrival, Stream, take_notification, updates_after, root_updates}

module _ {M : Type 0} (sources : Sources M) (unique : Unique sources) where
  -- A row of a store.
  abbrev pub IsStored : M → MerkleRoot → Type 0
  IsStored m row = (k : Str) × (sources.merkle_roots.find_one m k ≡ some row)

  abbrev Grows : M → M → Type 0
  Grows m m' =
      (k : Str) (row : MerkleRoot)
      → sources.merkle_roots.find_one m k ≡ some row
      → sources.merkle_roots.find_one m' k ≡ some row

  -- the store grows, and has the row that is the answer
  abbrev IsKept : M → M × Result (Option MerkleRoot) → Type 0
  IsKept m (m', r) = Grows m m' × ((row : MerkleRoot) → r ≡ ok (some row) → IsStored m' row)

  idle-IsKept : (m : M) → IsKept m (m, ok none)
  idle-IsKept m = ((λ k row h. h), λ row h. absurd (cc))

  failed-IsKept : (m : M) (e : Exn) → IsKept m (m, err e)
  failed-IsKept m e = ((λ k row h. h), λ row h. absurd (cc))

  insert-Grows :
      (m m' : M) (new : MerkleRoot)
      → sources.merkle_roots.insert_one m new ≡ inserted m'
      → Grows m m'
  insert-Grows m m' new h k row found = elim (Bool-cases (eq_str new.root k)) [
    | inl e ↦
        let same = (eq_str_iff new.root k).0 e in
        let gone = unique.laws.insert-unique m m' new h in absurd (cc)
    | inr e ↦ unique.laws.find-insert m m' new k h ∙ rw e found
  ]

  recorded-IsKept :
      (m : M) (new : MerkleRoot) (i : Insert M)
      → sources.merkle_roots.insert_one m new ≡ i
      → IsKept m (recorded sources m new i)
  unfolding recorded
  recorded-IsKept m new (inserted m') e = (
    insert-Grows m m' new e,
    λ row h. (new.root, recorded-found sources unique m m' new row (inserted m') e (cc)),
  )
  recorded-IsKept m new duplicate e = (
    (λ k row h. h),
    λ row h. (new.root, recorded-found sources unique m m new row duplicate e (ap (λ r. (m, r)) h)),
  )
  recorded-IsKept m new (failed message) e = ((λ k row h. h), λ row h. absurd (cc))

  store_decoded-IsKept :
      (now : ℕ) (m : M) (rent : Option Json) (r : Result (Option State))
      → IsKept m (store_decoded sources now m rent r)
  unfolding store_decoded store_state
  store_decoded-IsKept now m rent (err e) = failed-IsKept m e
  store_decoded-IsKept now m rent (ok none) = idle-IsKept m
  store_decoded-IsKept now m rent (ok (some st)) = recorded-IsKept m (root_row now rent st) _ refl

  from_b64-IsKept :
      (now : ℕ) (m : M) (rent : Option Json) (b64 : Option Str)
      → IsKept m (from_b64 sources now m rent b64)
  unfolding from_b64
  from_b64-IsKept now m rent none = idle-IsKept m
  from_b64-IsKept now m rent (some b64) = store_decoded-IsKept now m rent _

  take-IsKept :
      (now : ℕ) (m : M) (account : Option Fields)
      → IsKept m (take_notification sources now m account)
  unfolding take_notification record_from_account
  take-IsKept now m none = idle-IsKept m
  take-IsKept now m (some account) = from_b64-IsKept now m _ _

  -- The same of a stream, from a store.
  abbrev IsKeptBy : M → Stream M → Type 0
  IsKeptBy m s = Grows m s.store × All (IsStored s.store) s.roots

  after-IsKept :
      (m : M) (rest : M → Stream M) (p : M × Result (Option MerkleRoot))
      → IsKept m p
      → ((m' : M) → IsKeptBy m' (rest m'))
      → IsKeptBy m (updates_after sources rest p)
  unfolding updates_after
  after-IsKept m rest (m', err e) (grows, stored) next = (grows, tt)
  after-IsKept m rest (m', ok none) (grows, stored) next =
      let (grown, all) = next m' in ((λ k row h. grown k row (grows k row h)), all)
  after-IsKept m rest (m', ok (some row)) (grows, stored) next =
      let (grown, all) = next m' in
      let (k, found) = stored row refl in
      ((λ j r h. grown j r (grows j r h)), ((k, grown k row found), all))

  -- With the unique index on the root, a stream of notifications only adds rows, also where an exception
  -- ends it, and every row that it has given is in the store at its end.
  pub root_updates-IsStored :
      (m : M) (arrivals : List Arrival)
      → let s = root_updates sources m arrivals in
        ((k : Str) (row : MerkleRoot)
          → sources.merkle_roots.find_one m k ≡ some row
          → sources.merkle_roots.find_one s.store k ≡ some row)
        × All (IsStored s.store) s.roots
  unfolding root_updates
  root_updates-IsStored m [] = ((λ k row h. h), tt)
  root_updates-IsStored m (a ∷ as') =
      after-IsKept m (λ m'. root_updates sources m' as') _ (take-IsKept a.now m _)
        λ m'. root_updates-IsStored m' as'
