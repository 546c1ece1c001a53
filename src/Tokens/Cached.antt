-- ===== src/Tokens/Cached.antt =====
-- The cache of metadata.
use bagsvault.Base.{
  ℕ, ◌-◌, ◌<◌, ◌≤◌, Bool, true, false, List, ◌∷◌, none, some, Str, ◌≡◌, refl, eq_str_refl, ltb,
  arith, if◌then◌else◌,
}
use bagsvault.Json.{Json}
use bagsvault.Exceptions.{Result, ok}
use bagsvault.Tokens.{Entry, ttl, cached_entry, fetched, fetch_from, fetch_live_metadata}

ltb_of_lt : (m n : ℕ) → m < n → ltb m n ≡ true
ltb_of_lt m n h = ground arith

ltb_of_le : (m n : ℕ) → n ≤ m → ltb m n ≡ false
ltb_of_le m n h = ground arith

abbrev entry : ℕ → Str → Json → Entry
entry now mint live = record { mint = mint; fetched_at = now; live = live }

fetched_first :
    (cache : List Entry) (now : ℕ) (mint : Str) (live : Json)
    → cached_entry cache mint ≡ none
    → fetch_live_metadata cache now mint (ok live)
      ≡ (entry now mint live ∷ cache, record { live = some live; error = none })
unfolding fetch_live_metadata fetch_from fetched
fetched_first cache now mint live unknown = rw unknown

found_first :
    (cache : List Entry) (now : ℕ) (mint : Str) (live : Json)
    → cached_entry (entry now mint live ∷ cache) mint ≡ some (entry now mint live)
unfolding cached_entry
found_first cache now mint live = rw (eq_str_refl mint)

-- If an entry of the mint is in the cache, it decides by its age alone.
served_by_age :
    (cache : List Entry) (now now' : ℕ) (mint : Str) (live : Json) (answer : Result Json)
    (young : Bool)
    → ltb (now' - now) ttl ≡ young
    → fetch_live_metadata (entry now mint live ∷ cache) now' mint answer ≡ (
        if young
        then (entry now mint live ∷ cache, record { live = some live; error = none })
        else fetched (entry now mint live ∷ cache) now' mint answer)
unfolding fetch_live_metadata fetch_from
served_by_age cache now now' mint live answer young h = rw (found_first cache now mint live) (rw h)

-- After the metadata of a mint was fetched at some time, a second request that comes less than 60
-- seconds later gets the same data and no error, whatever Bags would answer, and leaves the cache; one
-- that comes 60 seconds later or more gets what Bags answers then.
fetch_live_metadata_again :
    (cache : List Entry) (now now' : ℕ) (mint : Str) (live : Json) (answer : Result Json)
    → cached_entry cache mint ≡ none
    → let first = fetch_live_metadata cache now mint (ok live) in
      (first.1 ≡ record { live = some live; error = none })
      × (now' - now < ttl
          → fetch_live_metadata first.0 now' mint answer
            ≡ (first.0, record { live = some live; error = none }))
      × (ttl ≤ now' - now
          → fetch_live_metadata first.0 now' mint answer ≡ fetched first.0 now' mint answer)
fetch_live_metadata_again cache now now' mint live answer unknown =
    rw (fetched_first cache now mint live unknown) (
      refl,
      (λ young.
          served_by_age cache now now' mint live answer true (ltb_of_lt (now' - now) ttl young)),
      λ old. served_by_age cache now now' mint live answer false (ltb_of_le (now' - now) ttl old),
    )
