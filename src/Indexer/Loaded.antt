-- ===== src/Indexer/Loaded.antt =====
-- The coder of the IDL, loaded once.
use bagsvault.Base.{
  Bool, true, false, not, ◌||◌, Option, none, some, Str, ◌≡◌, refl, is_empty, Bool-cases, inl, inr,
}
use bagsvault.Indexer.Anchor.{
  Decoder, Disk, parsed_coder, cached_or_parsed, first_load, retried, loaded, load_coder,
}

module _ {C : Type 0} where
  -- Settled on an answer: there is a coder, or it is known that there is none.
  abbrev IsSettled : Decoder C × Option C → Type 0
  IsSettled (d, none) = (d.coder ≡ none) × (d.available ≡ some false)
  IsSettled (d, some c) = d.coder ≡ some c

  parsed-IsSettled :
      (key : Str) (d : Decoder C) (o : Option C) → d.coder ≡ none → IsSettled (parsed_coder key d o)
  unfolding parsed_coder
  parsed-IsSettled key d none h = (h, refl)
  parsed-IsSettled key d (some c) h = refl

  cached-IsSettled :
      (disk : Disk C) (key : Str) (d : Decoder C) (o : Option C)
      → d.coder ≡ none
      → IsSettled (cached_or_parsed disk key d o)
  unfolding cached_or_parsed
  cached-IsSettled disk key d (some c) h = refl
  cached-IsSettled disk key d none h = elim (Bool-cases disk.has_anchorpy) [
    | inl e ↦ rw e (parsed-IsSettled key d _ h)
    | inr e ↦ rw e (h, refl)
  ]

  first-IsSettled : (disk : Disk C) (d : Decoder C) → d.coder ≡ none → IsSettled (first_load disk d)
  unfolding first_load
  first-IsSettled disk d h =
      elim (Bool-cases (is_empty d.idl_path || not (disk.exists d.idl_path))) [
        | inl e ↦ rw e (h, refl)
        | inr e ↦ rw e (cached-IsSettled disk _ d _ h)
      ]

  retried-IsSettled :
      (disk : Disk C) (d : Decoder C) (a : Option Bool)
      → d.available ≡ a
      → d.coder ≡ none
      → IsSettled (retried disk d a)
  unfolding retried
  retried-IsSettled disk d (some false) e h = (h, e)
  retried-IsSettled disk d (some true) e h = first-IsSettled disk d h
  retried-IsSettled disk d none e h = first-IsSettled disk d h

  loaded-IsSettled :
      (disk : Disk C) (d : Decoder C) (o : Option C) → d.coder ≡ o → IsSettled (loaded disk d o)
  unfolding loaded
  loaded-IsSettled disk d (some c) h = h
  loaded-IsSettled disk d none h = retried-IsSettled disk d d.available refl h

  settled-again : (disk : Disk C) (p : Decoder C × Option C) → IsSettled p → load_coder disk p.0 ≡ p
  unfolding load_coder loaded retried
  settled-again disk (d, none) (h, e) = rw (h, e)
  settled-again disk (d, some c) h = rw h

  -- What the first use of a decoder finds is remembered: whatever the disk, the cache and the settings have
  -- become by then, a later load changes nothing and gives the same coder, or none again.
  load_coder_again :
      (disk later : Disk C) (d : Decoder C)
      → load_coder later (load_coder disk d).0 ≡ load_coder disk d
  load_coder_again disk later d =
      settled-again later (load_coder disk d)
        (unfold load_coder in loaded-IsSettled disk d d.coder refl)
