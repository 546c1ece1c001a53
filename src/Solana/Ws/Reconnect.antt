-- ===== src/Solana/Ws/Reconnect.antt =====
-- The reconnect loop: what a subscriber gets, and when.
use bagsvault.Base.{
  ℕ, suc, ◌^◌, min, ◌++◌, false, List, [], ◌∷◌, Str, ◌≡◌, ◌≢◌, refl, ◌∙◌, ap, arith,
}
use bagsvault.Json.{Json, Fields}
use bagsvault.Exceptions.{Result}
use bagsvault.Solana.Ws.{
  max_backoff, Ending, closed, failed, cancelled, Connection, Given, open_stream, Event, yielded,
  slept, Trace, yield_all, backoff_after, next_backoff, round_end, reconnect_loop,
}

-- The items among the events.
abbrev pub items_in : List Event → List Fields
items_in [] = []
items_in (yielded item ∷ es) = item ∷ items_in es
items_in (slept n ∷ es) = items_in es

-- The pauses among the events.
abbrev pub pauses_in : List Event → List ℕ
pauses_in [] = []
pauses_in (yielded item ∷ es) = pauses_in es
pauses_in (slept n ∷ es) = n ∷ pauses_in es

module _ (loads : Str → Result Json) where
  abbrev pub given_by : Connection → Given
  given_by c = open_stream loads c.msgs c.ending

  -- No connection is cancelled, nor a pause.
  abbrev pub Uncancelled : List Connection → Type 0
  Uncancelled [] = Unit
  Uncancelled (c ∷ cs) =
      ((given_by c).ending ≢ cancelled) × (c.is_cancelled_after ≡ false) × Uncancelled cs

  abbrev pub all_items : List Connection → List Fields
  all_items [] = []
  all_items (c ∷ cs) = (given_by c).items ++ all_items cs

  abbrev quiet : ℕ → List Fields → ℕ
  quiet k [] = k
  quiet k (item ∷ items) = 0

  -- The pause after each connection: after `k` connections in a row that gave nothing, this one not counted,
  -- it is the k-th power of two, but at most 30 seconds.
  abbrev pub pauses_from : ℕ → List Connection → List ℕ
  pauses_from k [] = []
  pauses_from k (c ∷ cs) =
      let j = quiet k (given_by c).items in min (2 ^ j) max_backoff ∷ pauses_from (suc j) cs

  -- what a round does, where nothing is cancelled
  round_end-goes :
      (ending : Ending) (n : ℕ) (t : Trace)
      → ending ≢ cancelled
      → round_end ending false n t ≡ record t { events = slept n ∷ t.events }
  unfolding round_end
  round_end-goes closed n t h = refl
  round_end-goes failed n t h = refl
  round_end-goes cancelled n t h = absurd (h refl)

  items-yield_all :
      (items : List Fields) (t : Trace)
      → items_in (yield_all items t).events ≡ items ++ items_in t.events
  unfolding yield_all
  items-yield_all [] t = refl
  items-yield_all (item ∷ items) t = ap (λ xs. item ∷ xs) (items-yield_all items t)

  pauses-yield_all :
      (items : List Fields) (t : Trace) → pauses_in (yield_all items t).events ≡ pauses_in t.events
  unfolding yield_all
  pauses-yield_all [] t = refl
  pauses-yield_all (item ∷ items) t = pauses-yield_all items t

  goes_on-yield_all :
      (items : List Fields) (t : Trace) → (yield_all items t).is_cancelled ≡ t.is_cancelled
  unfolding yield_all
  goes_on-yield_all [] t = refl
  goes_on-yield_all (item ∷ items) t = goes_on-yield_all items t

  backoff-quiet :
      (items : List Fields) (k : ℕ)
      → backoff_after items (min (2 ^ k) max_backoff) ≡ min (2 ^ quiet k items) max_backoff
  unfolding backoff_after
  backoff-quiet [] k = refl
  backoff-quiet (item ∷ items) k = refl

  next-power : (j : ℕ) → next_backoff (min (2 ^ j) max_backoff) ≡ min (2 ^ suc j) max_backoff
  unfolding next_backoff
  next-power j = omega arith

  -- What a run of the loop gives, from a pause that belongs to `k` connections without an item.
  loop_from :
      (k : ℕ) (cs : List Connection)
      → Uncancelled cs
      → let t = reconnect_loop loads (min (2 ^ k) max_backoff) cs in
        (items_in t.events ≡ all_items cs)
        × (pauses_in t.events ≡ pauses_from k cs)
        × (t.is_cancelled ≡ false)
  unfolding reconnect_loop
  loop_from k [] h = (refl, refl, refl)
  loop_from k (c ∷ cs) (going, calm, rest) =
      let g = given_by c in
      let j = quiet k g.items in
      let (items, pauses, on) = loop_from (suc j) cs rest in
      let t = reconnect_loop loads (min (2 ^ suc j) max_backoff) cs in
      let ends = round_end-goes g.ending (min (2 ^ j) max_backoff) t going in
      rw (backoff-quiet g.items k, next-power j, calm, ends)
        (
          items-yield_all g.items _ ∙ ap (λ xs. g.items ++ xs) items,
          pauses-yield_all g.items _ ∙ ap (λ xs. min (2 ^ j) max_backoff ∷ xs) pauses,
          goes_on-yield_all g.items _ ∙ on,
        )

  -- Over any connections of which none is cancelled, however they end, a subscription goes on: it yields the
  -- items of all of them in order, and pauses once after each, for 1 second after one that gave an item, and
  -- otherwise for twice the time of the pause before, but at most 30 seconds.
  pub reconnect_loop-resumes :
      (cs : List Connection)
      → Uncancelled cs
      → let t = reconnect_loop loads 1 cs in
        (items_in t.events ≡ all_items cs)
        × (pauses_in t.events ≡ pauses_from 0 cs)
        × (t.is_cancelled ≡ false)
  reconnect_loop-resumes cs h = loop_from 0 cs h
