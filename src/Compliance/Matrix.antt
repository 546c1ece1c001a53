-- ===== src/Compliance/Matrix.antt =====
-- The detection matrix that is made of the flags.
use bagsvault.Base.{
  Bool, true, false, List, [], ◌∷◌, Option, none, some, Str, ◌≡◌, ◌↔◌, ◌⊎◌, inl, inr, refl,
  Bool-cases, contains, lower, map, arith,
}
use bagsvault.Base.Occurs.{Occurs, contains_sound, contains_complete}
use bagsvault.Json.{Json, null, bool, num, float, str, arr, obj, nil, cons}
use bagsvault.Compliance.{
  flagged, CheckResult, DefaultCheck, default_checks, is_hit, status_of, default_results, checks_of,
}

-- A flag occurs in a label, or the label in a flag.
abbrev pub Hits : List Str → Str → Type 0
Hits [] label = ⊥
Hits (f ∷ fs) label = Occurs f label ⊎ (Occurs label f ⊎ Hits fs label)

contains_of_Occurs : (p s : Str) → Occurs p s → contains p s ≡ true
contains_of_Occurs p s (a, b, e) = rw e (contains_complete p a b)

is_hit_complete : (fs : List Str) (label : Str) → Hits fs label → is_hit fs label ≡ true
unfolding is_hit
is_hit_complete [] label h = absurd h
is_hit_complete (f ∷ fs) label (inl h) = ground (arith, contains_of_Occurs f label h)
is_hit_complete (f ∷ fs) label (inr (inl h)) = ground (arith, contains_of_Occurs label f h)
is_hit_complete (f ∷ fs) label (inr (inr h)) = ground (arith, is_hit_complete fs label h)

is_hit_sound : (fs : List Str) (label : Str) → is_hit fs label ≡ true → Hits fs label
unfolding is_hit
is_hit_sound [] label h = cc
is_hit_sound (f ∷ fs) label h = elim (Bool-cases (contains f label)) [
  | inl e ↦ inl (contains_sound f label e)
  | inr e ↦ elim (Bool-cases (contains label f)) [
    | inl d ↦ inr (inl (contains_sound label f d))
    | inr d ↦ inr (inr (is_hit_sound fs label (ground arith)))
  ]
]

flagged_iff : (b : Bool) → (status_of b ≡ flagged) ↔ (b ≡ true)
unfolding status_of
flagged_iff true = ground arith
flagged_iff false = ground arith

-- The entries in order, each flagged if and only if a flag hits its label.
abbrev pub IsMatrix : List Str → List DefaultCheck → List CheckResult → Type 0
IsMatrix fs [] [] = Unit
IsMatrix fs [] (r ∷ rs) = ⊥
IsMatrix fs (e ∷ es) [] = ⊥
IsMatrix fs (e ∷ es) (r ∷ rs) =
    (r.category ≡ e.category)
    × (r.label ≡ e.label)
    × ((r.status ≡ flagged) ↔ Hits fs (lower e.label))
    × IsMatrix fs es rs

results-IsMatrix :
    (fs : List Str) (entries : List DefaultCheck) → IsMatrix fs entries (default_results fs entries)
unfolding default_results
results-IsMatrix fs [] = tt
results-IsMatrix fs (e ∷ es) =
    let hit = is_hit fs (lower e.label) in
    (
      refl,
      refl,
      (
        (λ h. is_hit_sound fs (lower e.label) ((flagged_iff hit).0 h)),
        λ h. (flagged_iff hit).1 (is_hit_complete fs (lower e.label) h),
      ),
      results-IsMatrix fs es,
    )

abbrev pub NotItemized : Option Json → Type 0
NotItemized (some (arr (cons c items))) = ⊥
NotItemized _ = Unit

-- Where the answer has no list of checks, or an empty one, the matrix has the eight default categories in
-- their order, and a category is flagged if and only if, in lower case, a flag occurs in its label or its label
-- in a flag.
pub checks_of-IsMatrix :
    (show : Json → Str) (flags : List Str) (given : Option Json)
    → NotItemized given
    → IsMatrix (map lower flags) default_checks (checks_of show flags given)
unfolding checks_of
checks_of-IsMatrix show flags none h = results-IsMatrix (map lower flags) default_checks
checks_of-IsMatrix show flags (some (arr nil)) h = results-IsMatrix (map lower flags) default_checks
checks_of-IsMatrix show flags (some (arr (cons c items))) h = absurd h
checks_of-IsMatrix show flags (some null) h = results-IsMatrix (map lower flags) default_checks
checks_of-IsMatrix show flags (some (bool b)) h = results-IsMatrix (map lower flags) default_checks
checks_of-IsMatrix show flags (some (num z)) h = results-IsMatrix (map lower flags) default_checks
checks_of-IsMatrix show flags (some (float t)) h = results-IsMatrix (map lower flags) default_checks
checks_of-IsMatrix show flags (some (str s)) h = results-IsMatrix (map lower flags) default_checks
checks_of-IsMatrix show flags (some (obj fs)) h = results-IsMatrix (map lower flags) default_checks
