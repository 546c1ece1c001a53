-- ===== src/Solana/Classify/Markers.antt =====
-- The classification against its description: which markers occur in the text.
use bagsvault.Base.{
  List, arith, sym, ◌∙◌, ◌≡◌, ◌↔◌, refl, inl, inr, Bool, true, false, Str, lower, contains_any,
  if◌then◌else◌, Bool-cases,
}
use bagsvault.Base.Occurs.{AnyOccurs, contains_any_sound, contains_any_complete}
use bagsvault.Solana.Classify.{
  Class, retryable, fatal, RpcError, error_text, retryable_markers, fatal_markers,
  classify_rpc_error,
}

abbrev pub text_of : RpcError → Str
text_of e = lower (error_text e)

verdict : Bool → Bool → Class
verdict is_fatal is_passing = if is_fatal then fatal else if is_passing then retryable else fatal

verdict_iff : (f r : Bool) → (verdict f r ≡ retryable) ↔ ((f ≡ false) × (r ≡ true))
unfolding verdict
verdict_iff true r = ground arith
verdict_iff false true = ground arith
verdict_iff false false = ground arith

classify-verdict :
    (e : RpcError)
    → classify_rpc_error e
      ≡ verdict
          (contains_any fatal_markers (text_of e))
          (contains_any retryable_markers (text_of e))
unfolding classify_rpc_error verdict
classify-verdict e = refl

none_occurs : (ps : List Str) (s : Str) → (contains_any ps s ≡ false) ↔ (AnyOccurs ps s → ⊥)
none_occurs ps s = (
  (λ h occurs. let h' = contains_any_complete ps s occurs in absurd (cc)),
  λ never. elim (Bool-cases (contains_any ps s)) [
    | inl e ↦ absurd (never (contains_any_sound ps s e))
    | inr e ↦ e
  ],
)

-- An error is worth a retry if and only if no fatal marker occurs in its text, in lower case, and some
-- marker of a passing failure does.
pub classify_rpc_error_iff :
    (e : RpcError)
    → (classify_rpc_error e ≡ retryable)
      ↔ ((AnyOccurs fatal_markers (text_of e) → ⊥) × AnyOccurs retryable_markers (text_of e))
classify_rpc_error_iff e =
    let iff =
      verdict_iff (contains_any fatal_markers (text_of e))
        (contains_any retryable_markers (text_of e)) in
    let none = none_occurs fatal_markers (text_of e) in
    (
      (λ h.
          let (f, r) = iff.0 (sym (classify-verdict e) ∙ h) in
          (none.0 f, contains_any_sound retryable_markers (text_of e) r)),
      λ (never, found).
          classify-verdict e
          ∙ iff.1 (none.1 never, contains_any_complete retryable_markers (text_of e) found),
    )
