-- ===== src/Inference/Distinct.antt =====
-- backend/app/inference/resolver/static.py: the models of a zone are of different files.
use boars_head_compliance_de.Prelude.{
  String, ◌≡◌, ap, sym, ◌∙◌, false, ◌||◌, List, [], ◌∷◌, All, inl, inr, Bool-cases,
}
use text.Mathlib.Text.{◌==◌ as str_eq}
use text.Mathlib.TextEquality.{eq_iff}
use boars_head_compliance_de.Prelude.Dict.{string_eq}
use boars_head_compliance_de.Inference.{ModelSpec, Host}
use boars_head_compliance_de.Inference.Resolver.{seen, dedupe}
use boars_head_compliance_de.Inference.Ensures.{absurd_bool}

module _ (host : Host) where
  open host use {normalised}

  abbrev pub path_of : ModelSpec → String
  path_of s = normalised s.model_path

  -- models of different files
  abbrev pub HasDistinctPaths : List ModelSpec → Type 0
  HasDistinctPaths [] = Unit
  HasDistinctPaths (s ∷ specs) =
      All (λ (t : ModelSpec). ¬ (path_of s ≡ path_of t)) specs × HasDistinctPaths specs

  abbrev IsNew : List String → ModelSpec → Type 0
  IsNew keys s = seen host (path_of s) keys ≡ false

  IsNew-cons :
      (key : String) (keys : List String) (s : ModelSpec)
      → IsNew (key ∷ keys) s
      → (¬ (key ≡ path_of s)) × IsNew keys s
  unfolding seen
  IsNew-cons key keys s h = elim (Bool-cases (str_eq key (path_of s))) [
    | inl e ↦ absurd_bool (sym (ap (λ b. b || seen host (path_of s) keys) e) ∙ h)
    | inr e ↦ (
      λ same. absurd_bool (sym ((eq_iff key (path_of s)).1 same) ∙ e),
      sym (ap (λ b. b || seen host (path_of s) keys) e) ∙ h,
    )
  ]

  All-IsNew-cons :
      (key : String) (keys : List String) (specs : List ModelSpec)
      → All (IsNew (key ∷ keys)) specs
      → All (λ (t : ModelSpec). ¬ (key ≡ path_of t)) specs × All (IsNew keys) specs
  All-IsNew-cons key keys [] h = (tt, tt)
  All-IsNew-cons key keys (s ∷ specs) h =
      let (different, new) = IsNew-cons key keys s h.0 in
      let (all_different, all_new) = All-IsNew-cons key keys specs h.1 in
      ((different, all_different), (new, all_new))

  pub dedupe-distinct :
      (keys : List String) (specs : List ModelSpec)
      → All (IsNew keys) (dedupe host keys specs) × HasDistinctPaths (dedupe host keys specs)
  unfolding dedupe
  dedupe-distinct keys [] = (tt, tt)
  dedupe-distinct keys (s ∷ specs) = elim (Bool-cases (seen host (path_of s) keys)) [
    | inl e ↦ rw e (dedupe-distinct keys specs)
    | inr e ↦
        (let (new, distinct) = dedupe-distinct (path_of s ∷ keys) specs in
          let (all_different, all_new) = All-IsNew-cons (path_of s) keys _ new in
          rw e ((e, all_new), (all_different, distinct)))
  ]

  pub All-dedupe :
      (P : ModelSpec → Type 0) (keys : List String) (specs : List ModelSpec)
      → All P specs
      → All P (dedupe host keys specs)
  unfolding dedupe
  All-dedupe P keys [] h = tt
  All-dedupe P keys (s ∷ specs) h = elim (Bool-cases (seen host (path_of s) keys)) [
    | inl e ↦ rw e (All-dedupe P keys specs h.1)
    | inr e ↦ rw e (h.0, All-dedupe P (path_of s ∷ keys) specs h.1)
  ]
