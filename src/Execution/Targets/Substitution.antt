-- ===== src/Execution/Targets/Substitution.antt =====
-- application/execution_service.py: which weights and target values the substitutions clear.
use ibkrquant.Prelude.{
  ◌≡◌, refl, Bool, ◌&&◌, List, [], ◌∷◌, ◌++◌, Text, Dict, insert, lookup-insert, mem_text, text_eq,
  text_eq_iff, if◌then◌else◌, arith, Bool-cases, inl, inr,
}
use ibkrquant.Number.{Float, ◌⊗◌, ◌≺◌, nought, max}
use ibkrquant.Execution.Sizing.{value_of}
use ibkrquant.Execution.Targets.{substitute_one, substitute_from, project_one, project_from}

module _ {F : Type 0} ⦃f : Float F⦄ where
  -- a weight whose value is positive and below the threshold
  abbrev pub is_small : F → F → F → Bool
  is_small investable threshold weight =
      nought ≺ max nought (investable ⊗ weight) && max nought (investable ⊗ weight) ≺ threshold

  -- a target that is positive and buys less than a quantity step
  abbrev pub is_unbuyable : Dict F → F → Text → F → Bool
  is_unbuyable prices step symbol target =
      nought ≺ max nought (value_of symbol prices)
      && (nought ≺ max nought target
          && max nought target ≺ max nought (value_of symbol prices) ⊗ step)

  value_of-insert :
      (k j : Text) (v : F) (d : Dict F)
      → value_of j (insert k v d) ≡ (if text_eq j k then v else value_of j d)
  value_of-insert k j v d = elim (Bool-cases (text_eq j k)) [
    | inl same ↦ rw (lookup-insert k j v d, same) refl
    | inr other ↦ rw (lookup-insert k j v d, other) refl
  ]

  substitute_one-value :
      (investable threshold : F) (s j : Text) (weights : Dict F)
      → value_of j (substitute_one investable threshold s weights).0 ≡ (
          if text_eq j s && is_small investable threshold (value_of j weights)
          then nought
          else value_of j weights)
  unfolding substitute_one
  substitute_one-value investable threshold s j weights =
      ground (arith, value_of-insert s j nought weights, text_eq_iff j s)

  -- After the substitution of safe havens by cash, a weight is nought if its symbol is among the safe
  -- havens and its value is positive and below the threshold, and every other weight is as it was.
  pub substitute_from-value :
      (investable threshold : F) (havens : List Text) (j : Text) (weights : Dict F)
      (substituted : List Text)
      → value_of j (substitute_from investable threshold havens (weights, substituted)).0 ≡ (
          if mem_text j havens && is_small investable threshold (value_of j weights)
          then nought
          else value_of j weights)
  unfolding substitute_from mem_text
  substitute_from-value investable threshold [] j weights substituted = refl
  substitute_from-value investable threshold (s ∷ havens) j weights substituted =
      let one = substitute_one-value investable threshold s j weights in
      let rest =
        substitute_from-value investable threshold havens j
          (substitute_one investable threshold s weights).0
          (if (substitute_one investable threshold s weights).1
            then substituted ++ s ∷ []
            else substituted) in
      ground (arith, one, rest)

  project_one-value :
      (prices : Dict F) (step : F) (s j : Text) (targets : Dict F)
      → value_of j (project_one prices step s targets).0 ≡ (
          if text_eq j s && is_unbuyable prices step j (value_of j targets)
          then nought
          else value_of j targets)
  unfolding project_one
  project_one-value prices step s j targets =
      ground (arith, value_of-insert s j nought targets, text_eq_iff j s)

  -- After the projection to cash, a target is nought if its symbol is among the candidates and its value
  -- is positive but below the price of one quantity step, and every other target is as it was.
  pub project_from-value :
      (prices : Dict F) (step : F) (candidates : List Text) (j : Text) (targets : Dict F)
      (substituted : List Text)
      → value_of j (project_from prices step candidates (targets, substituted)).0 ≡ (
          if mem_text j candidates && is_unbuyable prices step j (value_of j targets)
          then nought
          else value_of j targets)
  unfolding project_from mem_text
  project_from-value prices step [] j targets substituted = refl
  project_from-value prices step (s ∷ candidates) j targets substituted =
      let one = project_one-value prices step s j targets in
      let rest =
        project_from-value prices step candidates j (project_one prices step s targets).0
          (if (project_one prices step s targets).1 then substituted ++ s ∷ [] else substituted) in
      ground (arith, one, rest)
