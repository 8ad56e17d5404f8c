-- ===== src/Search/Matching/Evidence.antt =====
-- The evidence by which jobs of product and design are matched.
use jobs_scraper_global.Prelude.{
  ℕ, ◌+◌, ◌≤◌, min, String, ◌≡◌, refl, sym, ◌∙◌, ap, ◌⊎◌, inl, inr, Bool, true, false, Option, some,
  List, [], ◌∷◌, ◌++◌, filter, length, eqb, All, arith, Bool-cases, All, filter-append,
  length-append,
}
use jobs_scraper_global.Search.Filters.Comparable.{Unicode}
use jobs_scraper_global.Search.Matching.Words.{MatchableJob, JobClassification, job_match_text}
use jobs_scraper_global.Search.Matching.Technologies.{TechnologyExperience, Match, names_of}
use jobs_scraper_global.Search.Matching.Profile.{
  MatchPreferences, Professional, product, product_design, professional_of, Evidence, no_evidence,
  Clue, clue, gather, add_if, is_nonempty, skills_reason,
}
use jobs_scraper_global.Search.Matching.Professional.{
  skill_points, sum_points, is_markup, is_relevant, matched_skills, clues_of, evidence_of,
  with_skills, match_of, score_evidence, score_family, score_classified, score_professional_job,
}

abbrev IsEvident : Evidence → Type 0
IsEvident e = ((e.points ≡ 0) × (e.reasons ≡ [])) ⊎ ((2 ≤ e.points) × (1 ≤ length e.reasons))

add_if-IsEvident :
    (test : Bool) (points : ℕ) (reason : String) (e : Evidence)
    → (test ≡ true → 2 ≤ points)
    → IsEvident e
    → IsEvident (add_if test points reason e)
add_if-IsEvident false points reason e h v = v
add_if-IsEvident true points reason e h v =
    inr (omega (arith, h refl), omega (arith, length-append e.reasons (reason ∷ [])))

-- A clue that holds adds two points at least.
abbrev IsWorth : Clue → Type 0
IsWorth (clue test points reason) = 2 ≤ points

gather-IsEvident :
    (clues : List Clue) (e : Evidence)
    → All IsWorth clues
    → IsEvident e
    → IsEvident (gather clues e)
gather-IsEvident [] e h v = v
gather-IsEvident (clue test points reason ∷ clues) e (h, hs) v =
    gather-IsEvident clues (add_if test points reason e) hs
      (add_if-IsEvident test points reason e (λ t. h) v)

module _ (u : Unicode) (locale_le : String → String → Bool) where
  skill_points-le :
      (family : Professional) (t : TechnologyExperience) → 2 ≤ skill_points u locale_le family t
  unfolding skill_points
  skill_points-le product t = omega arith
  skill_points-le product_design t = elim (Bool-cases (is_markup u locale_le t)) [
    | inl markup ↦ rw (skill_points, markup) (omega arith)
    | inr other ↦ rw (skill_points, other) (omega arith)
  ]

  sum_points-le :
      (family : Professional) (ts : List TechnologyExperience)
      → is_nonempty ts ≡ true
      → 2 ≤ min 30 (sum_points u locale_le family ts)
  unfolding sum_points
  sum_points-le family [] h = cc
  sum_points-le family (t ∷ ts) h = omega (arith, skill_points-le family t)

  clues_of-IsWorth :
      (family : Professional) (c : JobClassification) (job : MatchableJob) (text : String)
      (p : MatchPreferences)
      → All IsWorth (clues_of u locale_le family c job text p)
  unfolding clues_of
  clues_of-IsWorth family c job text p = omega arith

  evidence-IsEvident :
      (family : Professional) (c : JobClassification) (job : MatchableJob) (text : String)
      (p : MatchPreferences)
      → IsEvident (evidence_of u locale_le family c job text p)
  unfolding evidence_of
  evidence-IsEvident family c job text p =
      gather-IsEvident (clues_of u locale_le family c job text p) no_evidence
        (clues_of-IsWorth family c job text p) (inl (refl, refl))

  by_family :
      (f : Option String) (family : Professional) (c : JobClassification) (job : MatchableJob)
      (ts : List TechnologyExperience) (p : MatchPreferences)
      → professional_of f ≡ some family
      → score_family u locale_le (professional_of f) c job ts p
        ≡ score_evidence u locale_le family c job ts p
  unfolding score_family
  by_family f family c job ts p h = ap (λ o. score_family u locale_le o c job ts p) h

  match_of-IsEvident :
      (names : List String) (e : Evidence) (m : Match)
      → IsEvident e
      → match_of u locale_le names e ≡ some m
      → (57 ≤ m.score) × (m.score ≤ 99) × (1 ≤ length m.reasons)
  match_of-IsEvident names e m v h = elim (Bool-cases (eqb e.points 0)) [
    | inl nothing ↦ cc (rw (match_of, nothing) at h)
    | inr something ↦ elim v [
      | inl blank ↦ ground (arith, blank.0)
      | inr found ↦
          let score : min 99 (55 + e.points) ≡ m.score = cc (rw (match_of, something) at h) in
          let reasons : e.reasons ≡ m.reasons = cc (rw (match_of, something) at h) in
          (
            omega (arith, score, found.0),
            omega (arith, score),
            omega (arith, ap (length {A = String}) reasons, found.1),
          )
    ]
  ]

  with_skills-IsEvident :
      (family : Professional) (matched : List TechnologyExperience) (e : Evidence)
      → IsEvident e
      → IsEvident (with_skills u locale_le family matched e)
  unfolding with_skills
  with_skills-IsEvident family matched e v =
      add_if-IsEvident (is_nonempty matched) (min 30 (sum_points u locale_le family matched))
        (skills_reason family) e (sum_points-le family matched) v

  score_evidence-IsEvident :
      (family : Professional) (c : JobClassification) (job : MatchableJob)
      (ts : List TechnologyExperience) (p : MatchPreferences) (m : Match)
      → score_evidence u locale_le family c job ts p ≡ some m
      → (57 ≤ m.score) × (m.score ≤ 99) × (1 ≤ length m.reasons)
  unfolding score_evidence
  score_evidence-IsEvident family c job ts p m h =
      let text = job_match_text u job in
      let matched =
        matched_skills u locale_le text
          (filter (is_relevant u locale_le family) (ts ++ p.skills)) in
      let e = evidence_of u locale_le family c job text p in
      match_of-IsEvident (names_of matched) (with_skills u locale_le family matched e) m
        (with_skills-IsEvident family matched e (evidence-IsEvident family c job text p)) h

  -- The same technologies of the vocabulary.
  score_evidence-relevant :
      (family : Professional) (c : JobClassification) (job : MatchableJob)
      (ts ts' : List TechnologyExperience) (p : MatchPreferences)
      → filter (is_relevant u locale_le family) ts ≡ filter (is_relevant u locale_le family) ts'
      → score_evidence u locale_le family c job ts p ≡ score_evidence u locale_le family c job ts' p
  unfolding score_evidence
  score_evidence-relevant family c job ts ts' p e =
      ap
        (λ relevant.
          let matched = matched_skills u locale_le (job_match_text u job) relevant in
          match_of u locale_le (names_of matched) (
            with_skills u locale_le family matched
              (evidence_of u locale_le family c job (job_match_text u job) p)))
        (filter-append (is_relevant u locale_le family) ts p.skills
          ∙ ap (λ rs. rs ++ filter (is_relevant u locale_le family) p.skills) e
          ∙ sym (filter-append (is_relevant u locale_le family) ts' p.skills))

  module _ (job : MatchableJob) (c : JobClassification) (family : Professional)
      (classified : job.classification ≡ some c)
      (professional : professional_of c.primary_family ≡ some family) where
    by_evidence :
        (ts : List TechnologyExperience) (p : MatchPreferences)
        → score_professional_job u locale_le job ts p ≡ score_evidence u locale_le family c job ts p
    unfolding score_professional_job score_classified
    by_evidence ts p =
        ap (λ o. score_classified u locale_le o job ts p) classified
        ∙ by_family c.primary_family family c job ts p professional

    -- A job of product or design that is scored has from 57 to 99 points, and a reason for them.
    pub score_professional_job-IsEvident :
        (ts : List TechnologyExperience) (p : MatchPreferences) (m : Match)
        → score_professional_job u locale_le job ts p ≡ some m
        → (57 ≤ m.score) × (m.score ≤ 99) × (1 ≤ length m.reasons)
    score_professional_job-IsEvident ts p m h =
        score_evidence-IsEvident family c job ts p m (sym (by_evidence ts p) ∙ h)

    -- Technologies that are not of the vocabulary of product or design make no difference to the score
    -- of such a job, whatever they are and however many: it depends only on those that are.
    pub score_professional_job-relevant :
        (ts ts' : List TechnologyExperience) (p : MatchPreferences)
        → filter (is_relevant u locale_le family) ts ≡ filter (is_relevant u locale_le family) ts'
        → score_professional_job u locale_le job ts p ≡ score_professional_job u locale_le job ts' p
    score_professional_job-relevant ts ts' p e =
        by_evidence ts p ∙ score_evidence-relevant family c job ts ts' p e ∙ sym (by_evidence ts' p)
