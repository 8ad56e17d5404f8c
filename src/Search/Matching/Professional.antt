-- ===== src/Search/Matching/Professional.antt =====
-- `scoreProfessionalJob` of backend/src/modules/jobs/services/jobMatch.service.ts.
use jobs_scraper_global.Prelude.{
  ℕ, ◌+◌, min, max, String, Bool, false, not, ◌&&◌, ◌||◌, Option, none, some, List, [], ◌∷◌, ◌++◌,
  map, filter, any, member, trim, eqb, or_else, if◌then◌else◌, ◌==◌,
}
use jobs_scraper_global.Search.Filters.Comparable.{Unicode, normalize_comparable}
use jobs_scraper_global.Search.Matching.Words.{
  MatchableJob, JobClassification, runs, replace_word, is_named, job_match_text, text_matches_alias,
}
use jobs_scraper_global.Search.Matching.Technologies.{
  TechnologyExperience, Match, names_of, set_skill, score_job_with_technologies,
}
use jobs_scraper_global.Search.Matching.Profile.{
  MatchPreferences, Professional, professional_of, family_name, vocabulary, Evidence, no_evidence,
  add_if, Clue, gather, is_given, skills_reason, or_other, is_nonempty, product, product_design,
  clue,
}

-- `locale_le` is whether `localeCompare` gives at most 0.
module _ (u : Unicode) (locale_le : String → String → Bool) where
  unfoldable pub is_relevant : Professional → TechnologyExperience → Bool
  unfolding vocabulary runs normalize_comparable
  is_relevant family t = any (member (vocabulary family)) (runs (normalize_comparable u t.name))

  abbrev pub lookup_skill :
      String → List (String × TechnologyExperience) → Option TechnologyExperience
  lookup_skill k [] = none
  lookup_skill k ((j, t) ∷ m) = if j == k then some t else lookup_skill k m

  -- The skill under a key, after another with the same key.
  abbrev pub merged : Option TechnologyExperience → TechnologyExperience → TechnologyExperience
  unfolding trim
  merged none skill = record { name = trim skill.name; years = max 0 skill.years }
  merged (some old) skill = record {
    name = if locale_le old.name (trim skill.name) then old.name else trim skill.name;
    years = max old.years skill.years;
  }

  abbrev pub merge_skills :
      List TechnologyExperience
      → List (String × TechnologyExperience)
      → List (String × TechnologyExperience)
  unfolding trim normalize_comparable
  merge_skills [] m = m
  merge_skills (s ∷ ss) m = merge_skills ss (
      set_skill (normalize_comparable u s.name)
        (merged (lookup_skill (normalize_comparable u s.name) m) s) m)

  abbrev pub insert_by_name :
      TechnologyExperience → List TechnologyExperience → List TechnologyExperience
  insert_by_name t [] = t ∷ []
  insert_by_name t (s ∷ ss) =
      let rest = insert_by_name t ss in if locale_le t.name s.name then t ∷ s ∷ ss else s ∷ rest

  abbrev pub sort_by_name : List TechnologyExperience → List TechnologyExperience
  sort_by_name [] = []
  sort_by_name (t ∷ ts) = insert_by_name t (sort_by_name ts)

  -- The skills that a text names, of those that are relevant.
  unfoldable pub matched_skills : String → List TechnologyExperience → List TechnologyExperience
  unfolding trim normalize_comparable is_named
  matched_skills text relevant =
      sort_by_name
        (filter (λ s. is_named u text s.name) (map (λ e. e.1) (merge_skills relevant [])))

  unfoldable pub is_markup : TechnologyExperience → Bool
  unfolding normalize_comparable
  is_markup t = normalize_comparable u t.name == "html" || normalize_comparable u t.name == "css"

  unfoldable pub skill_points : Professional → TechnologyExperience → ℕ
  unfolding is_markup
  skill_points product t = 8 + min 5 (max 0 t.years)
  skill_points product_design t = if is_markup t then 2 else 8 + min 5 (max 0 t.years)

  unfoldable pub sum_points : Professional → List TechnologyExperience → ℕ
  unfolding skill_points
  sum_points family [] = 0
  sum_points family (t ∷ ts) = skill_points family t + sum_points family ts

  abbrev pub agrees : String → Option String → Bool
  unfolding normalize_comparable text_matches_alias
  agrees wanted none = false
  agrees wanted (some actual) =
      is_given wanted
      && is_given actual
      && text_matches_alias (normalize_comparable u actual) (normalize_comparable u wanted)

  abbrev pub in_portuguese : String → String
  unfolding replace_word
  in_portuguese t = replace_word "hybrid" "hibrido" (replace_word "remote" "remoto" t)

  abbrev pub some_modality : String → List String → Bool
  unfolding normalize_comparable text_matches_alias replace_word
  some_modality actual modes =
      any
        (λ mode.
          text_matches_alias (in_portuguese (normalize_comparable u actual))
            (normalize_comparable u mode))
        modes

  -- What the preferences are compared with, in the order of the code.
  unfoldable pub clues_of :
      Professional → JobClassification → MatchableJob → String → MatchPreferences → List Clue
  unfolding normalize_comparable text_matches_alias replace_word
  clues_of family c job text p =
      clue
        (is_given p.family
          && (p.family == family_name family || member c.related_families p.family))
        15 "família profissional compatível"
      ∷ clue (agrees p.seniority (or_other c.seniority job.level)) 7 "senioridade compatível"
      ∷ clue (agrees p.modality (or_other job.modality job.job_type)) 7 "modalidade compatível"
      ∷ clue (agrees p.location job.location) 7 "localização compatível"
      ∷ clue (agrees p.contract (some text)) 7 "contrato compatível"
      ∷ clue
          (not (is_given p.modality)
            && some_modality (or_else (or_other job.modality job.job_type) text) p.modalities)
          7 "modalidade compatível"
      ∷ []

  -- `evidence` and `reasons` before the skills.
  unfoldable pub evidence_of :
      Professional → JobClassification → MatchableJob → String → MatchPreferences → Evidence
  unfolding clues_of
  evidence_of family c job text p = gather (clues_of family c job text p) no_evidence

  unfoldable pub with_skills : Professional → List TechnologyExperience → Evidence → Evidence
  unfolding sum_points
  with_skills family matched e =
      add_if (is_nonempty matched) (min 30 (sum_points family matched)) (skills_reason family) e

  -- Without evidence the job is left as it is.
  abbrev pub match_of : List String → Evidence → Option Match
  match_of names e =
      if eqb e.points 0
      then none
      else some (record {
        score = min 99 (55 + e.points);
        matched_technologies = names;
        reasons = e.reasons;
      })

  unfoldable pub score_evidence :
      Professional
      → JobClassification
      → MatchableJob
      → List TechnologyExperience
      → MatchPreferences
      → Option Match
  unfolding matched_skills is_relevant evidence_of job_match_text trim normalize_comparable is_named
  score_evidence family c job technologies p =
      let text = job_match_text u job in
      let matched = matched_skills text (filter (is_relevant family) (technologies ++ p.skills)) in
      match_of (names_of matched) (with_skills family matched (evidence_of family c job text p))

  unfoldable pub score_family :
      Option Professional
      → JobClassification
      → MatchableJob
      → List TechnologyExperience
      → MatchPreferences
      → Option Match
  unfolding score_job_with_technologies matched_skills is_relevant evidence_of job_match_text trim
      normalize_comparable is_named
  score_family none c job technologies p = score_job_with_technologies u job technologies
  score_family (some family) c job technologies p = score_evidence family c job technologies p

  unfoldable pub score_classified :
      Option JobClassification
      → MatchableJob
      → List TechnologyExperience
      → MatchPreferences
      → Option Match
  unfolding score_job_with_technologies matched_skills is_relevant evidence_of job_match_text trim
      normalize_comparable is_named
  score_classified none job technologies p = score_job_with_technologies u job technologies
  score_classified (some c) job technologies p =
      score_family (professional_of c.primary_family) c job technologies p

  unfoldable pub score_professional_job :
      MatchableJob → List TechnologyExperience → MatchPreferences → Option Match
  unfolding score_job_with_technologies matched_skills is_relevant evidence_of job_match_text trim
      normalize_comparable is_named
  score_professional_job job technologies p = score_classified job.classification job technologies p
