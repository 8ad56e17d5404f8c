-- ===== src/Search/Matching/Growth.antt =====
-- A job that names more of the technologies has no lower score.
use jobs_scraper_global.Prelude.{
  ◌≤◌, String, ◌≡◌, Bool, true, some, List, [], ◌∷◌, filter, length, All, arith,
}
use jobs_scraper_global.Search.Filters.Comparable.{Unicode}
use jobs_scraper_global.Search.Matching.Words.{MatchableJob, is_named, job_match_text}
use jobs_scraper_global.Search.Matching.Technologies.{
  TechnologyExperience, Match, weight, score_of, normalized_technologies, score_text,
  score_job_with_technologies,
}
use jobs_scraper_global.Search.Matching.Bounds.{coverage_mono, weight-pos}

module _ (p q : TechnologyExperience → Bool) where
  filter_mono :
      (ts : List TechnologyExperience)
      → All (λ t. p t ≡ true → q t ≡ true) ts
      → (weight (filter p ts) ≤ weight (filter q ts))
        × (length (filter p ts) ≤ length (filter q ts))
  filter_mono [] more = (omega arith, omega arith)
  filter_mono (t ∷ ts) (h, hs) = ground (arith, h, filter_mono ts hs)

weight-filter-le :
    (q : TechnologyExperience → Bool) (ts : List TechnologyExperience)
    → weight (filter q ts) ≤ weight ts
weight-filter-le q [] = omega arith
weight-filter-le q (t ∷ ts) = ground (arith, weight-filter-le q ts)

score_of_mono :
    (few many all : List TechnologyExperience)
    → 1 ≤ weight all
    → weight few ≤ weight many
    → length few ≤ length many
    → score_of few all ≤ score_of many all
score_of_mono [] [] all h w l = omega arith
score_of_mono [] (t ∷ ts) all h w l = omega arith
score_of_mono (s ∷ ss) [] all h w l = absurd (omega (arith, l))
score_of_mono (s ∷ ss) (t ∷ ts) all h w l =
    omega (arith, coverage_mono (weight (s ∷ ss)) (weight (t ∷ ts)) (weight all) h w, l)

module _ (u : Unicode) where
  -- The second text names whichever of the technologies the first names.
  abbrev pub NamesMore : String → String → List TechnologyExperience → Type 0
  NamesMore text text' ts =
      All (λ t. is_named u text t.name ≡ true → is_named u text' t.name ≡ true) ts

  score_text_mono :
      (text text' : String) (ts : List TechnologyExperience) (m m' : Match)
      → NamesMore text text' ts
      → score_text u text ts ≡ some m
      → score_text u text' ts ≡ some m'
      → m.score ≤ m'.score
  unfolding is_named
  score_text_mono text text' [] m m' more h k = cc
  score_text_mono text text' (t ∷ ts) m m' more h k =
      let (w, l) =
        filter_mono (λ s. is_named u text s.name) (λ s. is_named u text' s.name) (t ∷ ts) more in
      let grows =
        score_of_mono (filter (λ s. is_named u text s.name) (t ∷ ts))
          (filter (λ s. is_named u text' s.name) (t ∷ ts)) (t ∷ ts) (weight-pos t ts) w l in
      let before : score_of (filter (λ s. is_named u text s.name) (t ∷ ts)) (t ∷ ts) ≡ m.score =
        cc in
      let after : score_of (filter (λ s. is_named u text' s.name) (t ∷ ts)) (t ∷ ts) ≡ m'.score =
        cc in
      omega (arith, grows, before, after)

  -- Of two jobs that are scored by the same technologies, one whose text names every one of them that
  -- the other's text names has no lower score.
  pub score_job_with_technologies_mono :
      (job job' : MatchableJob) (technologies : List TechnologyExperience) (m m' : Match)
      → NamesMore
          (job_match_text u job)
          (job_match_text u job')
          (normalized_technologies u technologies)
      → score_job_with_technologies u job technologies ≡ some m
      → score_job_with_technologies u job' technologies ≡ some m'
      → m.score ≤ m'.score
  unfolding score_job_with_technologies
  score_job_with_technologies_mono job job' technologies =
      score_text_mono (job_match_text u job) (job_match_text u job')
        (normalized_technologies u technologies)
