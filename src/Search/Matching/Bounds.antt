-- ===== src/Search/Matching/Bounds.antt =====
-- The bounds of a match by technologies.
use native.Mathlib.Nat.{le-div_iff_mul-le, div-mul-le_self}
use mathlib.Core.Path.{subst}
use jobs_scraper_global.Prelude.{
  ℕ, ◌+◌, ◌*◌, ◌≤◌, String, ◌≡◌, refl, sym, ◌∙◌, ap, ◌⊎◌, inl, inr, Bool, some, List, [], ◌∷◌,
  filter, length, arith, Bool-cases, length-map, length-filter-le,
}
use jobs_scraper_global.Search.Filters.Comparable.{Unicode}
use jobs_scraper_global.Search.Matching.Words.{MatchableJob, is_named, job_match_text}
use jobs_scraper_global.Search.Matching.Technologies.{
  TechnologyExperience, Match, weight, rounded_coverage, score_of, names_of,
  normalized_technologies, score_text, score_job_with_technologies,
}

-- A job of which nothing matches has 45 points, one of which something matches has from 59 to 99, and
-- one of which everything that is asked for matches has at least 94.
abbrev pub IsBounded : ℕ → Match → Type 0
IsBounded asked m =
    ((m.matched_technologies ≡ []) × (m.score ≡ 45))
    ⊎ ((59 ≤ m.score) × (m.score ≤ 99) × (length m.matched_technologies ≡ asked → 94 ≤ m.score))

full_coverage : (n : ℕ) → 1 ≤ n → 35 ≤ rounded_coverage n n
full_coverage n h =
    (le-div_iff_mul-le {k = 2 * n} {x = 35} {y = 70 * n + n} (omega (arith, h))).1
      (omega (arith, h))

-- More weight has no less coverage.
pub coverage_mono :
    (m n total : ℕ) → 1 ≤ total → m ≤ n → rounded_coverage m total ≤ rounded_coverage n total
coverage_mono m n total h k =
    (le-div_iff_mul-le {k = 2 * total} {x = rounded_coverage m total} {y = 70 * n + total}
        (omega (arith, h))).1
      (omega (arith, div-mul-le_self (70 * m + total) (2 * total), k))

filter_full :
    {A : Type 0} (p : A → Bool) (xs : List A) → length (filter p xs) ≡ length xs → filter p xs ≡ xs
filter_full p [] h = refl
filter_full p (x ∷ xs) h = elim (Bool-cases (p x)) [
  | inl kept ↦
      let rest : length (filter p xs) ≡ length xs = ground arith in
      rw (filter, kept) (ap (◌∷◌ x) (filter_full p xs rest))
  | inr gone ↦ absurd (ground (arith, length-filter-le p xs))
]

pub weight-pos : (t : TechnologyExperience) (ts : List TechnologyExperience) → 1 ≤ weight (t ∷ ts)
weight-pos t ts = omega arith

score_of-IsBounded :
    (matched all : List TechnologyExperience)
    → (length matched ≡ length all → matched ≡ all)
    → IsBounded (length all) (record {
      score = score_of matched all;
      matched_technologies = names_of matched;
      reasons = [];
    })
score_of-IsBounded [] all full = inl (refl, refl)
score_of-IsBounded (t ∷ ts) all full =
    inr (omega arith, omega arith, λ e. high (full (sym (length-map (t ∷ ts) (λ t. t.name)) ∙ e)))
  where
    high : t ∷ ts ≡ all → 94 ≤ score_of (t ∷ ts) all
    high e =
        let same : weight (t ∷ ts) ≡ weight all = ap weight e in
        omega (
          arith,
          coverage_mono (weight all) (weight (t ∷ ts)) (weight all)
              (omega (arith, same, weight-pos t ts)) (omega (arith, same)),
          full_coverage (weight all) (omega (arith, same, weight-pos t ts)),
        )

some_eq : {A : Type 0} {a b : A} → some a ≡ some b → a ≡ b
some_eq h = cc

module _ (u : Unicode) where
  score_text-IsBounded :
      (text : String) (ts : List TechnologyExperience) (m : Match)
      → score_text u text ts ≡ some m
      → IsBounded (length ts) m
  unfolding is_named
  score_text-IsBounded text [] m h = cc
  score_text-IsBounded text (t ∷ ts) m h = subst (IsBounded (length (t ∷ ts))) (some_eq h) (
      score_of-IsBounded (filter (λ s. is_named u text s.name) (t ∷ ts)) (t ∷ ts)
        (filter_full (λ s. is_named u text s.name) (t ∷ ts)))

  -- A job that is scored by technologies has 45 points if none of them matches, and from 59 to 99 if
  -- one does; if all of them match it has at least 94.
  pub score_job_with_technologies-IsBounded :
      (job : MatchableJob) (technologies : List TechnologyExperience) (m : Match)
      → score_job_with_technologies u job technologies ≡ some m
      → IsBounded (length (normalized_technologies u technologies)) m
  unfolding score_job_with_technologies
  score_job_with_technologies-IsBounded job technologies =
      score_text-IsBounded (job_match_text u job) (normalized_technologies u technologies)
