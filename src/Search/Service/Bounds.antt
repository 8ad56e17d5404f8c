-- ===== src/Search/Service/Bounds.antt =====
-- How many jobs an answer of `SearchJobsService.execute` has.
use mathlib.Core.Path.{subst}
use jobs_scraper_global.Prelude.{
  suc, ◌+◌, ◌-◌, ◌≤◌, String, ◌≡◌, refl, sym, ◌∙◌, ap, Bool, ◌||◌, ◌&&◌, Option, none, some, List,
  [], ◌∷◌, map, filter, drop, slice, length, length-take, length-map, eqb, or_else, is_some, arith,
  Bool-cases, inl, inr,
}
use jobs_scraper_global.Exec.{Result, ok, err}
use jobs_scraper_global.Postgres.{Postgres}
use jobs_scraper_global.Career.Store.{Db}
use jobs_scraper_global.Search.Pagination.{PaginationParams, offset_of, parse_pagination}
use jobs_scraper_global.Search.Pages.{parse_pagination-bounds}
use jobs_scraper_global.Search.Hydration.{get_jobs, hydrate_index_page}
use jobs_scraper_global.Search.Windows.{hydrate_index_page-jobs}
use jobs_scraper_global.Search.Batches.{query_lem}
use jobs_scraper_global.Search.Ranking.{insert, sort, candidates, ranks_before, ids_of}
use jobs_scraper_global.Search.Ranking.TopRanked.{ranked_query_lem, length-get_jobs}
use jobs_scraper_global.Search.Filters.Comparable.{Unicode}
use jobs_scraper_global.Search.Filters.Jobs.{ParsedJobSearchQuery, MatchSort, desc}
use jobs_scraper_global.Search.Parsers.Values.{unique}
use jobs_scraper_global.Search.Parsers.Query.{
  RequestQuery, parse_job_search_query, has_structured_filters, has_post_only_filters,
}
use jobs_scraper_global.Search.Profile.{Turn, enrich, has_none, is_none, scored, no_preferences}
use jobs_scraper_global.Search.Service.{
  StoredJob, Outcome, Valkey, Searcher, sort_jobs_by_match, before_by_match, legacy_resolve_ids,
  relevance_of, matches, ranking_score, ranking_id, repository_query, enriched, filtered,
  unfiltered, answer, answered, execute,
}

module _ {A : Type 0} (before : A → A → Bool) where
  length-insert : (a : A) (bs : List A) → length (insert before a bs) ≡ suc (length bs)
  length-insert a [] = refl
  length-insert a (b ∷ bs) = elim (Bool-cases (before a b)) [
    | inl first ↦ rw (insert, first) refl
    | inr later ↦ rw (insert, later) (ap suc (length-insert a bs))
  ]

  length-sort : (as' : List A) → length (sort before as') ≡ length as'
  length-sort [] = refl
  length-sort (a ∷ as') = length-insert a (sort before as') ∙ ap suc (length-sort as')

module _ (u : Unicode) (locale_le : String → String → Bool) (pg : Postgres) (v : Valkey)
    (w : Searcher) where
  length-enriched :
      (turns : List Turn) (found : List StoredJob) (s : Db)
      → length (enriched u locale_le pg v w turns found s).0 ≡ length found
  unfolding enriched enrich
  length-enriched turns found s =
      elim (Bool-cases (has_none w.technologies && is_none w.preferences)) [
        | inl plain ↦ rw plain (length-map found (λ j. j.matched))
        | inr profile ↦ rw profile (
            length-map (map (λ j. j.matched) found)
              (scored u locale_le pg w.technologies (or_else w.preferences no_preferences))
            ∙ length-map found (λ j. j.matched))
      ]

  repository_query-fits :
      (order : Option MatchSort) (f : ParsedJobSearchQuery) (p : PaginationParams)
      (ids : List String)
      → length (repository_query u locale_le pg v w order f p ids).0 ≤ p.limit
  unfolding repository_query
  repository_query-fits none f p ids =
      let test = matches u locale_le pg v w f in
      rw (query_lem v.job_of test p ids) (
        omega
          (arith, length-take p.limit (drop (offset_of p) (filter test (get_jobs v.job_of ids)))))
  repository_query-fits (some order) f p ids =
      let test = matches u locale_le pg v w f in
      let score = ranking_score u locale_le pg v w in
      let key = ranking_id u locale_le pg v w in
      let all = candidates v.job_of test score key order 0 (filter test (get_jobs v.job_of ids)) in
      let page = slice (offset_of p) (offset_of p + p.limit) (sort (ranks_before order) all) in
      subst (λ r. length r.0 ≤ p.limit) (sym (ranked_query_lem v.job_of test score key order p ids))
        (omega (
          arith,
          length-get_jobs v.job_of (ids_of v.job_of test score key order page),
          length-map page (λ c. c.id),
          length-take (offset_of p + p.limit - offset_of p)
              (drop (offset_of p) (sort (ranks_before order) all)),
        ))

  -- The jobs of an answer fit its page, whose size is that of the request.
  abbrev pub Fits : PaginationParams → Outcome → Type 0
  Fits p o = (length o.result.jobs ≤ p.limit) × (o.result.pagination.limit ≡ p.limit)

  filtered-Fits :
      (f : ParsedJobSearchQuery) (p : PaginationParams) (turns : List Turn) (s : Db)
      → Fits p (filtered u locale_le pg v w f p turns s)
  unfolding filtered
  filtered-Fits f p turns s =
      let ids = unique (legacy_resolve_ids v f) in
      let found = (repository_query u locale_le pg v w f.match_sort f p ids).0 in
      (
        omega (arith, length-enriched turns found s, repository_query-fits f.match_sort f p ids),
        refl,
      )

  unfiltered-Fits :
      (f : ParsedJobSearchQuery) (p : PaginationParams) (turns : List Turn) (s : Db)
      → Fits p (unfiltered u locale_le pg v w f p turns s)
  unfolding unfiltered hydrate_index_page sort_jobs_by_match
  unfiltered-Fits f p turns s =
      let relevance = relevance_of v w.technologies (legacy_resolve_ids v f) in
      let found = (hydrate_index_page v.job_of relevance.0 p).0 in
      let shown = (enriched u locale_le pg v w turns found s).0 in
      let fits : length shown ≤ p.limit = omega (
        arith,
        length-enriched turns found s,
        (hydrate_index_page-jobs v.job_of relevance.0 p).2,
      ) in
      elim (Bool-cases (eqb relevance.1 0)) [
        | inl none_first ↦ (rw none_first fits, refl)
        | inr some_first ↦
            (rw some_first (omega (arith, fits, length-sort (before_by_match desc) shown)), refl)
      ]

  answer-Fits :
      (f : ParsedJobSearchQuery) (p : PaginationParams) (turns : List Turn) (s : Db)
      → Fits p (answer u locale_le pg v w f p turns s)
  unfolding answer
  answer-Fits f p turns s =
      elim (Bool-cases
        (has_structured_filters f || has_post_only_filters f || is_some f.match_sort)) [
          | inl filters ↦ rw filters (filtered-Fits f p turns s)
          | inr plain ↦ rw plain (unfiltered-Fits f p turns s)
        ]

  answered-Fits :
      (r : Result ParsedJobSearchQuery) (p : PaginationParams) (turns : List Turn) (s : Db)
      (o : Outcome)
      → answered u locale_le pg v w r p turns s ≡ ok o
      → Fits p o
  unfolding answered
  answered-Fits (err e) p turns s o h = cc
  answered-Fits (ok f) p turns s o h = subst (Fits p) (ok_eq h) (answer-Fits f p turns s)
    where
      ok_eq : {A : Type 0} {a b : A} → ok a ≡ ok b → a ≡ b
      ok_eq e = cc

  -- An answer never has more jobs than the limit that it names, and that is from 1 to 100, whatever
  -- the texts of the request are.
  pub execute-bounds :
      (q : RequestQuery) (page limit : Option String) (turns : List Turn) (s : Db) (o : Outcome)
      → execute u locale_le pg v w q page limit turns s ≡ ok o
      → (length o.result.jobs ≤ o.result.pagination.limit)
        × (1 ≤ o.result.pagination.limit)
        × (o.result.pagination.limit ≤ 100)
  unfolding execute
  execute-bounds q page limit turns s o h =
      let p = parse_pagination page limit in
      let fits = answered-Fits (parse_job_search_query q) p turns s o h in
      let bounds = parse_pagination-bounds page limit in
      (
        omega (arith, fits.0, fits.1),
        omega (arith, bounds.1, fits.1),
        omega (arith, bounds.2, fits.1),
      )
