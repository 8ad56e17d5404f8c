-- ===== src/Search/Relevance.antt =====
-- `orderIdsByProfileRelevance` of backend/src/modules/jobs/services/searchJobs.service.ts.
use jobs_scraper_global.Prelude.{
  ◌+◌, ◌≡◌, refl, ◌∙◌, ap, inl, inr, Bool, not, ◌||◌, Option, none, some, List, [], ◌∷◌, length,
  filter, eqb, arith, length-append, filter-append, Bool-cases,
}
use jobs_scraper_global.Search.Hydration.{preferred_first, order_ids_by_profile_relevance}

module _ {Key : Type 0} where
  length-split :
      (q r : Key → Bool) (ids : List Key)
      → length (filter q (filter r ids)) + length (filter q (filter (λ id. not (r id)) ids))
        ≡ length (filter q ids)
  length-split q r [] = omega arith
  length-split q r (id ∷ ids) = ground (arith, length-split q r ids)

  preferred_first-length :
      (q relevant : Key → Bool) (ids : List Key)
      → length (filter q (preferred_first relevant ids).0) ≡ length (filter q ids)
  preferred_first-length q relevant ids = elim (Bool-cases (eqb (length (filter relevant ids)) 0)) [
    | inl none_there ↦ rw (preferred_first, none_there) refl
    | inr some_there ↦
        rw (preferred_first, some_there)
          (ap length (filter-append q (filter relevant ids) (filter (λ id. not (relevant id)) ids))
            ∙ (length-append (filter q (filter relevant ids))
                  (filter q (filter (λ id. not (relevant id)) ids))
                ∙ length-split q relevant ids))
  ]

  -- Ordering by relevance keeps every identifier: for any test it has as many that pass as before,
  -- whether the profile has names, the search for them fails, or they find nothing.
  pub order-length-filter :
      (q : Key → Bool) (has_names : Bool) (found : Option (Key → Bool)) (ids : List Key)
      → length (filter q (order_ids_by_profile_relevance has_names found ids).0)
        ≡ length (filter q ids)
  unfolding order_ids_by_profile_relevance
  order-length-filter q has_names none ids = refl
  order-length-filter q has_names (some relevant) ids =
      elim (Bool-cases (not has_names || eqb (length ids) 0)) [
        | inl left ↦ rw left refl
        | inr ordered ↦ rw ordered (preferred_first-length q relevant ids)
      ]
