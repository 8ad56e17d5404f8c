-- ===== src/Search/Profile/Notices.antt =====
-- After `enrich`, every high match of the page has its notification, however the statements of the
-- calls were interleaved.
use jobs_scraper_global.Prelude.{
  ℕ, zero, suc, String, ◌≡◌, refl, Bool, true, false, Option, none, some, List, [], ◌∷◌, map, find?,
  All, is_some, or_else, ◌==◌, eq_refl, arith, Bool-cases, inl, inr, ltb, ◌||◌,
}
use mathlib.Core.Path.{subst}
use jobs_scraper_global.Table.{insert}
use jobs_scraper_global.Postgres.{Postgres}
use jobs_scraper_global.Career.Store.{Db, UserNotification}
use jobs_scraper_global.Career.Notifications.{Matched, is_match_of, create}
use jobs_scraper_global.Search.Profile.{
  Call, asked, missing, noted, dropped, begin, Turn, statement, failure, looked, advance,
  advance_at, take_turns, finish_calls, settle_all,
}
use jobs_scraper_global.Search.Profile.Calls.{job_of, settle_all-job_of}

module _ {A : Type 0} (p : A → Bool) where
  found-insert :
      (a : A) (rows : List A)
      → is_some (find? p rows) ≡ true
      → is_some (find? p (insert a rows)) ≡ true
  found-insert a [] h = ground arith
  found-insert a (r ∷ rows) h = ground (arith, found-insert a rows)

  found-insert_self :
      (a : A) (rows : List A) → p a ≡ true → is_some (find? p (insert a rows)) ≡ true
  found-insert_self a [] h = ground arith
  found-insert_self a (r ∷ rows) h = ground (arith, found-insert_self a rows)

-- No call is made to look for a job that does not match highly or that nothing tells from others.
abbrev pub is_skipped : Matched → Bool
is_skipped job = ltb (or_else job.match_score 0) 85 || job.identity == ""

abbrev pub IsStatement : Turn → Type 0
IsStatement (statement n) = Unit
IsStatement (failure n) = true ≡ false

abbrev pub Holds : (UserNotification → Bool) → Db → Type 0
Holds p s = is_some (find? p s.user_notifications) ≡ true

module _ (pg : Postgres) (user : String) where
  -- A call that has come to its end with a notification has one in the store, and one without was not
  -- to look.
  abbrev pub IsNoted : Db → Call → Type 0
  IsNoted s (noted job) = Holds (is_match_of user job.identity) s
  IsNoted s (dropped job) = is_skipped job ≡ true
  IsNoted s c = Unit

  abbrev pub IsAtEnd : Call → Type 0
  IsAtEnd (asked job) = true ≡ false
  IsAtEnd (missing job) = true ≡ false
  IsAtEnd c = Unit

  advance-Holds :
      (p : UserNotification → Bool) (c : Call) (s : Db)
      → Holds p s
      → Holds p (advance pg user c s).1
  unfolding create
  advance-Holds p (asked job) s h = h
  advance-Holds p (missing job) s h = found-insert p _ s.user_notifications h
  advance-Holds p (noted job) s h = h
  advance-Holds p (dropped job) s h = h

  looked-IsNoted :
      (job : Matched) (s : Db) (o : Option UserNotification)
      → find? (is_match_of user job.identity) s.user_notifications ≡ o
      → IsNoted s (looked pg user job o)
  looked-IsNoted job s none e = tt
  looked-IsNoted job s (some n) e = rw e refl

  advance-IsNoted :
      (c : Call) (s : Db) → IsNoted s c → IsNoted (advance pg user c s).1 (advance pg user c s).0
  unfolding create
  advance-IsNoted (asked job) s h =
      looked-IsNoted job s (find? (is_match_of user job.identity) s.user_notifications) refl
  advance-IsNoted (missing job) s h =
      found-insert_self (is_match_of user job.identity) _ s.user_notifications
        (rw (eq_refl user) (rw (eq_refl job.identity) refl))
  advance-IsNoted (noted job) s h = h
  advance-IsNoted (dropped job) s h = h

  looked-IsAtEnd :
      (job : Matched) (o : Option UserNotification) (s : Db)
      → IsAtEnd (advance pg user (looked pg user job o) s).0
  unfolding create
  looked-IsAtEnd job none s = tt
  looked-IsAtEnd job (some n) s = tt

  -- Two statements bring every call to its end.
  twice-IsAtEnd :
      (c : Call) (s : Db)
      → let first = advance pg user c s in IsAtEnd (advance pg user first.0 first.1).0
  unfolding create
  twice-IsAtEnd (asked job) s =
      looked-IsAtEnd job (find? (is_match_of user job.identity) s.user_notifications) s
  twice-IsAtEnd (missing job) s = tt
  twice-IsAtEnd (noted job) s = tt
  twice-IsAtEnd (dropped job) s = tt

  abbrev pub Grows : Db → Db → Type 0
  Grows s t = (p : UserNotification → Bool) → Holds p s → Holds p t

  IsNoted-Grows : (c : Call) (s t : Db) → Grows s t → IsNoted s c → IsNoted t c
  IsNoted-Grows (asked job) s t g h = tt
  IsNoted-Grows (missing job) s t g h = tt
  IsNoted-Grows (noted job) s t g h = g (is_match_of user job.identity) h
  IsNoted-Grows (dropped job) s t g h = h

  AllNoted-Grows :
      (calls : List Call) (s t : Db) → Grows s t → All (IsNoted s) calls → All (IsNoted t) calls
  AllNoted-Grows [] s t g h = tt
  AllNoted-Grows (c ∷ calls) s t g (h, hs) =
      (IsNoted-Grows c s t g h, AllNoted-Grows calls s t g hs)

  advance_at-Grows : (n : ℕ) (calls : List Call) (s : Db) → Grows s (advance_at pg user n calls s).1
  unfolding advance_at
  advance_at-Grows n [] s p h = h
  advance_at-Grows zero (c ∷ calls) s p h = advance-Holds p c s h
  advance_at-Grows (suc n) (c ∷ calls) s p h = advance_at-Grows n calls s p h

  advance_at-IsNoted :
      (n : ℕ) (calls : List Call) (s : Db)
      → All (IsNoted s) calls
      → All (IsNoted (advance_at pg user n calls s).1) (advance_at pg user n calls s).0
  unfolding advance_at
  advance_at-IsNoted n [] s h = tt
  advance_at-IsNoted zero (c ∷ calls) s (h, hs) = (
    advance-IsNoted c s h,
    AllNoted-Grows calls s (advance pg user c s).1 (λ p. advance-Holds p c s) hs,
  )
  advance_at-IsNoted (suc n) (c ∷ calls) s (h, hs) = (
    IsNoted-Grows c s (advance_at pg user n calls s).1 (advance_at-Grows n calls s) h,
    advance_at-IsNoted n calls s hs,
  )

  take_turns-IsNoted :
      (turns : List Turn) (calls : List Call) (s : Db)
      → All IsStatement turns
      → All (IsNoted s) calls
      → All (IsNoted (take_turns pg user turns calls s).1) (take_turns pg user turns calls s).0
  unfolding take_turns
  take_turns-IsNoted [] calls s f h = h
  take_turns-IsNoted (statement n ∷ turns) calls s (f, fs) h =
      let r = advance_at pg user n calls s in
      take_turns-IsNoted turns r.0 r.1 fs (advance_at-IsNoted n calls s h)
  take_turns-IsNoted (failure n ∷ turns) calls s (f, fs) h = cc

  finish_calls-Grows : (calls : List Call) (s : Db) → Grows s (finish_calls pg user calls s).1
  unfolding finish_calls
  finish_calls-Grows [] s p h = h
  finish_calls-Grows (c ∷ calls) s p h =
      let first = advance pg user c s in
      let second = advance pg user first.0 first.1 in
      finish_calls-Grows calls second.1 p (advance-Holds p first.0 first.1 (advance-Holds p c s h))

  finish_calls-IsNoted :
      (calls : List Call) (s : Db)
      → All (IsNoted s) calls
      → let r = finish_calls pg user calls s in All (λ c. IsAtEnd c × IsNoted r.1 c) r.0
  unfolding finish_calls
  finish_calls-IsNoted [] s h = tt
  finish_calls-IsNoted (c ∷ calls) s (h, hs) =
      let first = advance pg user c s in
      let second = advance pg user first.0 first.1 in
      let later : Grows s second.1 =
        λ p k. advance-Holds p first.0 first.1 (advance-Holds p c s k) in
      (
        (
          twice-IsAtEnd c s,
          IsNoted-Grows second.0 second.1 (finish_calls pg user calls second.1).1
              (finish_calls-Grows calls second.1)
              (advance-IsNoted first.0 first.1 (advance-IsNoted c s h)),
        ),
        finish_calls-IsNoted calls second.1 (AllNoted-Grows calls s second.1 later hs),
      )

  begin-IsNoted : (jobs : List Matched) (s : Db) → All (IsNoted s) (map begin jobs)
  begin-IsNoted [] s = tt
  begin-IsNoted (job ∷ jobs) s = elim (Bool-cases (is_skipped job)) [
    | inl low ↦ rw (begin, low) (low, begin-IsNoted jobs s)
    | inr high ↦ rw (begin, high) (tt, begin-IsNoted jobs s)
  ]

  -- A high match that can be told from others has a notification.
  abbrev pub IsServed : Db → Matched → Type 0
  IsServed s job = is_skipped job ≡ false → Holds (is_match_of user job.identity) s

  ended-IsServed : (c : Call) (s : Db) → IsAtEnd c × IsNoted s c → IsServed s (job_of c)
  ended-IsServed (asked job) s (e, h) = cc
  ended-IsServed (missing job) s (e, h) = cc
  ended-IsServed (noted job) s (e, h) = λ high. h
  ended-IsServed (dropped job) s (e, h) = λ high. cc

  calls-AreServed :
      (calls : List Call) (s : Db)
      → All (λ c. IsAtEnd c × IsNoted s c) calls
      → All (IsServed s) (map job_of calls)
  calls-AreServed [] s h = tt
  calls-AreServed (c ∷ calls) s (h, hs) = (ended-IsServed c s h, calls-AreServed calls s hs)

  pub settle_all-AreServed :
      (turns : List Turn) (jobs : List Matched) (s : Db)
      → All IsStatement turns
      → All (IsServed (settle_all pg user turns (map begin jobs) s).1) jobs
  unfolding settle_all
  settle_all-AreServed turns jobs s f =
      let r = take_turns pg user turns (map begin jobs) s in
      let end = finish_calls pg user r.0 r.1 in
      subst (All (IsServed end.1)) (settle_all-job_of pg user turns jobs s) (
        calls-AreServed end.0 end.1 (
          finish_calls-IsNoted r.0 r.1
            (take_turns-IsNoted turns (map begin jobs) s f (begin-IsNoted jobs s))))
