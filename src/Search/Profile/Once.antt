-- ===== src/Search/Profile/Once.antt =====
-- However the statements of the calls are interleaved, `enrich` does not note a job twice.
use jobs_scraper_global.Prelude.{
  ℕ, zero, suc, ◌+◌, ◌≤◌, eq_iff, String, ◌≡◌, refl, sym, ◌∙◌, ap, Bool, Option, none, some, List,
  [], ◌∷◌, map, filter, find?, length, or_else, ◌==◌, eq_refl, arith, Bool-cases, inl, inr, ltb,
  ◌||◌, if◌then◌else◌,
}
use jobs_scraper_global.Table.{insert, filter-insert}
use jobs_scraper_global.Postgres.{Postgres}
use jobs_scraper_global.Career.Store.{Db, UserNotification}
use jobs_scraper_global.Career.Notifications.{Matched, is_match_of, match_notification, create}
use jobs_scraper_global.Search.Profile.{
  Call, asked, missing, noted, dropped, begin, Turn, statement, failure, fail, fail_at, looked,
  advance, advance_at, take_turns, finish_calls, settle_all,
}

-- Whether a call may still look, and whether it will still insert, for an identity.
abbrev pub one_if : Bool → ℕ
one_if b = if b then 1 else 0

abbrev pub asks : String → Call → ℕ
asks e (asked job) = one_if (job.identity == e)
asks e c = 0

abbrev pub inserts : String → Call → ℕ
inserts e (missing job) = one_if (job.identity == e)
inserts e c = 0

abbrev pub all_asks : String → List Call → ℕ
all_asks e [] = 0
all_asks e (c ∷ calls) = asks e c + all_asks e calls

abbrev pub all_inserts : String → List Call → ℕ
all_inserts e [] = 0
all_inserts e (c ∷ calls) = inserts e c + all_inserts e calls

-- The jobs with an identity.
abbrev pub times : String → List Matched → ℕ
times e [] = 0
times e (job ∷ jobs) = one_if (job.identity == e) + times e jobs

module _ {A : Type 0} where
  length-insert : (a : A) (rows : List A) → length (insert a rows) ≡ length rows + 1
  length-insert a [] = refl
  length-insert a (r ∷ rows) = ground (arith, length-insert a rows)

  none_found : (p : A → Bool) (rows : List A) → find? p rows ≡ none → length (filter p rows) ≡ 0
  none_found p [] h = refl
  none_found p (r ∷ rows) h = ground (arith, none_found p rows)

module _ (pg : Postgres) (user : String) (e : String) where
  -- The notifications of the user for the identity.
  abbrev pub count : Db → ℕ
  count s = length (filter (is_match_of user e) s.user_notifications)

  -- At most one call works for the identity, and none inserts where there is a notification; A and M
  -- stand for the other calls that ask and that insert.
  abbrev pub IsSingle : ℕ → ℕ → ℕ → ℕ → Db → Type 0
  IsSingle A M a m s = (a + A + (m + M) ≤ 1) × (count s + (m + M) ≤ 1)

  looked-IsSingle :
      (job : Matched) (s : Db) (A M : ℕ) (o : Option UserNotification)
      → find? (is_match_of user job.identity) s.user_notifications ≡ o
      → IsSingle A M (one_if (job.identity == e)) 0 s
      → IsSingle A M (asks e (looked pg user job o)) (inserts e (looked pg user job o)) s
  looked-IsSingle job s A M (some n) f (h, k) = (omega (arith, h), k)
  looked-IsSingle job s A M none f (h, k) = elim (Bool-cases (job.identity == e)) [
    | inl same ↦
        let here : job.identity ≡ e = (eq_iff job.identity e).0 same in
        let zero_rows : count s ≡ 0 =
          none_found (is_match_of user e) s.user_notifications
            (ap (λ i. find? (is_match_of user i) s.user_notifications) (sym here) ∙ f) in
        let before : one_if (job.identity == e) ≡ 1 = ap one_if same in
        (omega (arith, h, before), omega (arith, h, before, zero_rows))
    | inr other ↦
        let before : one_if (job.identity == e) ≡ 0 = ap one_if other in
        (omega (arith, h, before), omega (arith, k, before))
  ]

  inserted-count :
      (job : Matched) (s : Db)
      → count (create pg (match_notification user job (or_else job.match_score 0)) s).1
        ≡ count s + one_if (job.identity == e)
  unfolding create
  inserted-count job s =
      let row : UserNotification = record {
        id = pg.uuid s.drawn;
        new = match_notification user job (or_else job.match_score 0);
        read_at = none;
        created_at = s.now;
      } in
      ap length (filter-insert (is_match_of user e) row s.user_notifications)
      ∙ rw (eq_refl user) (elim (Bool-cases (job.identity == e)) [
        | inl same ↦ rw same (length-insert row (filter (is_match_of user e) s.user_notifications))
        | inr other ↦ rw other (omega arith)
      ])

  advance-IsSingle :
      (c : Call) (s : Db) (A M : ℕ)
      → IsSingle A M (asks e c) (inserts e c) s
      → let r = advance pg user c s in IsSingle A M (asks e r.0) (inserts e r.0) r.1
  unfolding advance
  advance-IsSingle (asked job) s A M h =
      looked-IsSingle job s A M (find? (is_match_of user job.identity) s.user_notifications) refl h
  advance-IsSingle (missing job) s A M (h, k) =
      (omega (arith, h), omega (arith, k, inserted-count job s))
  advance-IsSingle (noted job) s A M h = h
  advance-IsSingle (dropped job) s A M h = h

  -- The invariant of a list of calls.
  abbrev pub AreSingle : ℕ → ℕ → List Call → Db → Type 0
  AreSingle A M calls s = IsSingle A M (all_asks e calls) (all_inserts e calls) s

  advance_at-AreSingle :
      (n : ℕ) (calls : List Call) (s : Db) (A M : ℕ)
      → AreSingle A M calls s
      → AreSingle A M (advance_at pg user n calls s).0 (advance_at pg user n calls s).1
  unfolding advance_at
  advance_at-AreSingle n [] s A M h = h
  advance_at-AreSingle zero (c ∷ calls) s A M h =
      let k =
        advance-IsSingle c s (all_asks e calls + A) (all_inserts e calls + M)
          (omega (arith, h.0), omega (arith, h.1)) in
      (omega (arith, k.0), omega (arith, k.1))
  advance_at-AreSingle (suc n) (c ∷ calls) s A M h =
      let k =
        advance_at-AreSingle n calls s (asks e c + A) (inserts e c + M)
          (omega (arith, h.0), omega (arith, h.1)) in
      (omega (arith, k.0), omega (arith, k.1))

  fail-IsSingle :
      (c : Call) (s : Db) (A M : ℕ)
      → IsSingle A M (asks e c) (inserts e c) s
      → IsSingle A M (asks e (fail c)) (inserts e (fail c)) s
  fail-IsSingle (asked job) s A M h = (omega (arith, h.0), h.1)
  fail-IsSingle (missing job) s A M h = (omega (arith, h.0), omega (arith, h.1))
  fail-IsSingle (noted job) s A M h = h
  fail-IsSingle (dropped job) s A M h = h

  fail_at-AreSingle :
      (n : ℕ) (calls : List Call) (s : Db) (A M : ℕ)
      → AreSingle A M calls s
      → AreSingle A M (fail_at n calls) s
  fail_at-AreSingle n [] s A M h = h
  fail_at-AreSingle zero (c ∷ calls) s A M h =
      let k =
        fail-IsSingle c s (all_asks e calls + A) (all_inserts e calls + M)
          (omega (arith, h.0), omega (arith, h.1)) in
      (omega (arith, k.0), omega (arith, k.1))
  fail_at-AreSingle (suc n) (c ∷ calls) s A M h =
      let k =
        fail_at-AreSingle n calls s (asks e c + A) (inserts e c + M)
          (omega (arith, h.0), omega (arith, h.1)) in
      (omega (arith, k.0), omega (arith, k.1))

  take_turns-AreSingle :
      (turns : List Turn) (calls : List Call) (s : Db)
      → AreSingle 0 0 calls s
      → AreSingle 0 0 (take_turns pg user turns calls s).0 (take_turns pg user turns calls s).1
  unfolding take_turns
  take_turns-AreSingle [] calls s h = h
  take_turns-AreSingle (statement n ∷ turns) calls s h =
      let r = advance_at pg user n calls s in
      take_turns-AreSingle turns r.0 r.1 (advance_at-AreSingle n calls s 0 0 h)
  take_turns-AreSingle (failure n ∷ turns) calls s h =
      take_turns-AreSingle turns (fail_at n calls) s (fail_at-AreSingle n calls s 0 0 h)

  finish_calls-AreSingle :
      (calls : List Call) (s : Db) (A M : ℕ)
      → AreSingle A M calls s
      → count (finish_calls pg user calls s).1 ≤ 1
  unfolding finish_calls
  finish_calls-AreSingle [] s A M h = omega (arith, h.1)
  finish_calls-AreSingle (c ∷ calls) s A M h =
      let first = advance pg user c s in
      let second = advance pg user first.0 first.1 in
      let A' = all_asks e calls + A in
      let M' = all_inserts e calls + M in
      let k = advance-IsSingle c s A' M' (omega (arith, h.0), omega (arith, h.1)) in
      let l = advance-IsSingle first.0 first.1 A' M' k in
      finish_calls-AreSingle calls second.1 (asks e second.0 + A) (inserts e second.0 + M)
        (omega (arith, l.0), omega (arith, l.1))

  begin-AreSingle :
      (jobs : List Matched)
      → (all_asks e (map begin jobs) ≤ times e jobs) × (all_inserts e (map begin jobs) ≡ 0)
  begin-AreSingle [] = (omega arith, refl)
  begin-AreSingle (job ∷ jobs) =
      let rest = begin-AreSingle jobs in
      elim (Bool-cases (ltb (or_else job.match_score 0) 85 || job.identity == "")) [
        | inl low ↦ rw (begin, low) (omega (arith, rest.0), omega (arith, rest.1))
        | inr high ↦ rw (begin, high) (omega (arith, rest.0), omega (arith, rest.1))
      ]

  pub settle_all-count :
      (turns : List Turn) (jobs : List Matched) (s : Db)
      → times e jobs ≤ 1
      → count s ≤ 1
      → count (settle_all pg user turns (map begin jobs) s).1 ≤ 1
  unfolding settle_all
  settle_all-count turns jobs s h k =
      let begun = begin-AreSingle jobs in
      let r = take_turns pg user turns (map begin jobs) s in
      finish_calls-AreSingle r.0 r.1 0 0 (
        take_turns-AreSingle turns (map begin jobs) s
          (omega (arith, begun.0, begun.1, h), omega (arith, begun.1, k)))
