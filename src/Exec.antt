-- ===== src/Exec.antt =====
-- Asynchronous methods that read and write a store and may throw. What was written before a throw
-- stays written, so that the store comes back beside the error; `transaction` takes it back.
use jobs_scraper_global.Prelude.{◌≡◌, refl}
use jobs_scraper_global.Errors.{Thrown}

pub data Result (A : Type 0) : Type 0 where
  ok : A → Result A
  err : Thrown → Result A

abbrev pub Exec : Type 0 → Type 0 → Type 0
Exec S A = S → Result A × S

module _ {S A : Type 0} where
  abbrev pub pure : A → Exec S A
  pure a s = (ok a, s)

  abbrev pub throw : Thrown → Exec S A
  throw e s = (err e, s)

  abbrev pub gets : (S → A) → Exec S A
  gets f s = (ok (f s), s)

  -- `db.transaction(...)`: a throw inside rolls every write back.
  abbrev pub commit_or_roll_back : S → Result A × S → Result A × S
  commit_or_roll_back s (ok a, t) = (ok a, t)
  commit_or_roll_back s (err e, t) = (err e, s)

  unfoldable pub transaction : Exec S A → Exec S A
  transaction m s = commit_or_roll_back s (m s)

  commit_of_ok : (s : S) (r : Result A × S) (a : A) → r.0 ≡ ok a → commit_or_roll_back s r ≡ r
  commit_of_ok s (ok b, t) a h = refl
  commit_of_ok s (err e, t) a h = cc

  pub transaction_of_ok : (m : Exec S A) (s : S) (a : A) → (m s).0 ≡ ok a → transaction m s ≡ m s
  unfolding transaction
  transaction_of_ok m s a h = commit_of_ok s (m s) a h

  commit_of_err :
      (s : S) (r : Result A × S) (e : Thrown)
      → (commit_or_roll_back s r).0 ≡ err e
      → (commit_or_roll_back s r).1 ≡ s
  commit_of_err s (ok b, t) e h = cc
  commit_of_err s (err f, t) e h = refl

  -- A transaction that throws has written nothing.
  pub transaction_of_err :
      (m : Exec S A) (s : S) (e : Thrown) → (transaction m s).0 ≡ err e → (transaction m s).1 ≡ s
  unfolding transaction
  transaction_of_err m s e h = commit_of_err s (m s) e h

  commit_or_roll_back-keeps :
      (P : S → Type 0) (s : S) (r : Result A × S) → P s → P r.1 → P (commit_or_roll_back s r).1
  commit_or_roll_back-keeps P s (ok a, t) h k = k
  commit_or_roll_back-keeps P s (err e, t) h k = h

  -- What holds before a transaction and after its body holds after it.
  pub transaction-keeps :
      (P : S → Type 0) (m : Exec S A) (s : S) → P s → P (m s).1 → P (transaction m s).1
  unfolding transaction
  transaction-keeps P m s h k = commit_or_roll_back-keeps P s (m s) h k

module _ {S A B : Type 0} where
  abbrev pub continue : Result A × S → (A → Exec S B) → Result B × S
  continue (ok a, s) f = f a s
  continue (err e, s) f = (err e, s)

  infixl 5 ◌>>=◌ ◌>>◌
  abbrev pub ◌>>=◌ : Exec S A → (A → Exec S B) → Exec S B
  ◌>>=◌ m f s = continue (m s) f

  abbrev pub ◌>>◌ : Exec S A → Exec S B → Exec S B
  m >> n = m >>= λ _. n
