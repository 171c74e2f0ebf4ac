-- ===== src/Db/Keeps.antt =====
-- What keeps a predicate of the database: the ways to compose functions of a connection.
use dbvm.Common.{
  List, [], ◌∷◌, Bool, true, false, if◌then◌else◌, Option, none, some, ◌≡◌, refl, ◌⊎◌, inl, inr,
  arith,
}
use dbvm.Db.{
  Db, Tx, Error, Result, ok, err, after, ◌>>=◌, ◌>>◌, in_savepoint, for_each, keep_or_restore, gets,
  lift, or_fail,
}

pub Result-cases :
    {A : Type 0} (r : Result A) → ((e : Error) × (r ≡ err e)) ⊎ ((a : A) × (r ≡ ok a))
Result-cases (ok a) = inr (a, refl)
Result-cases (err e) = inl (e, refl)

-- `m` keeps `P`, whether it returns or fails.
abbrev pub Keeps {ℓ} : {A : Type ℓ} → (Db → Type 0) → Tx A → Type 0
Keeps P m = (s : Db) → P s → P (m s).1

restore-Keeps :
    {A : Type 0} (P : Db → Type 0) (before : Db) (r : Result A × Db)
    → P before
    → P r.1
    → P (keep_or_restore before r).1
restore-Keeps P before (ok a, s) pb ps = ps
restore-Keeps P before (err e, s) pb ps = pb

-- What follows a result from `P` gives `Q`.
pub after-holds :
    {A B : Type 0} (P Q : Db → Type 0) (r : Result A × Db) (f : A → Db → Result B × Db)
    → P r.1
    → ((s : Db) → P s → Q s)
    → ((a : A) (s : Db) → P s → Q (f a s).1)
    → Q (after r f).1
after-holds P Q (ok a, s) f h e k = k a s h
after-holds P Q (err e', s) f h e k = e s h

-- What is known when two steps have both succeeded.
pub after-ok :
    {B : Type 0} (r : Result (Unit {0}) × Db) (f : Unit {0} → Db → Result B × Db) (b : B)
    → (after r f).0 ≡ ok b
    → (r.0 ≡ ok tt) × ((f tt r.1).0 ≡ ok b) × ((after r f).1 ≡ (f tt r.1).1)
after-ok (ok tt, s) f b e = (refl, e, refl)
after-ok (err e', s) f b e = absurd (ground (arith, e))

-- A read that may fail, and what follows its result.
pub read-holds :
    {A B : Type 0} (Q : Db → Type 0) (g : Db → Result A) (f : A → Tx B) (s : Db)
    → Q s
    → ((a : A) → Q (f a s).1)
    → Q ((gets g >>= λ found. lift found >>= f) s).1
unfolding ◌>>=◌
read-holds Q g f s q k =
    after-holds (λ t. t ≡ s) Q (g s, s) f refl (λ t e. rw e q) (λ a t e. rw e (k a))

module _ (P : Db → Type 0) where
  pub after-Keeps {ℓ κ} :
      {A : Type ℓ} {B : Type κ} (r : Result A × Db) (f : A → Db → Result B × Db)
      → P r.1
      → ((a : A) → Keeps P (f a))
      → P (after r f).1
  after-Keeps (ok a, s) f h k = k a s h
  after-Keeps (err e, s) f h k = h

  pub bind-Keeps :
      {A B : Type 0} (m : Tx A) (f : A → Tx B)
      → Keeps P m
      → ((a : A) → Keeps P (f a))
      → Keeps P (m >>= f)
  unfolding ◌>>=◌
  bind-Keeps m f h k s p = after-Keeps (m s) f (h s p) k

  pub then-Keeps : {A B : Type 0} (m : Tx A) (f : Tx B) → Keeps P m → Keeps P f → Keeps P (m >> f)
  unfolding ◌>>◌
  then-Keeps m f h k s p = after-Keeps (m s) (λ _. f) (h s p) (λ _. k)

  pub if-Keeps :
      {A : Type 0} (b : Bool) (m n : Tx A) → Keeps P m → Keeps P n → Keeps P (if b then m else n)
  if-Keeps true m n h k = h
  if-Keeps false m n h k = k

  pub gets-Keeps :
      {A B : Type 0} (g : Db → A) (f : A → Tx B)
      → ((a : A) → Keeps P (f a))
      → Keeps P (gets g >>= f)
  unfolding ◌>>=◌
  gets-Keeps g f k s p = k (g s) s p

  pub lift-Keeps : {A : Type 0} (r : Result A) → Keeps P (lift r)
  lift-Keeps r s p = p

  pub or_fail-Keeps : {A : Type 0} (o : Option A) (e : Error) → Keeps P (or_fail o e)
  or_fail-Keeps none e s p = p
  or_fail-Keeps (some a) e s p = p

  pub in_savepoint-Keeps : {A : Type 0} (m : Tx A) → Keeps P m → Keeps P (in_savepoint m)
  unfolding in_savepoint
  in_savepoint-Keeps m h s p = restore-Keeps P s (m s) p (h s p)

  pub for_each-Keeps :
      {A : Type 0} (f : A → Tx (Unit {0}))
      → ((a : A) → Keeps P (f a))
      → (xs : List A) → Keeps P (for_each f xs)
  unfolding for_each
  for_each-Keeps f h [] s p = p
  for_each-Keeps f h (x ∷ xs) s p =
      after-Keeps (f x s) (λ _. for_each f xs) (h x s p) (λ _. for_each-Keeps f h xs)
