-- ===== src/Store/Transactions.antt =====
-- Statements of one transaction as a state and error monad, and `withTransaction` of
-- src/db/pool.ts, which commits a result and rolls back on any error.
use ceoma_api.Prelude.{◌≡◌, refl, Bool, true, Option, none, some, if◌then◌else◌, ◌⊎◌, inl, inr}
use ceoma_api.Errors.{Failure, pg_error, Result, ok, err, is_ok}

-- `S` is the database.
abbrev pub Tx : Type 0 → Type 0 → Type 0
Tx S A = S → Result A × S

-- What follows a statement: it runs on the state that the statement leaves, unless that failed.
abbrev pub continue : {S A B : Type 0} → Result A × S → (A → Tx S B) → Result B × S
continue (ok a, s) f = f a s
continue (err e, s) f = (err e, s)

infixl 5 ◌>>=◌ ◌>>◌
abbrev pub ◌>>=◌ : {S A B : Type 0} → Tx S A → (A → Tx S B) → Tx S B
◌>>=◌ m f s = continue (m s) f

abbrev pub ◌>>◌ : {S A B : Type 0} → Tx S A → Tx S B → Tx S B
◌>>◌ m k s = continue (m s) (λ _. k)

module _ {S A : Type 0} where
  abbrev pub pure : A → Tx S A
  pure a s = (ok a, s)

  abbrev pub throw : Failure → Tx S A
  throw e s = (err e, s)

  abbrev pub gets : (S → A) → Tx S A
  gets f s = (ok (f s), s)

  -- A computation that touches no table.
  abbrev pub lift : Result A → Tx S A
  lift r s = (r, s)

  -- `rowCount === 0`: throw, else take the row
  abbrev pub or_throw : Option A → Failure → Tx S A
  or_throw none e s = (err e, s)
  or_throw (some a) e s = (ok a, s)

  abbrev pub settle : S → Result A × S → Result A × S
  settle s (ok a, s') = (ok a, s')
  settle s (err e, s') = (err e, s)

  -- `withTransaction`
  unfoldable pub with_transaction : Tx S A → Tx S A
  with_transaction fn s = settle s (fn s)

module _ {S : Type 0} where
  abbrev pub throw_if : Bool → Failure → Tx S (Unit {0})
  throw_if b e s = (if b then err e else ok tt, s)

  abbrev pub modify : (S → S) → Tx S (Unit {0})
  modify f s = (ok tt, f s)

  -- `INSERT`, refused with a unique violation where a row with the same key is there
  abbrev pub insert_unless : (S → Bool) → (S → S) → Tx S (Unit {0})
  insert_unless clash put s = if clash s then (err (pg_error "23505"), s) else (ok tt, put s)

-- A transaction that fails leaves the database as it was; one that succeeds has run to its end.
pub with_transaction_atomic :
    {S A : Type 0} (fn : Tx S A) (s : S)
    → ((e : Failure) × (with_transaction fn s ≡ (err e, s)))
      ⊎ ((a : A) × (with_transaction fn s ≡ (ok a, (fn s).1)) × ((fn s).0 ≡ ok a))
unfolding with_transaction
with_transaction_atomic {S} {A} fn s = go (fn s)
  where
    go :
        (p : Result A × S)
        → ((e : Failure) × (settle s p ≡ (err e, s)))
          ⊎ ((a : A) × (settle s p ≡ (ok a, p.1)) × (p.0 ≡ ok a))
    go (ok a, s') = inr (a, refl, refl)
    go (err e, s') = inl (e, refl)

-- What holds before a transaction, and after its statements when they all succeed, holds after it.
pub with_transaction_keeps :
    {S A : Type 0} (P : S → Type 0) (fn : Tx S A) (s : S)
    → P s
    → (is_ok (fn s).0 ≡ true → P (fn s).1)
    → P (with_transaction fn s).1
unfolding with_transaction
with_transaction_keeps {S} {A} P fn s before after = go (fn s) after
  where
    go : (p : Result A × S) → (is_ok p.0 ≡ true → P p.1) → P (settle s p).1
    go (ok a, s') k = k refl
    go (err e, s') k = before

-- What holds after a statement, and is kept by what follows it, holds after both.
pub continue_keeps :
    {S A B : Type 0} (P : S → Type 0) (p : Result A × S) (f : A → Tx S B)
    → P p.1
    → ((a : A) → p.0 ≡ ok a → P (f a p.1).1)
    → P (continue p f).1
continue_keeps P (ok a, s) f h k = k a refl
continue_keeps P (err e, s) f h k = h
