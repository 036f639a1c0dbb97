-- ===== src/Store/Session.antt =====
-- infrastructure/db/session.py and SQLAlchemy's session, as the services use it: a transaction
-- maps the database to a result with the database that it leaves behind, or raises. What it has
-- written when it raises is rolled back.
use supply_chain_integration.Base.{suc, Option, none, some, Bool, true, false}
use supply_chain_integration.Domain.Errors.{
  Exn, Result, ok, err, integrity_error, resource_conflict,
}
use supply_chain_integration.Store.Rows.{Uuid}
use supply_chain_integration.Store.Db.{Db}
use supply_chain_integration.Store.Constraints.{constraints_hold}

abbrev pub Tx {ℓ} : Type ℓ → Type ℓ
Tx A = Db → Result (A × Db)

module _ {ℓ} {A : Type ℓ} where
  abbrev pub pure : A → Tx A
  pure a db = ok (a, db)

  abbrev pub raise : Exn → Tx A
  raise e db = err e

  abbrev pub lift : Result A → Tx A
  lift (ok a) db = ok (a, db)
  lift (err e) db = err e

  abbrev pub gets : (Db → A) → Tx A
  gets f db = ok (f db, db)

  -- `if row is None: raise e`
  abbrev pub or_raise : Option A → Exn → Tx A
  or_raise none e db = err e
  or_raise (some a) e db = ok (a, db)

infixl 5 ◌>>=◌ ◌>>◌
abbrev pub ◌>>=◌ {ℓ κ} : {A : Type ℓ} {B : Type κ} → Tx A → (A → Tx B) → Tx B
◌>>=◌ m f db = elim (m db) [ ok (a, db') ↦ f a db' | err e ↦ err e ]

abbrev pub ◌>>◌ {ℓ κ} : {A : Type ℓ} {B : Type κ} → Tx A → Tx B → Tx B
m >> k = m >>= λ _. k

abbrev pub modify : (Db → Db) → Tx (Unit {0})
modify f db = ok (tt, f db)

-- `if test: raise e`
abbrev pub raise_if : Bool → Exn → Tx (Unit {0})
raise_if true e db = err e
raise_if false e db = ok (tt, db)

-- `uuid4()`, the default of every primary key.
abbrev pub fresh_id : Tx Uuid
fresh_id db = ok (db.next_id, record db { next_id = suc db.next_id })

-- `if` between two actions.
abbrev pub branch {ℓ} : {A : Type ℓ} → Bool → Tx A → Tx A → Tx A
branch true m n db = m db
branch false m n db = n db

abbrev accept : Bool → Exn → Tx (Unit {0})
accept true e db = ok (tt, db)
accept false e db = err e

-- `session.flush()` and `session.commit()`: the database refuses changes that break a constraint.
unfoldable pub flush : Tx (Unit {0})
flush db = accept (constraints_hold db) integrity_error db

-- `_commit(session, message)`
unfoldable pub commit_or_conflict : Tx (Unit {0})
commit_or_conflict db = accept (constraints_hold db) resource_conflict db

-- A session that is closed at the end of one transaction.
abbrev pub transact {ℓ} : {A : Type ℓ} → Tx A → Db → Result A × Db
transact m db = elim (m db) [ ok (a, db') ↦ (ok a, db') | err e ↦ (err e, db) ]
