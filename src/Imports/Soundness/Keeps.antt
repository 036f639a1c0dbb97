-- ===== src/Imports/Soundness/Keeps.antt =====
-- Actions that keep the invariant whenever they end normally.
use supply_chain_integration.Base.{
  ℕ, ◌≡◌, refl, subst, every_weaken, inl, inr, find-update_cases, arith,
}
use supply_chain_integration.Domain.Errors.{ok}
use supply_chain_integration.Store.Rows.{Uuid}
use supply_chain_integration.Store.Rows.Imports.{ImportJob, ImportAttempt}
use supply_chain_integration.Store.Db.{Db}
use supply_chain_integration.Store.Session.{Tx, modify, ◌>>=◌}
use supply_chain_integration.Imports.Jobs.{has_job_id, find_job, is_attempt, set_job, set_attempt}
use supply_chain_integration.Imports.Soundness.{JobIsSound, IsSound, older_job, older_owner}
use supply_chain_integration.Imports.Soundness.Keys.{IsKeyed-change, owners-update}
use supply_chain_integration.Imports.Soundness.Updates.{IsNumbered-same, IsNumbered-update}
use supply_chain_integration.Imports.Soundness.Frames.{IsFramed, Frames, both_return}

abbrev pub Keeps {ℓ} : {A : Type ℓ} → Tx A → Type ℓ
Keeps {A = A} m = (db db' : Db) (a : A) → m db ≡ ok (a, db') → IsSound db → IsSound db'

pub Keeps-bind {ℓ κ} :
    {A : Type ℓ} {B : Type κ} (m : Tx A) (k : A → Tx B)
    → Keeps m
    → ((a : A) → Keeps (k a))
    → Keeps (m >>= k)
Keeps-bind m k f g db db' b h s =
    let (a, mid, done, rest) = both_return (m db) k db db' b h in
    g a mid db' b rest (f db mid a done s)

-- Assignments to the attributes of a job that keep its id and its count.
set_job-IsSound :
    (id : Uuid) (f : ImportJob → ImportJob)
    → ((x : ImportJob) → (f x).id ≡ x.id)
    → ((x : ImportJob) → (f x).attempt_count ≡ x.attempt_count)
    → ((x : ImportJob) → JobIsSound x → JobIsSound (f x))
    → (db : Db) → IsSound db
    → IsSound (set_job id f db)
unfolding set_job find_job
set_job-IsSound id f keep count sound db s = record {
  keyed =
      IsKeyed-change (has_job_id id) f db (set_job id f db) keep refl (ground arith) s.keyed.owners
        s.keyed;
  at = λ id' j found.
      elim (find-update_cases (has_job_id id) f (has_job_id id') db.jobs j (λ x. rw (keep x) refl)
        found) [
          | inl same ↦ s.at id' j same
          | inr (a, here, there, e) ↦
              let t = s.at id' a there in
              rw e (record {
                sound = sound a t.sound;
                numbers = IsNumbered-same db.attempts a (f a) t.numbers (keep a) (count a);
              })
        ];
}

set_attempt-IsSound :
    (id : Uuid) (number : ℕ) (g : ImportAttempt → ImportAttempt)
    → ((x : ImportAttempt) → (g x).import_job_id ≡ x.import_job_id)
    → ((x : ImportAttempt) → (g x).attempt_number ≡ x.attempt_number)
    → (db : Db) → IsSound db
    → IsSound (set_attempt id number g db)
unfolding set_attempt find_job
set_attempt-IsSound id number g owner count db s = record {
  keyed = record {
    keys = s.keyed.keys;
    fresh = s.keyed.fresh;
    owners = owners-update (is_attempt id number) g db db.next_id owner (ground arith) s.keyed;
  };
  at = λ id' j found.
      let t = s.at id' j found in
      record {
        sound = t.sound;
        numbers = IsNumbered-update (is_attempt id number) g db.attempts j owner count t.numbers;
      };
}

modify-Keeps : (f : Db → Db) → ((db : Db) → IsSound db → IsSound (f db)) → Keeps (modify f)
modify-Keeps f keeps db db' a h s = let e : f db ≡ db' = cc in subst IsSound e (keeps db s)

pub IsFramed-IsSound : (db db' : Db) → IsFramed db db' → IsSound db → IsSound db'
unfolding find_job
IsFramed-IsSound db db' f s = record {
  keyed = record {
    keys = rw f.jobs s.keyed.keys;
    fresh = rw f.jobs (
        every_weaken (older_job db.next_id) (older_job db'.next_id) (λ j h. ground (arith, f.grows))
          db.jobs s.keyed.fresh);
    owners = rw f.attempts (
        every_weaken (older_owner db.next_id) (older_owner db'.next_id)
          (λ a h. ground (arith, f.grows)) db.attempts s.keyed.owners);
  };
  at = λ id j found. let t = s.at id j (rw f.jobs at found) in rw f.attempts t;
}

pub Frames-Keeps {ℓ} : {A : Type ℓ} (m : Tx A) → Frames m → Keeps m
Frames-Keeps m f db db' a h s = IsFramed-IsSound db db' (f db db' a h) s

pub set_job-Keeps :
    (id : Uuid) (f : ImportJob → ImportJob)
    → ((x : ImportJob) → (f x).id ≡ x.id)
    → ((x : ImportJob) → (f x).attempt_count ≡ x.attempt_count)
    → ((x : ImportJob) → JobIsSound x → JobIsSound (f x))
    → Keeps (modify (set_job id f))
set_job-Keeps id f keep count sound =
    modify-Keeps (set_job id f) (set_job-IsSound id f keep count sound)

pub set_attempt-Keeps :
    (id : Uuid) (number : ℕ) (g : ImportAttempt → ImportAttempt)
    → ((x : ImportAttempt) → (g x).import_job_id ≡ x.import_job_id)
    → ((x : ImportAttempt) → (g x).attempt_number ≡ x.attempt_number)
    → Keeps (modify (set_attempt id number g))
set_attempt-Keeps id number g owner count =
    modify-Keeps (set_attempt id number g) (set_attempt-IsSound id number g owner count)
