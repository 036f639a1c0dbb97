-- ===== src/Learning/Rounds.antt =====
-- What one round does to the stream.
use supply_chain_integration.Base.{
  ℕ, zero, suc, ◌≤◌, ◌≡◌, refl, Bool, true, false, not, ◌||◌, Bool-cases, ◌⊎◌, inl, inr, Option,
  some, none, List, [], ◌∷◌, ◌++◌, map, length, every, arith,
}
use supply_chain_integration.Store.Rows.{Uuid}
use supply_chain_integration.Store.Rows.Imports.{ImportJob, OperationEvent}
use supply_chain_integration.Imports.Jobs.{find_job}
use supply_chain_integration.Learning.Events.{list_import_events}
use supply_chain_integration.Learning.Stream.{
  Chunk, operation, complete, timeout, Round, unseen, sent_ids, stop, sleep, has_stopped,
  after_events, event_stream,
}

-- The rounds that the loop goes through.
unfoldable pub visited : ℕ → Bool → Uuid → List Round → List Round
visited left follow id [] = []
visited left follow id (round ∷ rounds) = elim round.disconnected [
  | true ↦ []
  | false ↦ round ∷ elim (after_events follow (find_job id round.job_db)) [
    | stop last ↦ []
    | sleep ↦ elim left [
      | zero ↦ []
      | suc zero ↦ []
      | suc (suc n) ↦ visited (suc n) follow id rounds
    ]
  ]
]

abbrev pub is_last : Chunk → Bool
is_last (operation e) = false
is_last chunk = true

module _ (follow : Bool) (id : Uuid) where
  abbrev pub fresh : List Uuid → Round → List OperationEvent
  fresh seen round = unseen seen (list_import_events id none round.events_db)

  pub goes_on-stream :
      (n : ℕ) (seen : List Uuid) (round : Round) (rounds : List Round)
      → round.disconnected ≡ false
      → after_events follow (find_job id round.job_db) ≡ sleep
      → (event_stream (suc (suc n)) follow id seen (round ∷ rounds)
          ≡ map operation (fresh seen round)
            ++ event_stream (suc n) follow id (sent_ids (fresh seen round) ++ seen) rounds)
        × (visited (suc (suc n)) follow id (round ∷ rounds)
            ≡ round ∷ visited (suc n) follow id rounds)
  unfolding event_stream visited
  goes_on-stream n seen round rounds there e = (rw (there, e) refl, ground arith)

  pub times_out :
      (seen : List Uuid) (round : Round) (rounds : List Round)
      → round.disconnected ≡ false
      → after_events follow (find_job id round.job_db) ≡ sleep
      → (event_stream 1 follow id seen (round ∷ rounds)
          ≡ map operation (fresh seen round) ++ timeout ∷ [])
        × (visited 1 follow id (round ∷ rounds) ≡ round ∷ [])
  unfolding event_stream visited
  times_out seen round rounds there e = (rw (there, e) refl, ground arith)

  pub stops :
      (left : ℕ) (seen : List Uuid) (round : Round) (rounds : List Round) (last : List Chunk)
      → round.disconnected ≡ false
      → after_events follow (find_job id round.job_db) ≡ stop last
      → (event_stream left follow id seen (round ∷ rounds)
          ≡ map operation (fresh seen round) ++ last)
        × (visited left follow id (round ∷ rounds) ≡ round ∷ [])
  unfolding event_stream visited
  stops left seen round rounds last there e = (rw (there, e) refl, ground arith)

  pub leaves :
      (left : ℕ) (seen : List Uuid) (round : Round) (rounds : List Round)
      → round.disconnected ≡ true
      → (event_stream left follow id seen (round ∷ rounds) ≡ [])
        × (visited left follow id (round ∷ rounds) ≡ [])
  unfolding event_stream visited
  leaves left seen round rounds gone = (rw gone refl, ground arith)

  pub Next-cases :
      (o : Option ImportJob)
      → (after_events follow o ≡ sleep)
        ⊎ ((last : List Chunk) × (after_events follow o ≡ stop last)
            × (length last ≤ 1)
            × (every is_last last ≡ true))
  unfolding every
  Next-cases none = inr ([], refl, omega arith, refl)
  Next-cases (some job) = elim (Bool-cases (not follow || has_stopped job.status)) [
    | inl over ↦ inr (complete job.status ∷ [], rw over refl, omega arith, refl)
    | inr going ↦ inl (rw going refl)
  ]
