-- ===== src/Learning/Delivery.antt =====
-- What a client of the stream gets.
use supply_chain_integration.Base.{
  ℕ, zero, suc, ◌≤◌, ◌≡◌, refl, sym, ap, subst, ◌∙◌, Bool, true, false, Bool-cases, inl, inr, some,
  none, List, [], ◌∷◌, ◌++◌, map, length, All, All-mono, any, every, unique, every-append, arith,
}
use supply_chain_integration.Domain.Errors.{ok}
use supply_chain_integration.Store.Rows.{Uuid}
use supply_chain_integration.Store.Rows.Imports.{ImportJob, OperationEvent}
use supply_chain_integration.Store.Db.{Db}
use supply_chain_integration.Imports.Jobs.{find_job, get_import_job}
use supply_chain_integration.Learning.Events.{list_import_events}
use supply_chain_integration.Learning.Unseen.{
  same_event, is_new, is_sent, unseen-new, unseen-unique, unseen-covers, new-weaken, sent_weaken,
  sent_before, map-append, append_assoc, once_together,
}
use supply_chain_integration.Learning.Stream.{
  Chunk, operation, timeout, Round, sent_ids, sleep, after_events, event_stream, sleeps,
  stream_import_events,
}
use supply_chain_integration.Learning.Rounds.{
  visited, is_last, fresh, goes_on-stream, times_out, stops, leaves, Next-cases,
}

-- The events first, then at most one chunk that ends the stream; no event twice, and none that was
-- seen before; the events of every round that the loop went through, of which there are `left` at
-- most.
pub record Delivers (left : ℕ) (follow : Bool) (id : Uuid) (seen : List Uuid) (rounds : List Round)
    (es : List OperationEvent) (last : List Chunk) : Type 0 where
  pub chunks : event_stream left follow id seen rounds ≡ map operation es ++ last
  pub short : length last ≤ 1
  pub final : every is_last last ≡ true
  pub once : unique same_event es ≡ true
  pub new : every (is_new seen) es ≡ true
  pub covered :
      All
        (λ r. every (is_sent seen es) (list_import_events id none r.events_db) ≡ true)
        (visited left follow id rounds)
  pub bounded : length (visited left follow id rounds) ≤ left

module _ (follow : Bool) (id : Uuid) where
  -- A stream that ends in its first round.
  ends_here :
      (left : ℕ) (seen : List Uuid) (round : Round) (rounds : List Round) (last : List Chunk)
      → 1 ≤ left
      → length last ≤ 1
      → every is_last last ≡ true
      → event_stream left follow id seen (round ∷ rounds)
        ≡ map operation (fresh follow id seen round) ++ last
      → visited left follow id (round ∷ rounds) ≡ round ∷ []
      → Delivers left follow id seen (round ∷ rounds) (fresh follow id seen round) last
  ends_here left seen round rounds last positive short final e e' = record {
    chunks = e;
    short = short;
    final = final;
    once = unseen-unique seen _;
    new = unseen-new seen _;
    covered = rw e' (unseen-covers seen _, tt);
    bounded = rw e' positive;
  }

  -- A stream that sleeps after its first round.
  goes_on :
      (n : ℕ) (seen : List Uuid) (round : Round) (rounds : List Round) (es : List OperationEvent)
      (last : List Chunk)
      → event_stream (suc (suc n)) follow id seen (round ∷ rounds)
        ≡ map operation (fresh follow id seen round)
          ++ event_stream (suc n) follow id (sent_ids (fresh follow id seen round) ++ seen) rounds
      → visited (suc (suc n)) follow id (round ∷ rounds) ≡ round ∷ visited (suc n) follow id rounds
      → Delivers (suc n) follow id (sent_ids (fresh follow id seen round) ++ seen) rounds es last
      → Delivers
          (suc (suc n))
          follow
          id
          seen
          (round ∷ rounds)
          (fresh follow id seen round ++ es)
          last
  unfolding every any
  goes_on n seen round rounds es last e e' d =
      let now = fresh follow id seen round in
      record {
        chunks =
            e
            ∙ ap (λ cs. map operation now ++ cs) d.chunks
            ∙ append_assoc (map operation now) (map operation es) last
            ∙ ap (λ cs. cs ++ last) (sym (map-append now es));
        short = d.short;
        final = d.final;
        once = once_together seen now es (unseen-unique seen _) d.once d.new;
        new =
            every-append (is_new seen) now es
            ∙ rw (unseen-new seen (list_import_events id none round.events_db))
                (new-weaken seen now es d.new);
        covered = subst (All _) (sym e') (
          sent_before seen now es _ (unseen-covers seen _),
          All-mono _ _ (visited (suc n) follow id rounds) (λ r h. sent_weaken seen now es _ h)
              d.covered,
        );
        bounded = rw e' (omega (arith, d.bounded));
      }

  nothing :
      (left : ℕ) (seen : List Uuid) (rounds : List Round)
      → (event_stream left follow id seen rounds ≡ []) × (visited left follow id rounds ≡ [])
      → Delivers left follow id seen rounds [] []
  unfolding every unique
  nothing left seen rounds (e, e') = record {
    chunks = e;
    short = omega arith;
    final = refl;
    once = refl;
    new = refl;
    covered = rw e' tt;
    bounded = rw e' (omega arith);
  }

  after_sleep :
      (seen : List Uuid) (round : Round) (rounds : List Round)
      → ((n : ℕ)
          → 1 ≤ n
          → (es : List OperationEvent) × (last : List Chunk) × Delivers n follow id
              (sent_ids (fresh follow id seen round) ++ seen)
              rounds
              es
              last)
      → (left : ℕ) → 1 ≤ left
      → after_events follow (find_job id round.job_db) ≡ sleep
      → round.disconnected ≡ false
      → (es : List OperationEvent) × (last : List Chunk) × Delivers left follow id seen
          (round ∷ rounds)
          es
          last
  unfolding every
  after_sleep seen round rounds rest zero positive e there = absurd (omega arith)
  after_sleep seen round rounds rest (suc zero) positive e there =
      let (e', e'') = times_out follow id seen round rounds there e in
      (
        _,
        timeout ∷ [],
        ends_here 1 seen round rounds (timeout ∷ []) positive (omega arith) refl e' e'',
      )
  after_sleep seen round rounds rest (suc (suc n)) positive e there =
      let (es, last, d) = rest (suc n) (omega arith) in
      let (e', e'') = goes_on-stream follow id n seen round rounds there e in
      (_, last, goes_on n seen round rounds es last e' e'' d)

  event_stream-Delivers :
      (left : ℕ) (seen : List Uuid) (rounds : List Round)
      → 1 ≤ left
      → (es : List OperationEvent) × (last : List Chunk) × Delivers left follow id seen rounds es
          last
  unfolding event_stream visited every
  event_stream-Delivers left seen [] positive = ([], [], nothing left seen [] (refl, refl))
  event_stream-Delivers left seen (round ∷ rounds) positive = elim (Bool-cases round.disconnected) [
    | inl gone ↦ ([], [], nothing left seen _ (leaves follow id left seen round rounds gone))
    | inr there ↦ elim (Next-cases follow id (find_job id round.job_db)) [
      | inr (last, e, short, final) ↦
          let (e', e'') = stops follow id left seen round rounds last there e in
          (_, last, ends_here left seen round rounds last positive short final e' e'')
      | inl e ↦
          after_sleep seen round rounds
            (λ n h.
              event_stream-Delivers n (sent_ids (fresh follow id seen round) ++ seen) rounds h)
            left positive e there
    ]
  ]

stream_import_events-found :
    (follow : Bool) (id : Uuid) (job : ImportJob) (db : Db) (rounds : List Round)
    → find_job id db ≡ some job
    → stream_import_events follow id db rounds ≡ ok (event_stream sleeps follow id [] rounds)
unfolding stream_import_events get_import_job
stream_import_events-found follow id job db rounds found = ground arith

-- The stream of a job that is there: the events, none of them twice, then at most one chunk that
-- says how the stream ended; it goes through 201 rounds at most, and every event that one of them
-- read is sent.
pub stream_import_events-Delivers :
    (follow : Bool) (id : Uuid) (job : ImportJob) (db : Db) (rounds : List Round)
    → find_job id db ≡ some job
    → (es : List OperationEvent) × (last : List Chunk) × (stream_import_events follow id db rounds
        ≡ ok (map operation es ++ last))
      × Delivers sleeps follow id [] rounds es last
stream_import_events-Delivers follow id job db rounds found =
    let (es, last, d) = event_stream-Delivers follow id sleeps [] rounds (omega arith) in
    (es, last, stream_import_events-found follow id job db rounds found ∙ ap ok d.chunks, d)
