-- ===== src/Learning/Unseen.antt =====
-- The events of a round that were not sent before.
use supply_chain_integration.Base.{
  ◌≡◌, refl, sym, ap, subst, Bool, true, false, not, ◌||◌, Bool-cases, inl, inr, List, [], ◌∷◌,
  ◌++◌, map, ◌==◌, any, every, unique, any-append, unique-together, every_weaken, arith,
}
use supply_chain_integration.Store.Rows.{Uuid}
use supply_chain_integration.Store.Rows.Imports.{OperationEvent}
use supply_chain_integration.Learning.Stream.{Chunk, operation, is_seen, unseen, sent_ids}

abbrev pub same_event : OperationEvent → OperationEvent → Bool
same_event a b = a.id == b.id

abbrev pub is_new : List Uuid → OperationEvent → Bool
is_new seen e = not (is_seen seen e)

any-sent :
    (e : OperationEvent) (es : List OperationEvent) (seen : List Uuid)
    → is_seen (sent_ids es ++ seen) e ≡ (any (λ y. y.id == e.id) es || is_seen seen e)
unfolding any
any-sent e [] seen = refl
any-sent e (y ∷ es) seen = ground (arith, any-sent e es seen)

any-same :
    (e : OperationEvent) (es : List OperationEvent)
    → any (λ y. y.id == e.id) es ≡ any (same_event e) es
unfolding any
any-same e [] = refl
any-same e (y ∷ es) = ground (arith, any-same e es)

every_new_weaken :
    (id : Uuid) (seen : List Uuid) (es : List OperationEvent)
    → every (is_new (id ∷ seen)) es ≡ true
    → every (is_new seen) es ≡ true
unfolding every any
every_new_weaken id seen [] h = refl
every_new_weaken id seen (e ∷ es) h = ground (arith, every_new_weaken id seen es)

new-apart :
    (e : OperationEvent) (seen : List Uuid) (es : List OperationEvent)
    → every (is_new (e.id ∷ seen)) es ≡ true
    → any (same_event e) es ≡ false
unfolding every any
new-apart e seen [] h = refl
new-apart e seen (y ∷ es) h = ground (arith, new-apart e seen es)

pub unseen-new :
    (seen : List Uuid) (es : List OperationEvent) → every (is_new seen) (unseen seen es) ≡ true
unfolding unseen every
unseen-new seen [] = refl
unseen-new seen (e ∷ es) = ground (
  arith,
  unseen-new seen es,
  every_new_weaken e.id seen (unseen (e.id ∷ seen) es) (unseen-new (e.id ∷ seen) es),
)

pub unseen-unique :
    (seen : List Uuid) (es : List OperationEvent) → unique same_event (unseen seen es) ≡ true
unfolding unseen unique
unseen-unique seen [] = refl
unseen-unique seen (e ∷ es) = ground (
  arith,
  unseen-unique seen es,
  unseen-unique (e.id ∷ seen) es,
  new-apart e seen (unseen (e.id ∷ seen) es) (unseen-new (e.id ∷ seen) es),
)

-- An event is sent, now or before.
abbrev pub is_sent : List Uuid → List OperationEvent → OperationEvent → Bool
is_sent seen es e = is_seen seen e || any (same_event e) es

unseen-old :
    (seen : List Uuid) (e : OperationEvent) (es : List OperationEvent)
    → is_seen seen e ≡ true
    → unseen seen (e ∷ es) ≡ unseen seen es
unfolding unseen
unseen-old seen e es h = rw h refl

unseen-first :
    (seen : List Uuid) (e : OperationEvent) (es : List OperationEvent)
    → is_seen seen e ≡ false
    → unseen seen (e ∷ es) ≡ e ∷ unseen (e.id ∷ seen) es
unfolding unseen
unseen-first seen e es h = rw h refl

pub unseen-covers :
    (seen : List Uuid) (es : List OperationEvent) → every (is_sent seen (unseen seen es)) es ≡ true
unfolding every any
unseen-covers seen [] = refl
unseen-covers seen (e ∷ es) = elim (Bool-cases (is_seen seen e)) [
  | inl old ↦
      subst (λ u. every (is_sent seen u) (e ∷ es) ≡ true) (sym (unseen-old seen e es old))
        (ground (arith, old, unseen-covers seen es))
  | inr first ↦
      let later = unseen (e.id ∷ seen) es in
      subst (λ u. every (is_sent seen u) (e ∷ es) ≡ true) (sym (unseen-first seen e es first))
        (ground (
          arith,
          every_weaken (is_sent (e.id ∷ seen) later) (is_sent seen (e ∷ later))
              (λ x h. ground arith) es (unseen-covers (e.id ∷ seen) es),
        ))
]

any-same_id :
    (x y : OperationEvent) (es : List OperationEvent)
    → x.id ≡ y.id
    → any (same_event x) es ≡ any (same_event y) es
unfolding any
any-same_id x y [] e = refl
any-same_id x y (z ∷ es) e = ground (arith, any-same_id x y es)

-- Events that are new after `es` was sent are none of `es`.
pub apart_from :
    (seen : List Uuid) (es : List OperationEvent) (x : OperationEvent) (ys : List OperationEvent)
    → any (same_event x) es ≡ true
    → every (is_new (sent_ids es ++ seen)) ys ≡ true
    → any (same_event x) ys ≡ false
unfolding any every
apart_from seen es x [] h all = refl
apart_from seen es x (y ∷ ys) h all =
    ground (arith, any-sent y es seen, any-same y es, any-same_id x y es, apart_from seen es x ys h)

pub every_own : (xs : List OperationEvent) → every (λ x. any (same_event x) xs) xs ≡ true
unfolding every any
every_own [] = refl
every_own (x ∷ xs) = ground (
  arith,
  every_weaken (λ y. any (same_event y) xs) (λ y. y.id == x.id || any (same_event y) xs)
      (λ y h. ground arith) xs (every_own xs),
)

pub new-weaken :
    (seen : List Uuid) (es ys : List OperationEvent)
    → every (is_new (sent_ids es ++ seen)) ys ≡ true
    → every (is_new seen) ys ≡ true
new-weaken seen es ys h =
    every_weaken (is_new (sent_ids es ++ seen)) (is_new seen)
      (λ e h. ground (arith, any-sent e es seen)) ys h

pub sent_weaken :
    (seen : List Uuid) (es es' ys : List OperationEvent)
    → every (is_sent (sent_ids es ++ seen) es') ys ≡ true
    → every (is_sent seen (es ++ es')) ys ≡ true
sent_weaken seen es es' ys h =
    every_weaken (is_sent (sent_ids es ++ seen) es') (is_sent seen (es ++ es'))
      (λ e h. ground (arith, any-sent e es seen, any-same e es, any-append (same_event e) es es'))
      ys h

pub sent_before :
    (seen : List Uuid) (es es' ys : List OperationEvent)
    → every (is_sent seen es) ys ≡ true
    → every (is_sent seen (es ++ es')) ys ≡ true
sent_before seen es es' ys h =
    every_weaken (is_sent seen es) (is_sent seen (es ++ es'))
      (λ e h. ground (arith, any-append (same_event e) es es')) ys h

pub map-append :
    (xs ys : List OperationEvent) → map operation (xs ++ ys) ≡ map operation xs ++ map operation ys
map-append [] ys = refl
map-append (x ∷ xs) ys = ap (λ zs. operation x ∷ zs) (map-append xs ys)

pub append_assoc : (xs ys zs : List Chunk) → xs ++ (ys ++ zs) ≡ (xs ++ ys) ++ zs
append_assoc [] ys zs = refl
append_assoc (x ∷ xs) ys zs = ap (λ ws. x ∷ ws) (append_assoc xs ys zs)

-- The rest of a stream does not repeat what a round has sent.
pub once_together :
    (seen : List Uuid) (es es' : List OperationEvent)
    → unique same_event es ≡ true
    → unique same_event es' ≡ true
    → every (is_new (sent_ids es ++ seen)) es' ≡ true
    → unique same_event (es ++ es') ≡ true
once_together seen es es' u u' apart =
    unique-together same_event (λ x. any (same_event x) es) es es'
      (λ x h. apart_from seen es x es' h apart) (every_own es) u u'
