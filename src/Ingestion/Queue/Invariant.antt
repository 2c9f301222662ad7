-- ===== src/Ingestion/Queue/Invariant.antt =====
-- The bookkeeping of ingestion/queue.rs is kept by each of its operations.
use omarchy_harbormaster.Common.{
  ◌≡◌, refl, false, ◌||◌, List, [], ◌∷◌, ◌++◌, Option, none, some, ◌==◌, length, All, if◌then◌else◌,
  contains, arith, length-append,
}
use omarchy_harbormaster.Common.BTreeSet.{Distinct}
use omarchy_harbormaster.Common.BTreeMap.{
  get, NodupKeys, total, contains_key, get-insert, get-remove, get-insert_self, get-insert_other,
  weight, total-insert, total-remove, insert-NodupKeys, remove-NodupKeys,
}
use omarchy_harbormaster.Protocol.Identity.{ProducerId, ident_eq}
use omarchy_harbormaster.Protocol.Event.{EventEnvelope}
use omarchy_harbormaster.Ingestion.Queue.{
  Queue, empty, pending, or_empty, push, take_event, retain_other,
}

-- A waiting list is not empty, and its events are the producer's.
abbrev pub Waits : ProducerId → Option (List EventEnvelope) → Type 0
Waits producer none = Unit
Waits producer (some []) = ⊥
Waits producer (some (event ∷ events)) =
    All (λ (e : EventEnvelope). e.producer_id ≡ producer) (event ∷ events)

pub record IsWellFormed (q : Queue) : Type 0 where
  pub keys : NodupKeys q.producers
  pub counted : q.count ≡ total length q.producers
  pub waiting : (producer : ProducerId) → Waits producer (get producer q.producers)
  pub ready_keys :
      (producer : ProducerId) → contains q.ready producer ≡ contains_key producer q.producers
  pub distinct : Distinct q.ready

contains-snoc :
    (ids : List ProducerId) (a b : ProducerId)
    → contains (ids ++ a ∷ []) b ≡ (a == b || contains ids b)
contains-snoc [] a b = ground arith
contains-snoc (x ∷ xs) a b = ground (arith, contains-snoc xs a b)

snoc-Distinct :
    (ids : List ProducerId) (a : ProducerId)
    → Distinct ids
    → contains ids a ≡ false
    → Distinct (ids ++ a ∷ [])
snoc-Distinct [] a d n = (refl, tt)
snoc-Distinct (x ∷ xs) a d n = ground (arith, snoc-Distinct xs a d.1, contains-snoc xs a x)

pub contains-retain_other :
    (a b : ProducerId) (ids : List ProducerId)
    → contains (retain_other a ids) b ≡ (if a == b then false else contains ids b)
unfolding retain_other
contains-retain_other a b [] = ground arith
contains-retain_other a b (x ∷ xs) = ground (arith, contains-retain_other a b xs)

pub retain_other-Distinct :
    (a : ProducerId) (ids : List ProducerId) → Distinct ids → Distinct (retain_other a ids)
unfolding retain_other
retain_other-Distinct a [] d = tt
retain_other-Distinct a (x ∷ xs) d =
    ground (arith, retain_other-Distinct a xs d.1, contains-retain_other a x xs)

Waits-snoc :
    (producer : ProducerId) (waiting : Option (List EventEnvelope)) (event : EventEnvelope)
    → Waits producer waiting
    → event.producer_id ≡ producer
    → Waits producer (some (or_empty waiting ++ event ∷ []))
Waits-snoc producer none event w e = (e, tt)
Waits-snoc producer (some []) event w e = absurd w
Waits-snoc producer (some (x ∷ xs)) event w e = (w.0, All-snoc xs w.1)
  where
    All-snoc :
        (es : List EventEnvelope)
        → All (λ (e : EventEnvelope). e.producer_id ≡ producer) es
        → All (λ (e : EventEnvelope). e.producer_id ≡ producer) (es ++ event ∷ [])
    All-snoc [] h = (e, tt)
    All-snoc (y ∷ ys) h = (h.0, All-snoc ys h.1)

-- The empty queue is well formed.
pub empty-IsWellFormed : IsWellFormed empty
unfolding get
empty-IsWellFormed = record {
  keys = tt;
  counted = refl;
  waiting = λ producer. tt;
  ready_keys = λ producer. refl;
  distinct = tt;
}

pub weight-pending :
    (waiting : Option (List EventEnvelope)) → weight length waiting ≡ length (or_empty waiting)
weight-pending none = refl
weight-pending (some events) = refl

-- `push` keeps the queue well formed.
pub push-IsWellFormed :
    (q : Queue) (event : EventEnvelope) → IsWellFormed q → IsWellFormed (push q event)
unfolding push
push-IsWellFormed q event w =
    let producer = event.producer_id in
    let longer = pending q producer ++ event ∷ [] in
    record {
      keys = insert-NodupKeys producer longer q.producers w.keys;
      counted = omega (
        arith,
        total-insert length producer longer q.producers,
        length-append (pending q producer) (event ∷ []),
        weight-pending (get producer q.producers),
        w.counted,
      );
      waiting = λ p. elim (ident_eq.dec producer p) [
        | yes e ↦
            rw (← e, get-insert_self producer longer q.producers)
              (Waits-snoc producer (get producer q.producers) event (w.waiting producer) refl)
        | no n ↦ rw (get-insert_other p producer longer q.producers n) (w.waiting p)
      ];
      ready_keys = λ p. ground (
        arith,
        contains-snoc q.ready producer p,
        get-insert p producer longer q.producers,
        w.ready_keys p,
        w.ready_keys producer,
        w.waiting producer,
      );
      distinct = ground (
        arith,
        snoc-Distinct q.ready producer w.distinct,
        w.ready_keys producer,
        w.waiting producer,
      );
    }

module _ (q : Queue) (producer : ProducerId) (ready : List ProducerId) (event : EventEnvelope)
    (rest : List EventEnvelope) (w : IsWellFormed q) (first : q.ready ≡ producer ∷ ready)
    (held : get producer q.producers ≡ some (event ∷ rest)) where
  abbrev without_first : Queue
  without_first = record q { ready = ready }

  taken_counted :
      (take_event without_first producer event rest).count
      ≡ total length (take_event without_first producer event rest).producers
  unfolding take_event
  taken_counted = ground (
    arith,
    total-insert length producer rest q.producers,
    total-remove length producer q.producers w.keys,
    held,
    w.counted,
  )

  taken_waiting :
      (p : ProducerId) → Waits p (get p (take_event without_first producer event rest).producers)
  unfolding take_event
  taken_waiting p = ground (
    arith,
    get-insert p producer rest q.producers,
    get-remove p producer q.producers,
    w.waiting p,
    held,
  )

  taken_ready :
      (p : ProducerId)
      → contains (take_event without_first producer event rest).ready p
        ≡ contains_key p (take_event without_first producer event rest).producers
  unfolding take_event
  taken_ready p = ground (
    arith,
    get-insert p producer rest q.producers,
    get-remove p producer q.producers,
    contains-snoc ready producer p,
    w.ready_keys p,
    w.distinct,
    first,
  )

  pub take_event-IsWellFormed : IsWellFormed (take_event without_first producer event rest)
  unfolding take_event
  take_event-IsWellFormed = record {
    keys = ground (
      arith,
      insert-NodupKeys producer rest q.producers w.keys,
      remove-NodupKeys producer q.producers w.keys,
    );
    counted = taken_counted;
    waiting = taken_waiting;
    ready_keys = taken_ready;
    distinct = ground (arith, snoc-Distinct ready producer, w.distinct, first);
  }
