-- ===== src/Ingestion/Registry.antt =====
-- crates/harbormaster/src/ingestion/registry.rs: trusted registration and replay-safe admission.
-- A method takes the registry and returns its result beside the registry that it leaves; what an
-- early return has changed stays changed. An `Rc<()>` is the number of its allocation, so that
-- `Rc::ptr_eq` is equality; `allocated` counts the scopes that the registry has handed out.
pub mod Types
pub mod Reservation
pub mod Soundness
pub mod Preserves
pub mod Reserving
pub mod Admitting
pub mod Outcomes
pub mod Refusals
pub mod History
pub mod Revocation
pub mod Sessions
pub mod Connecting
use Types.{
  ProducerRegistration, EventSession, Producer, Registry, Peer, Channel, channel_eq, new_producer,
  saturating_add,
}
use omarchy_harbormaster.Common.{
  ℕ, ◌+◌, ◌-◌, Bool, true, false, not, ◌&&◌, ◌||◌, List, [], ◌∷◌, Option, none, some, ◌==◌, ltb,
  leb, length, contains, if◌then◌else◌, Result, ok, err, nat_eq, option_eq, ◌>>=◌, ◌>>◌, reject_if,
  ok_or,
}
use omarchy_harbormaster.Common.BTreeMap
use omarchy_harbormaster.Common.BTreeMap.{BTreeMap, get, insert, len, is_some}
use omarchy_harbormaster.Common.BTreeSet
use omarchy_harbormaster.Common.BTreeSet.{BTreeSet}
use omarchy_harbormaster.Protocol.{ProtocolError}
use omarchy_harbormaster.Protocol.Identity.{
  ident_eq, ProducerId, ProducerGeneration, Seq, checked_next,
}
use omarchy_harbormaster.Protocol.Event.{
  EventEnvelope, EventHandshake, EventKind, envelope_eq, harness_eq, kind_eq, kind_ord, kind,
  all_kinds,
}
use omarchy_harbormaster.Ingestion.Queue
use omarchy_harbormaster.Ingestion.{
  Admission, AdmissionError, max_producers, max_producer_receipts, max_receipts, max_receipt_bytes,
}

-- `unique_signals`
unfoldable pub unique_signals : List EventKind → Result AdmissionError (BTreeSet EventKind)
unique_signals signals =
    let unique : BTreeSet EventKind = BTreeSet.collect signals in
    if ltb (length all_kinds) (length signals) || not (length unique == length signals)
    then err AdmissionError.invalid_handshake
    else ok unique

-- `Registry::new`
unfoldable pub new : ℕ → Registry
new authority = record {
  authority = authority;
  producers = BTreeMap.empty;
  queue = Queue.empty;
  receipts = 0;
  receipt_bytes = 0;
  discarded = 0;
  rejected = 0;
  allocated = 0;
}

-- `self.producers.insert(id, Producer::new(registration))`
unfoldable pub enroll : ProducerRegistration → Registry → Registry
enroll registration r = record r {
  producers = insert registration.producer_id (new_producer r.allocated registration) r.producers;
  allocated = r.allocated + 1;
}

-- The checks of `register`.
unfoldable pub may_register : Registry → ProducerRegistration → Result AdmissionError (Unit {0})
may_register r registration = do
  reject_if (is_some (get registration.producer_id r.producers)) AdmissionError.conflict
  reject_if (leb max_producers (len r.producers)) AdmissionError.resource_exhausted
  unique_signals registration.allowed_signals
  ok tt

-- `Registry::register`
unfoldable pub register :
    ProducerRegistration → Registry → Result AdmissionError (Unit {0}) × Registry
register registration r = elim (may_register r registration) [
  | err e ↦ (err e, r)
  | ok _ ↦ (ok tt, enroll registration r)
]

-- `Registry::discard_queued`
unfoldable pub discard_queued : ProducerId → Registry → ℕ × Registry
discard_queued producer r =
    let (discarded, queue) = Queue.discard r.queue producer in
    (discarded, record r { queue = queue; discarded = saturating_add r.discarded discarded })

-- The checks of `install_committed`; the result is the receipts and the bytes to give back.
unfoldable pub may_install : Registry → ProducerRegistration → Result AdmissionError (ℕ × ℕ)
may_install r registration = do
  unique_signals registration.allowed_signals
  elim (get registration.producer_id r.producers) [
    | some previous ↦
        let old : ProducerRegistration = previous.registration in
        if not (old.run_id == registration.run_id)
          || not (old.harness == registration.harness)
          || not (old.uid == registration.uid)
        then err AdmissionError.permission_denied
        else if old.generation == registration.generation
        then err AdmissionError.stale_generation
        else ok (len previous.receipts, previous.bytes)
    | none ↦
        if leb max_producers (len r.producers)
        then err AdmissionError.resource_exhausted
        else ok (0, 0)
  ]

-- `install_committed` behind its checks.
unfoldable pub replace_producer : ProducerRegistration → ℕ → ℕ → Registry → ℕ × Registry
replace_producer registration receipts bytes r =
    let released : Registry = record r {
      receipts = r.receipts - receipts;
      receipt_bytes = r.receipt_bytes - bytes;
    } in
    let (discarded, r') = discard_queued registration.producer_id released in
    (discarded, enroll registration r')

-- `Registry::install_committed`
unfoldable pub install_committed :
    ProducerRegistration → Registry → Result AdmissionError ℕ × Registry
install_committed registration r = elim (may_install r registration) [
  | err e ↦ (err e, r)
  | ok (receipts, bytes) ↦
      let (discarded, r') = replace_producer registration receipts bytes r in (ok discarded, r')
]

-- A producer with a new scope, through which no earlier session is admitted.
unfoldable pub rescope : ProducerId → Producer → Registry → Registry
rescope id producer r = record r {
  producers = insert id (record producer { scope = r.allocated }) r.producers;
  allocated = r.allocated + 1;
}

-- `Registry::invalidate`
unfoldable pub invalidate : ProducerId → Registry → Result AdmissionError ℕ × Registry
invalidate id r = elim (get id r.producers) [
  | none ↦ (err AdmissionError.unknown_producer, r)
  | some producer ↦
      let (discarded, r') = discard_queued id (rescope id (record producer { blocked = true }) r) in
      (ok discarded, r')
]

-- `Registry::invalidate_generation`
unfoldable pub invalidate_generation :
    ProducerId → Option ProducerGeneration → Registry → Result AdmissionError ℕ × Registry
invalidate_generation id generation r = elim (get id r.producers) [
  | none ↦ (ok 0, r)
  | some producer ↦
      if not (generation == some producer.registration.generation)
      then (err AdmissionError.stale_generation, r)
      else invalidate id r
]

-- `Registry::connect`
unfoldable pub connect : Registry → Peer → EventHandshake → Result AdmissionError EventSession
connect r peer handshake = do
  reject_if (not (peer.channel == Channel.event)) AdmissionError.permission_denied
  producer ← ok_or (get handshake.producer_id r.producers) AdmissionError.unknown_producer
  let registration = producer.registration
  reject_if (not (handshake.generation == registration.generation)) AdmissionError.stale_generation
  reject_if
      (not (peer.uid == registration.uid)
        || not (handshake.run_id == registration.run_id)
        || not (handshake.harness == registration.harness))
      AdmissionError.permission_denied
  reject_if producer.blocked AdmissionError.reconciliation_required
  requested ← unique_signals handshake.requested_signals
  allowed ← unique_signals registration.allowed_signals
  ok (record {
    authority = r.authority;
    scope = producer.scope;
    producer = handshake.producer_id;
    generation = handshake.generation;
    signals = BTreeSet.intersection requested allowed;
  })

-- The writes of `reconcile` on its producer; its scope is set by `rescope`.
abbrev pub renewed : Producer → ProducerGeneration → Seq → Producer
renewed producer generation next = record producer {
  receipts = BTreeMap.empty;
  event_ids = BTreeMap.empty;
  bytes = 0;
  registration = record producer.registration { generation = generation };
  next = some next;
  blocked = false;
}

-- `reconcile` behind its checks.
unfoldable pub renew : ProducerId → Producer → ProducerGeneration → Seq → Registry → Registry
renew id producer generation next r =
    let released : Registry = record r {
      receipts = r.receipts - len producer.receipts;
      receipt_bytes = r.receipt_bytes - producer.bytes;
    } in
    (discard_queued id (rescope id (renewed producer generation next) released)).1

-- `Registry::reconcile`; `fresh` is what the system's entropy gave, or nothing.
unfoldable pub reconcile :
    ProducerId
    → Seq
    → Option ProducerGeneration
    → Registry
    → Result AdmissionError ProducerGeneration × Registry
reconcile id next fresh r = elim (get id r.producers) [
  | none ↦ (err AdmissionError.unknown_producer, r)
  | some producer ↦ elim fresh [
    | none ↦ (err AdmissionError.entropy_unavailable, r)
    | some generation ↦
        if generation == producer.registration.generation
        then (err AdmissionError.stale_generation, r)
        else (ok generation, renew id producer generation next r)
  ]
]

-- `Registry::pop`
unfoldable pub pop : Registry → Option EventEnvelope × Registry
pop r = let (event, queue) = Queue.pop r.queue in (event, record r { queue = queue })
