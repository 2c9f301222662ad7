-- ===== src/Ingestion/Registry/Soundness.antt =====
-- The limits and the counters of ingestion/registry.rs.
use omarchy_harbormaster.Common.{
  ℕ, ◌+◌, ◌≤◌, ◌<◌, ◌≡◌, ◌≢◌, ◌⊎◌, true, [], Option, none, some, arith,
}
use omarchy_harbormaster.Common.BTreeMap.{
  get, insert, len, NodupKeys, total, weight, contains_key, get-insert_self, get-insert_other,
  total-insert, insert-NodupKeys, len-insert,
}
use omarchy_harbormaster.Protocol.Identity.{ProducerId, ident_eq}
use omarchy_harbormaster.Ingestion.{
  max_producers, max_producer_receipts, max_receipts, max_receipt_bytes,
}
use omarchy_harbormaster.Ingestion.Queue.{pending}
use omarchy_harbormaster.Ingestion.Queue.Capacity.{Fits}
use omarchy_harbormaster.Ingestion.Registry.Types.{Registry, Producer}

abbrev pub receipt_count : Producer → ℕ
receipt_count p = len p.receipts

abbrev pub byte_count : Producer → ℕ
byte_count p = p.bytes

-- A registered producer stands under its own id, in a scope that was handed out, within its limit.
abbrev pub SoundProducer : ProducerId → ℕ → Option Producer → Type 0
SoundProducer id allocated none = Unit
SoundProducer id allocated (some p) =
    (p.registration.producer_id ≡ id)
    × (p.scope < allocated)
    × (receipt_count p ≤ max_producer_receipts)

-- The counters are the sums over the producers, every limit holds, and nothing waits for a
-- producer that is not registered.
pub record IsSound (r : Registry) : Type 0 where
  pub queue_fits : Fits r.queue
  pub keys : NodupKeys r.producers
  pub counted : r.receipts ≡ total receipt_count r.producers
  pub weighed : r.receipt_bytes ≡ total byte_count r.producers
  pub receipts_fit : r.receipts ≤ max_receipts
  pub bytes_fit : r.receipt_bytes ≤ max_receipt_bytes
  pub producers_fit : len r.producers ≤ max_producers
  pub each : (id : ProducerId) → SoundProducer id r.allocated (get id r.producers)
  pub known : (id : ProducerId) → get id r.producers ≡ none → pending r.queue id ≡ []

SoundProducer-later :
    (id : ProducerId) (a b : ℕ) (p : Option Producer)
    → a ≤ b
    → SoundProducer id a p
    → SoundProducer id b p
SoundProducer-later id a b none h s = tt
SoundProducer-later id a b (some p) h s = ground arith

-- One producer is put in place, and the counters follow.
pub update-IsSound :
    (r r' : Registry) (id : ProducerId) (p : Producer)
    → IsSound r
    → r'.producers ≡ insert id p r.producers
    → r'.receipts + weight receipt_count (get id r.producers) ≡ r.receipts + receipt_count p
    → r'.receipt_bytes + weight byte_count (get id r.producers) ≡ r.receipt_bytes + byte_count p
    → r'.receipts ≤ max_receipts
    → r'.receipt_bytes ≤ max_receipt_bytes
    → ((contains_key id r.producers ≡ true) ⊎ (len r.producers < max_producers))
    → r.allocated ≤ r'.allocated
    → SoundProducer id r'.allocated (some p)
    → Fits r'.queue
    → ((j : ProducerId) → id ≢ j → get j r.producers ≡ none → pending r'.queue j ≡ [])
    → IsSound r'
update-IsSound r r' id p s e rc bc rb bb room later sp q k = record {
  queue_fits = q;
  keys = rw e (insert-NodupKeys id p r.producers s.keys);
  counted = rw e (omega (arith, total-insert receipt_count id p r.producers, s.counted, rc));
  weighed = rw e (omega (arith, total-insert byte_count id p r.producers, s.weighed, bc));
  receipts_fit = rb;
  bytes_fit = bb;
  producers_fit = rw e (ground (arith, len-insert id p r.producers, s.producers_fit, room));
  each = λ j. elim (ident_eq.dec id j) [
    | yes same ↦ rw (e, ← same, get-insert_self id p r.producers) sp
    | no other ↦
        rw (e, get-insert_other j id p r.producers other)
          (SoundProducer-later j r.allocated r'.allocated (get j r.producers) later (s.each j))
  ];
  known = λ j n. elim (ident_eq.dec id j) [
    | yes same ↦ cc (get-insert_self id p r.producers, same, e, n)
    | no other ↦ k j other (ground (arith, get-insert_other j id p r.producers other, n, e))
  ];
}
