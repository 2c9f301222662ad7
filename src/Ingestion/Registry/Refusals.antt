-- ===== src/Ingestion/Registry/Refusals.antt =====
-- A refusal by `admit` of ingestion/registry.rs.
use omarchy_harbormaster.Common.{
  ℕ, ◌≡◌, ◌≢◌, ◌⊎◌, refl, ap, sym, ◌∙◌, subst, true, List, some, ◌==◌, length, if◌then◌else◌, arith,
  inl, inr, Result, ok, err, nat_eq,
}
use omarchy_harbormaster.Common.BTreeMap.{get, insert}
use omarchy_harbormaster.Protocol.{ProtocolError}
use omarchy_harbormaster.Protocol.Identity.{ProducerId, ident_eq}
use omarchy_harbormaster.Protocol.Event.{EventEnvelope}
use omarchy_harbormaster.Ingestion.{Admission, AdmissionError}
use omarchy_harbormaster.Ingestion.Registry.Types.{Registry, Producer, EventSession, saturating_add}
use omarchy_harbormaster.Ingestion.Registry.Reservation.{reserve, count_rejection, admit}
use omarchy_harbormaster.Ingestion.Registry.Reserving.{
  refused, blocks, again, admitted, reserve-Reserved,
}

-- What a refused frame leaves: everything but the count of rejections, and perhaps the flag that
-- blocks the session's own producer.
pub record Spares (r : Registry) (id : ProducerId) (r' : Registry) : Type 0 where
  pub authority : r'.authority ≡ r.authority
  pub allocated : r'.allocated ≡ r.allocated
  pub queue : r'.queue ≡ r.queue
  pub receipts : r'.receipts ≡ r.receipts
  pub receipt_bytes : r'.receipt_bytes ≡ r.receipt_bytes
  pub discarded : r'.discarded ≡ r.discarded
  pub producers :
      (r'.producers ≡ r.producers)
      ⊎ ((p : Producer) × (get id r.producers ≡ some p)
          × (r'.producers ≡ insert id (record p { blocked = true }) r.producers))

Spares-refl : (r : Registry) (id : ProducerId) → Spares r id r
Spares-refl r id = record {
  authority = refl;
  allocated = refl;
  queue = refl;
  receipts = refl;
  receipt_bytes = refl;
  discarded = refl;
  producers = inl refl;
}

reserve_refused :
    (session : EventSession) (event : EventEnvelope) (bytes : ℕ) (r s : Registry)
    (e : AdmissionError)
    → reserve session event bytes r ≡ (err e, s)
    → Spares r session.producer s × (s.rejected ≡ r.rejected)
reserve_refused session event bytes r s e h = elim (reserve-Reserved session event bytes r) [
  | refused _ out ↦
      let left = ap (λ o. o.1) (sym out ∙ h) in
      (
        subst (Spares r session.producer) left (Spares-refl r session.producer),
        ap (λ (s : Registry). s.rejected) (sym left),
      )
  | blocks _ p held _ out ↦
      let left = ap (λ o. o.1) (sym out ∙ h) in
      (
        subst (Spares r session.producer) left (record {
          authority = refl;
          allocated = refl;
          queue = refl;
          receipts = refl;
          receipt_bytes = refl;
          discarded = refl;
          producers = inr (p, held, refl);
        }),
        ap (λ (s : Registry). s.rejected) (sym left),
      )
  | again p _ _ _ _ out ↦ cc (ap (λ o. o.0) (sym out ∙ h))
  | admitted p _ _ _ _ _ _ _ _ out ↦ cc (ap (λ o. o.0) (sym out ∙ h))
]

count_rejection-err :
    (out : Result AdmissionError Admission × Registry) (r' : Registry) (e : AdmissionError)
    → count_rejection out ≡ (err e, r')
    → (out ≡ (err e, out.1)) × (r' ≡ record (out.1) { rejected = saturating_add out.1.rejected 1 })
unfolding count_rejection
count_rejection-err (ok a, s) r' e h = cc (ap (λ o. o.0) h)
count_rejection-err (err e0, s) r' e h = (ground arith, ap (λ o. o.1) (sym h))

-- A refused frame of the registry's own session.
count_rejection-Spares :
    (out : Result AdmissionError Admission × Registry) (r r' : Registry) (id : ProducerId)
    (e : AdmissionError)
    → count_rejection out ≡ (err e, r')
    → (out ≡ (err e, out.1) → Spares r id out.1 × (out.1.rejected ≡ r.rejected))
    → Spares r id r' × (r'.rejected ≡ saturating_add r.rejected 1)
count_rejection-Spares out r r' id e h inner =
    let counted = count_rejection-err out r' e h in
    let (spares, same) = inner counted.0 in
    (
      subst (Spares r id) (sym counted.1) (record {
        authority = spares.authority;
        allocated = spares.allocated;
        queue = spares.queue;
        receipts = spares.receipts;
        receipt_bytes = spares.receipt_bytes;
        discarded = spares.discarded;
        producers = spares.producers;
      }),
      ap (λ (s : Registry). s.rejected) counted.1 ∙ ap (λ n. saturating_add n 1) same,
    )

admit_own :
    (session : EventSession) (frame : List ℕ) (parsed : Result ProtocolError EventEnvelope)
    (r r' : Registry) (e : AdmissionError)
    → session.authority ≡ r.authority
    → admit session frame parsed r ≡ (err e, r')
    → Spares r session.producer r' × (r'.rejected ≡ saturating_add r.rejected 1)
unfolding admit
admit_own session frame (err e0) r r' e same h =
    count_rejection-Spares (err (AdmissionError.protocol e0), r) r r' session.producer e
      (ground (arith, same)) (λ _. (Spares-refl r session.producer, refl))
admit_own session frame (ok event) r r' e same h =
    count_rejection-Spares (reserve session event (length frame) r) r r' session.producer e
      (ground (arith, same)) (reserve_refused session event (length frame) r _ e)

admit_denied :
    (session : EventSession) (frame : List ℕ) (parsed : Result ProtocolError EventEnvelope)
    (r : Registry)
    → session.authority ≢ r.authority
    → admit session frame parsed r ≡ (err AdmissionError.permission_denied, r)
unfolding admit
admit_denied session frame parsed r other = ground (arith, other)

admit_foreign :
    (session : EventSession) (frame : List ℕ) (parsed : Result ProtocolError EventEnvelope)
    (r r' : Registry) (e : AdmissionError)
    → session.authority ≢ r.authority
    → admit session frame parsed r ≡ (err e, r')
    → r ≡ r'
admit_foreign session frame (err e0) r r' e other h =
    ap (λ (o : Result AdmissionError Admission × Registry). o.1)
      (sym (admit_denied session frame (err e0) r other) ∙ h)
admit_foreign session frame (ok event) r r' e other h =
    ap (λ (o : Result AdmissionError Admission × Registry). o.1)
      (sym (admit_denied session frame (ok event) r other) ∙ h)

-- A refused frame is counted if the session is this registry's, and changes nothing else, unless
-- it blocks the session's own producer.
pub admit_refused :
    (session : EventSession) (frame : List ℕ) (parsed : Result ProtocolError EventEnvelope)
    (r r' : Registry) (e : AdmissionError)
    → admit session frame parsed r ≡ (err e, r')
    → Spares r session.producer r'
      × (r'.rejected
          ≡ (if session.authority == r.authority then saturating_add r.rejected 1 else r.rejected))
admit_refused session frame parsed r r' e h = elim (nat_eq.dec session.authority r.authority) [
  | yes same ↦
      let (spares, counted) = admit_own session frame parsed r r' e same h in
      (spares, ground (arith, counted, same))
  | no other ↦
      let left = admit_foreign session frame parsed r r' e other h in
      (
        subst (Spares r session.producer) left (Spares-refl r session.producer),
        ground (arith, other, ap (λ (s : Registry). s.rejected) left),
      )
]
