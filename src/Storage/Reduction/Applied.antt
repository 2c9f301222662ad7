-- ===== src/Storage/Reduction/Applied.antt =====
-- What a transaction of storage/reducer_transaction.rs that commits has done, step by step.
use omarchy_harbormaster.Common.{ℕ, ◌≡◌, false, ok, bind_ok, length}
use omarchy_harbormaster.Protocol.Identity.{ident_eq, Revision}
use omarchy_harbormaster.Storage.Types.{ReducerWrite, Response, max_facts}
use omarchy_harbormaster.Storage.Database.{
  Database, capacity, discarded_next, producer, require_revision,
}
use omarchy_harbormaster.Storage.Reduction.{apply_new, bury, projection, record_fact, scope}
use omarchy_harbormaster.Storage.Attention

module _ {Text : Type 0} where
  -- The steps of `apply_new`.
  pub record Applied (set : ReducerWrite) (identity : Text) (db : Database Text)
      (out : Response × Database Text) : Type 0 where
    pub next : Revision
    pub discarded : ℕ
    pub shown : Database Text
    pub asked : Database Text
    pub buried : Database Text
    pub revised : require_revision db set.expected_revision ≡ ok next
    pub scoped : scope set.fact (producer db set.fact.producer_id) ≡ ok tt
    pub counted : discarded_next db set.discarded_events ≡ ok discarded
    pub room : capacity (length db.facts) max_facts 1 ≡ ok tt
    pub projected : projection set.effects.projection set.effects.current_turn db ≡ ok shown
    pub obliged : Attention.apply set next shown ≡ ok asked
    pub ended : bury set next set.effects.tombstone asked ≡ ok buried
    pub done : out ≡ (Response.committed next false, record_fact set identity discarded next buried)

  pub apply_new-Applied :
      (set : ReducerWrite) (identity : Text) (db : Database Text) {out : Response × Database Text}
      → apply_new set identity db ≡ ok out
      → Applied set identity db out
  unfolding apply_new
  apply_new-Applied set identity db h =
      let (next, e1, h1) = bind_ok (require_revision db set.expected_revision) _ h in
      let (_, e2, h2) = bind_ok (scope set.fact (producer db set.fact.producer_id)) _ h1 in
      let (discarded, e3, h3) = bind_ok (discarded_next db set.discarded_events) _ h2 in
      let (_, e4, h4) = bind_ok (capacity (length db.facts) max_facts 1) _ h3 in
      let (shown, e5, h5) =
        bind_ok (projection set.effects.projection set.effects.current_turn db) _ h4 in
      let (asked, e6, h6) = bind_ok (Attention.apply set next shown) _ h5 in
      let (buried, e7, h7) = bind_ok (bury set next set.effects.tombstone asked) _ h6 in
      record {
        next = next;
        discarded = discarded;
        shown = shown;
        asked = asked;
        buried = buried;
        revised = e1;
        scoped = e2;
        counted = e3;
        room = e4;
        projected = e5;
        obliged = e6;
        ended = e7;
        done = cc;
      }
