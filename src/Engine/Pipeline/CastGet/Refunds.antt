-- ===== src/Engine/Pipeline/CastGet/Refunds.antt =====
-- What the refunds of a CAST-GET free, and what they leave free.
use agent_handshake_protocol.Prelude.{
  String, ◌≡◌, ap, subst, ◌∙◌, ◌⊎◌, inl, inr, true, false, ◌==◌, eq_iff, none, List, [], ◌∷◌,
  is_some, Bool-cases,
}
use agent_handshake_protocol.Prelude.Dict.{Dict, lookup}
use agent_handshake_protocol.Prelude.Lists.{contains}
use agent_handshake_protocol.Economy.WalletClient.Alone.{Alone}
use agent_handshake_protocol.Broker.Settlement.Holds.{holds, Frees}
use agent_handshake_protocol.Broker.Facade.{BrokerState}
use agent_handshake_protocol.Engine.Message.{Message}
use agent_handshake_protocol.Engine.Pipeline.{Wiring, Held, give_back}
use agent_handshake_protocol.Engine.Pipeline.Holds.{give_back-Frees}
use agent_handshake_protocol.Engine.Pipeline.CastGet.{hold_id_of, refund_each}
use agent_handshake_protocol.Engine.Pipeline.CastGet.Placing.{caller, IsNamed, IsFree}

module _ (w : Wiring) (m : Message) where
  -- what is free after a hold has been freed
  pub freed-IsFree :
      (i j : String) (s t : BrokerState)
      → Frees (caller w m) j s.redis t.redis
      → IsFree w m i s ⊎ (j ≡ i)
      → IsFree w m i t
  freed-IsFree i j s t f h = elim (Bool-cases (j == i)) [
    | inl e ↦ subst (λ x. lookup x (holds (caller w m) t.redis) ≡ none) ((eq_iff j i).0 e) f.freed
    | inr e ↦ elim h [
      | inl free ↦ f.touches.others i e ∙ free
      | inr same ↦ let yes : (j == i) ≡ true = (eq_iff j i).1 same in absurd (cc)
    ]
  ]

  -- no id stops being free
  pub record StaysFree (s t : BrokerState) : Type 0 where
    pub alone : Alone t.redis
    pub free : (i : String) → IsFree w m i s → IsFree w m i t

  pub freed-StaysFree :
      (j : String) (s t : BrokerState) → Frees (caller w m) j s.redis t.redis → StaysFree s t
  freed-StaysFree j s t f = record {
    alone = f.touches.alone;
    free = λ i h. freed-IsFree i j s t f (inl h);
  }

  pub StaysFree-trans : (s t u : BrokerState) → StaysFree s t → StaysFree t u → StaysFree s u
  StaysFree-trans s t u h k = record { alone = k.alone; free = λ i e. k.free i (h.free i e) }

  pub refunded-StaysFree :
      (why : String) (responded : List String) (held : Dict Held) (s : BrokerState)
      → Alone s.redis
      → StaysFree s (refund_each w m why responded held s)
  unfolding refund_each
  refunded-StaysFree why responded [] s alone = record { alone = alone; free = λ i h. h }
  refunded-StaysFree why responded ((k, h) ∷ held) s alone =
      elim (Bool-cases (contains k responded)) [
        | inl e ↦ rw (e, refund_each) (refunded-StaysFree why responded held s alone)
        | inr e ↦
            let t = (give_back w m h.hold_id why s).1 in
            let f = give_back-Frees w m h.hold_id why s alone in
            rw (e, refund_each)
              (StaysFree-trans s t _ (freed-StaysFree h.hold_id s t f)
                (refunded-StaysFree why responded held t f.touches.alone))
      ]

  -- The refunds free the holds of the targets that have not responded.
  pub refunded-IsFree :
      (why k : String) (responded : List String) (held : Dict Held) (s : BrokerState)
      → Alone s.redis
      → IsNamed w m held
      → contains k responded ≡ false
      → is_some (lookup k held) ≡ true
      → IsFree w m (hold_id_of w m k) (refund_each w m why responded held s)
  unfolding refund_each lookup
  refunded-IsFree why k responded [] s alone named silent there = absurd (cc)
  refunded-IsFree why k responded ((i, h) ∷ held) s alone named silent there =
      elim (Bool-cases (contains i responded)) [
        | inl e ↦ elim (Bool-cases (i == k)) [
          | inl same ↦
              let both : contains k responded ≡ true =
                subst (λ x. contains x responded ≡ true) ((eq_iff i k).0 same) e in
              absurd (cc)
          | inr differ ↦
              rw (e, refund_each)
                (refunded-IsFree why k responded held s alone named.1 silent (rw differ at there))
        ]
        | inr e ↦
            let t = (give_back w m h.hold_id why s).1 in
            let f = give_back-Frees w m h.hold_id why s alone in
            elim (Bool-cases (i == k)) [
              | inl same ↦
                  rw (e, refund_each)
                    ((refunded-StaysFree why responded held t f.touches.alone).free
                      (hold_id_of w m k)
                      (freed-IsFree (hold_id_of w m k) h.hold_id s t f
                        (inr (named.0 ∙ ap (hold_id_of w m) ((eq_iff i k).0 same)))))
              | inr differ ↦
                  rw (e, refund_each)
                    (refunded-IsFree why k responded held t f.touches.alone named.1 silent
                      (rw differ at there))
            ]
      ]
