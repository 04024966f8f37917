-- ===== src/Engine/Pipeline/CastGet/Clears.antt =====
-- The holds of a CAST-GET end with the call: they are settled or refunded.
use agent_handshake_protocol.Prelude.{
  ℕ, String, ◌≡◌, refl, sym, ap, subst, ◌∙◌, ◌⊎◌, inl, inr, true, false, ◌==◌, eq_iff, Option, none,
  List, [], ◌∷◌, is_some, Bool-cases, Option-cases,
}
use agent_handshake_protocol.Prelude.Dict.{Dict, lookup, AllEntries-lookup}
use agent_handshake_protocol.Prelude.Exec.{Result, ok, err}
use agent_handshake_protocol.Prelude.Lists.{contains}
use agent_handshake_protocol.Core.Address.{AgentAddress}
use agent_handshake_protocol.Core.Address.Text.{str}
use agent_handshake_protocol.Economy.WalletClient.{WalletFailure}
use agent_handshake_protocol.Economy.WalletClient.Alone.{Alone}
use agent_handshake_protocol.Broker.Settlement.Holds.{holds}
use agent_handshake_protocol.Broker.Compute.{list_leaves}
use agent_handshake_protocol.Broker.Facade.{BrokerState}
use agent_handshake_protocol.Engine.Message.{Message}
use agent_handshake_protocol.Engine.Services.{EngineError, cast_asked}
use agent_handshake_protocol.Engine.Pipeline.{
  PipelineError, from_wallet, Plane, Wiring, Held, owning_servers, listed, settle_response,
  on_broker,
}
use agent_handshake_protocol.Engine.Pipeline.Holds.{settle_response-Frees}
use agent_handshake_protocol.Engine.Pipeline.CastGet.{
  Placed, hold_id_of, place_holds, refund_each, settle_one, settle_each, settle_all, after_dispatch,
  dispatch, after_holds, broker_cast_get,
}
use agent_handshake_protocol.Engine.Pipeline.CastGet.Placing.{
  IsNamed, IsFree, Covers, Placing, place_holds-Placing, Unsent, place_holds-Unsent,
}
use agent_handshake_protocol.Engine.Pipeline.CastGet.Refunds.{
  freed-IsFree, freed-StaysFree, StaysFree-trans, refunded-StaysFree, refunded-IsFree, StaysFree,
}

module _ (w : Wiring) (m : Message) where
  -- The hold of everybody who has responded is freed.
  record Settling (held : Dict Held) (responded : List String) (s : BrokerState) : Type 0 where
    alone : Alone s.redis
    freed :
        (k : String)
        → contains k responded ≡ true
        → is_some (lookup k held) ≡ true
        → IsFree w m (hold_id_of w m k) s

  one-Frees :
      (k : String) (held : Dict Held) (response : Message) (responded : List String)
      (s : BrokerState)
      → IsNamed w m held
      → Settling held responded s
      → StaysFree w m s (settle_one w m (lookup k held) response s)
        × Settling held (k ∷ responded) (settle_one w m (lookup k held) response s)
  unfolding contains
  one-Frees k held response responded s named c = elim (Option-cases (lookup k held)) [
    | inl absent ↦ rw absent (
      record { alone = c.alone; free = λ i h. h },
      record {
        alone = c.alone;
        freed = λ i into there. elim (Bool-cases (k == i)) [
          | inl same ↦
              let none_ : is_some (lookup i held) ≡ false =
                subst (λ x. is_some (lookup x held) ≡ false) ((eq_iff k i).0 same)
                  (ap is_some absent) in
              absurd (cc)
          | inr differ ↦ c.freed i (rw differ at into) there
        ];
      },
    )
    | inr (h, found) ↦
        let t = settle_response w m h response s in
        let f = settle_response-Frees w m h response s c.alone in
        let own : h.hold_id ≡ hold_id_of w m k =
          AllEntries-lookup (λ i x. x.hold_id ≡ hold_id_of w m i) k h held named found in
        rw found (
          freed-StaysFree w m h.hold_id s t f,
          record {
            alone = f.touches.alone;
            freed = λ i into there. elim (Bool-cases (k == i)) [
              | inl same ↦
                  freed-IsFree w m (hold_id_of w m i) h.hold_id s t f
                    (inr (own ∙ ap (hold_id_of w m) ((eq_iff k i).0 same)))
              | inr differ ↦
                  freed-IsFree w m (hold_id_of w m i) h.hold_id s t f
                    (inl (c.freed i (rw differ at into) there))
            ];
          },
        )
  ]

  settled-Settling :
      (held : Dict Held) (responses : List Message) (responded : List String) (s : BrokerState)
      → IsNamed w m held
      → Settling held responded s
      → let q = settle_each w m held responses responded s in
        StaysFree w m s q.1 × Settling held q.0 q.1
  unfolding settle_each
  settled-Settling held [] responded s named c = (record { alone = c.alone; free = λ i h. h }, c)
  settled-Settling held (response ∷ responses) responded s named c =
      let k = str response.source in
      elim (Bool-cases (contains k responded)) [
        | inl e ↦ rw (e, settle_each) (settled-Settling held responses responded s named c)
        | inr e ↦
            let t = settle_one w m (lookup k held) response s in
            let (stays, c') = one-Frees k held response responded s named c in
            let (stays', c'') = settled-Settling held responses (k ∷ responded) t named c' in
            rw (e, settle_each) (StaysFree-trans w m s t _ stays stays', c'')
      ]

  -- Settlements and refunds free whatever the table covers.
  settle_all-IsFree :
      (j : String) (held : Dict Held) (responses : List Message) (s : BrokerState)
      → Covers w m j held s
      → Alone (settle_all w m held responses s).redis
        × IsFree w m j (settle_all w m held responses s)
  unfolding settle_all contains
  settle_all-IsFree j held responses s c =
      let why : String = "no response (cast_get timeout or target silent)" in
      let q = settle_each w m held responses [] s in
      let (stays, settled) =
        settled-Settling held responses [] s c.named
          (record { alone = c.alone; freed = λ k into there. absurd (cc) }) in
      let refunded = refunded-StaysFree w m why q.0 held q.1 settled.alone in
      (
        refunded.alone,
        elim c.covered [
          | inl free ↦ refunded.free j (stays.free j free)
          | inr (k, id, there) ↦
              subst (λ x. IsFree w m x (refund_each w m why q.0 held q.1)) id
                (elim (Bool-cases (contains k q.0)) [
                  | inl e ↦ refunded.free (hold_id_of w m k) (settled.freed k e there)
                  | inr e ↦ refunded-IsFree w m why k q.0 held q.1 settled.alone c.named e there
                ])
        ],
      )

  refund_all-IsFree :
      (j : String) (held : Dict Held) (s : BrokerState)
      → Covers w m j held s
      → Alone (refund_each w m "cast_get dispatch raised" [] held s).redis
        × IsFree w m j (refund_each w m "cast_get dispatch raised" [] held s)
  unfolding contains
  refund_all-IsFree j held s c =
      let why : String = "cast_get dispatch raised" in
      let refunded = refunded-StaysFree w m why [] held s c.alone in
      (
        refunded.alone,
        elim c.covered [
          | inl free ↦ refunded.free j free
          | inr (k, id, there) ↦
              subst (λ x. IsFree w m x (refund_each w m why [] held s)) id
                (refunded-IsFree w m why k [] held s c.alone c.named refl there)
        ],
      )

  -- The call raises a wallet's error, or the id is free after it.
  abbrev pub Clears : String → Result PipelineError (List Message) × Plane → Type 0
  Clears j q =
      ((e : WalletFailure) × (q.0 ≡ err (from_wallet e)))
      ⊎ (Alone q.1.broker.redis × IsFree w m j q.1.broker)

  dispatch-Clears :
      (j : String) (held : Dict Held) (answer : Result EngineError (List Message)) (p : Plane)
      → Covers w m j held p.broker
      → Clears j (after_dispatch w m held answer p)
  unfolding settle_all
  dispatch-Clears j held (err e) p c = inr (refund_all-IsFree j held p.broker c)
  dispatch-Clears j held (ok responses) p c = inr (settle_all-IsFree j held responses p.broker c)

  sent-Clears :
      (j : String) (held : Dict Held) (deliverable : List AgentAddress) (timeout : ℕ)
      (max_responses : Option ℕ) (p : Plane)
      → Covers w m j held p.broker
      → (deliverable ≡ [] → held ≡ [])
      → Clears j
          (dispatch w m (record { held = held; deliverable = deliverable }) timeout max_responses p)
  unfolding lookup
  sent-Clears j held [] timeout max_responses p c unsent = inr (
    c.alone,
    elim c.covered [
      | inl free ↦ free
      | inr (k, id, there) ↦
          let empty : is_some (lookup k held) ≡ false =
            subst (λ h. is_some (lookup k h) ≡ false) (sym (unsent refl)) refl in
          absurd (cc)
    ],
  )
  sent-Clears j held (target ∷ targets) timeout max_responses p c unsent =
      dispatch-Clears j held
        (w.services.cast_get p.trace m (target ∷ targets) timeout max_responses)
        (record p { trace = cast_asked m (target ∷ targets) timeout max_responses ∷ p.trace })
        (record { alone = c.alone; named = c.named; covered = c.covered })

  holds-Clears :
      (j : String) (timeout : ℕ) (max_responses : Option ℕ) (p : Plane)
      (q : Result WalletFailure Placed × BrokerState)
      → Placing w m j q
      → Unsent w m [] q.0
      → Clears j (after_holds w m timeout max_responses p q)
  holds-Clears j timeout max_responses p (err e, s) c u = inl (e, refl)
  holds-Clears j timeout max_responses p (ok placed, s) c u =
      sent-Clears j placed.held placed.deliverable timeout max_responses (on_broker w p s) c u

  -- While no other client writes the wallets, unless a CAST-GET raises a wallet's error, every hold
  -- id that is free in the caller's wallet before the call is free after it: each hold that the call
  -- places has been settled or refunded, whoever responds, and however often, and when the bus raises.
  pub broker_cast_get-Clears :
      (j : String) (targets : List AgentAddress) (timeout : ℕ) (max_responses : Option ℕ)
      (p : Plane)
      → Alone p.broker.redis
      → lookup j (holds (str m.source) p.broker.redis) ≡ none
      → Clears j (broker_cast_get w m targets timeout max_responses p)
  unfolding broker_cast_get
  broker_cast_get-Clears j targets timeout max_responses p alone free =
      let leaves = (list_leaves p.broker.redis.clock true p.broker.compute).0 in
      let servers = owning_servers w p.broker in
      holds-Clears j timeout max_responses p
        (place_holds w m servers leaves targets [] (listed w p.broker))
        (place_holds-Placing w m j servers leaves targets [] (listed w p.broker)
          (record { alone = alone; named = tt; covered = inl free }))
        (place_holds-Unsent w m servers leaves targets [] (listed w p.broker))
