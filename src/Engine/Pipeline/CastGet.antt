-- ===== src/Engine/Pipeline/CastGet.antt =====
-- ahp/engine/router.py: `_broker_cast_get`, with a hold for each target and a settlement for each
-- response. The leaf of a server is chosen anew for each target: the code's table of leaves gives the
-- same one.
pub mod Placing
pub mod Refunds
pub mod Clears
use Prim.Native.String.{◌++◌ as join}
use agent_handshake_protocol.Prelude.{ℕ, String, true, false, Option, none, some, List, [], ◌∷◌}
use agent_handshake_protocol.Prelude.Dict.{Dict, lookup, insert}
use agent_handshake_protocol.Prelude.Exec.{Result, ok, err}
use agent_handshake_protocol.Prelude.Lists.{contains}
use agent_handshake_protocol.Core.Address.{AgentAddress}
use agent_handshake_protocol.Core.Address.Text.{str}
use agent_handshake_protocol.Economy.ComputeProvider.{MenuLeaf}
use agent_handshake_protocol.Economy.ComputeProvider.Ranking.{best_leaf}
use agent_handshake_protocol.Economy.WalletClient.{WalletFailure}
use agent_handshake_protocol.Broker.Servers.{ServerMeta}
use agent_handshake_protocol.Broker.Compute.{list_leaves}
use agent_handshake_protocol.Broker.Facade.{BrokerState}
use agent_handshake_protocol.Engine.Message.{Message}
use agent_handshake_protocol.Engine.Services.{EngineError, cast_asked}
use agent_handshake_protocol.Engine.Pipeline.{
  PipelineError, from_engine, from_wallet, Plane, Wiring, Held, is_short, last_of_org,
  owning_servers, listed, hold_amount, place, give_back, settle_response, on_broker,
}

-- the holds that were placed, by the text of the target, and the targets that are sent to
pub record Placed : Type 0 where
  pub held : Dict Held
  pub deliverable : List AgentAddress

module _ (w : Wiring) (m : Message) where
  unfoldable pub hold_id_of : (target : String) → String
  hold_id_of target = join "msg:" (join m.message_id (join ":t:" target))

  -- the hold for one target of a server
  unfoldable pub held_of : List MenuLeaf → AgentAddress → ServerMeta → Held
  unfolding hold_id_of best_leaf
  held_of leaves target server = record {
    hold_id = hold_id_of (str target);
    server = server;
    leaf = best_leaf [] server.compute_binding server.compute_ranking leaves;
  }

  abbrev pub also :
      AgentAddress
      → Result WalletFailure Placed × BrokerState
      → Result WalletFailure Placed × BrokerState
  also target (err e, s) = (err e, s)
  also target (ok placed, s) = (ok (record placed { deliverable = target ∷ placed.deliverable }), s)

  -- the loop that places the holds; what raises but for a lack of funds ends it
  unfoldable pub place_holds :
      List ServerMeta
      → List MenuLeaf
      → List AgentAddress
      → Dict Held
      → BrokerState
      → Result WalletFailure Placed × BrokerState
  unfolding last_of_org held_of hold_amount place insert is_short
  place_holds servers leaves [] held s = (ok (record { held = held; deliverable = [] }), s)
  place_holds servers leaves (target ∷ targets) held s = elim (last_of_org target.org servers) [
    | none ↦ also target (place_holds servers leaves targets held s)
    | some server ↦
        let h = held_of leaves target server in
        let q =
          place w m h.hold_id (hold_amount w m server h.leaf) (join "cast_get to " (str target))
            s in
        elim q.0 [
          | ok _ ↦ also target (place_holds servers leaves targets (insert (str target) h held) q.1)
          | err e ↦ elim (is_short e) [
            | true ↦ place_holds servers leaves targets held q.1
            | false ↦ (err e, q.1)
          ]
        ]
  ]

  -- refunds of the holds whose targets are not listed; what raises is swallowed
  unfoldable pub refund_each :
      (reason : String) (responded : List String) → Dict Held → BrokerState → BrokerState
  unfolding contains give_back
  refund_each reason responded [] s = s
  refund_each reason responded ((k, h) ∷ held) s = elim (contains k responded) [
    | true ↦ refund_each reason responded held s
    | false ↦ refund_each reason responded held (give_back w m h.hold_id reason s).1
  ]

  -- the settlement of one response
  abbrev pub settle_one : Option Held → Message → BrokerState → BrokerState
  settle_one none response s = s
  settle_one (some h) response s = settle_response w m h response s

  -- the loop over the responses, with who has responded
  unfoldable pub settle_each :
      Dict Held → List Message → (responded : List String) → BrokerState → List String × BrokerState
  unfolding contains settle_response lookup
  settle_each held [] responded s = (responded, s)
  settle_each held (response ∷ responses) responded s =
      let source = str response.source in
      elim (contains source responded) [
        | true ↦ settle_each held responses responded s
        | false ↦
            settle_each held responses (source ∷ responded)
              (settle_one (lookup source held) response s)
      ]

  -- the refunds after the settlements
  unfoldable pub settle_all : Dict Held → List Message → BrokerState → BrokerState
  unfolding settle_each refund_each
  settle_all held responses s =
      let (responded, s') = settle_each held responses [] s in
      refund_each "no response (cast_get timeout or target silent)" responded held s'

  -- what follows the dispatch
  abbrev pub after_dispatch :
      Dict Held
      → Result EngineError (List Message)
      → Plane
      → Result PipelineError (List Message) × Plane
  after_dispatch held (err e) p =
      (err (from_engine e), on_broker w p (refund_each "cast_get dispatch raised" [] held p.broker))
  after_dispatch held (ok responses) p =
      (ok responses, on_broker w p (settle_all held responses p.broker))

  -- `bus.cast_get`
  abbrev pub dispatch :
      Placed
      → (timeout : ℕ) (max_responses : Option ℕ) → Plane
      → Result PipelineError (List Message) × Plane
  dispatch placed timeout max_responses p = elim placed.deliverable [
    | [] ↦ (ok [], p)
    | target ∷ targets ↦
        after_dispatch placed.held
          (w.services.cast_get p.trace m (target ∷ targets) timeout max_responses)
          (record p { trace = cast_asked m (target ∷ targets) timeout max_responses ∷ p.trace })
  ]

  -- what follows the holds
  abbrev pub after_holds :
      (timeout : ℕ) (max_responses : Option ℕ)
      → Plane
      → Result WalletFailure Placed × BrokerState
      → Result PipelineError (List Message) × Plane
  after_holds timeout max_responses p (err e, s) = (err (from_wallet e), on_broker w p s)
  after_holds timeout max_responses p (ok placed, s) =
      dispatch placed timeout max_responses (on_broker w p s)

  -- `_broker_cast_get`
  unfoldable pub broker_cast_get :
      List AgentAddress
      → (timeout : ℕ) (max_responses : Option ℕ) → Plane
      → Result PipelineError (List Message) × Plane
  unfolding owning_servers list_leaves place_holds settle_all refund_each
  broker_cast_get targets timeout max_responses p =
      let leaves = (list_leaves p.broker.redis.clock true p.broker.compute).0 in
      after_holds timeout max_responses p
        (place_holds (owning_servers w p.broker) leaves targets [] (listed w p.broker))
