-- ===== src/Engine/Pipeline/CastGet/Placing.antt =====
-- The holds of a CAST-GET as they are placed: which of them are covered by its table.
use Prim.Native.String.{◌++◌ as join}
use agent_handshake_protocol.Prelude.{
  String, ◌≡◌, refl, sym, ap, subst, ◌∙◌, ◌⊎◌, inl, inr, true, ◌==◌, eq_iff, eq_refl, none, List,
  [], ◌∷◌, is_some, Bool-cases, Option-cases,
}
use agent_handshake_protocol.Prelude.Dict.{Dict, lookup, insert, lookup-insert, AllEntries}
use agent_handshake_protocol.Prelude.Exec.{Result, ok, err, Result-cases}
use agent_handshake_protocol.Core.Address.{AgentAddress}
use agent_handshake_protocol.Core.Address.Text.{str}
use agent_handshake_protocol.Economy.ComputeProvider.{MenuLeaf}
use agent_handshake_protocol.Economy.WalletClient.{WalletFailure}
use agent_handshake_protocol.Economy.WalletClient.Alone.{Alone}
use agent_handshake_protocol.Broker.Settlement.Holds.{holds, Touches}
use agent_handshake_protocol.Broker.Servers.{ServerMeta}
use agent_handshake_protocol.Broker.Facade.{BrokerState}
use agent_handshake_protocol.Engine.Message.{Message}
use agent_handshake_protocol.Engine.Pipeline.{
  Wiring, Held, is_short, last_of_org, hold_amount, place,
}
use agent_handshake_protocol.Engine.Pipeline.Holds.{place-Touches, place-err}
use agent_handshake_protocol.Engine.Pipeline.CastGet.{
  Placed, hold_id_of, held_of, also, place_holds,
}

AllEntries-insert :
    {V : Type 0} (P : String → V → Type 0) (k : String) (v : V) (d : Dict V)
    → P k v
    → AllEntries P d
    → AllEntries P (insert k v d)
unfolding insert
AllEntries-insert P k v [] p h = (p, tt)
AllEntries-insert P k v ((i, u) ∷ d) p h = elim (Bool-cases (i == k)) [
  | inl e ↦ rw e (p, h.1)
  | inr e ↦ rw e (h.0, AllEntries-insert P k v d p h.1)
]

module _ (w : Wiring) (m : Message) where
  -- the caller
  abbrev pub caller : String
  caller = str m.source

  -- Every hold has the id of its target.
  abbrev pub IsNamed : Dict Held → Type 0
  IsNamed held = AllEntries (λ k h. h.hold_id ≡ hold_id_of w m k) held

  -- the id is free in the caller's wallet
  abbrev pub IsFree : String → BrokerState → Type 0
  IsFree j s = lookup j (holds caller s.redis) ≡ none

  -- The id is free, or belongs to a hold of the table.
  abbrev pub IsCovered : String → Dict Held → BrokerState → Type 0
  IsCovered j held s =
      IsFree j s ⊎ ((k : String) × (hold_id_of w m k ≡ j) × (is_some (lookup k held) ≡ true))

  pub record Covers (j : String) (held : Dict Held) (s : BrokerState) : Type 0 where
    pub alone : Alone s.redis
    pub named : IsNamed held
    pub covered : IsCovered j held s

  -- what holds of the table when the loop does not raise
  abbrev pub Placing : String → Result WalletFailure Placed × BrokerState → Type 0
  Placing j (err e, s) = Unit
  Placing j (ok placed, s) = Covers j placed.held s

  also-Placing :
      (j : String) (target : AgentAddress) (q : Result WalletFailure Placed × BrokerState)
      → Placing j q
      → Placing j (also w m target q)
  also-Placing j target (err e, s) h = tt
  also-Placing j target (ok placed, s) h = record {
    alone = h.alone;
    named = h.named;
    covered = h.covered;
  }

  -- a hold that went through joins the table
  insert-Covers :
      (j key : String) (h : Held) (held : Dict Held) (s t : BrokerState)
      → h.hold_id ≡ hold_id_of w m key
      → Touches caller h.hold_id s.redis t.redis
      → Covers j held s
      → Covers j (insert key h held) t
  insert-Covers j key h held s t own touched c = record {
    alone = touched.alone;
    named = AllEntries-insert _ key h held own c.named;
    covered = elim (Bool-cases (h.hold_id == j)) [
      | inl e ↦ inr (key, sym own ∙ (eq_iff h.hold_id j).0 e, rw (lookup-insert, eq_refl) refl)
      | inr e ↦ elim c.covered [
        | inl free ↦ inl (touched.others j e ∙ free)
        | inr (k, id, there) ↦ inr (
          k,
          id,
          elim (Bool-cases (key == k)) [
            | inl same ↦ rw (lookup-insert, same) refl
            | inr differ ↦ rw (lookup-insert, differ) there
          ],
        )
      ]
    ];
  }

  -- a hold that failed changes nothing
  same-Covers :
      (j : String) (held : Dict Held) (s t : BrokerState)
      → t.redis ≡ s.redis
      → Covers j held s
      → Covers j held t
  same-Covers j held s t e c = record {
    alone = subst Alone (sym e) c.alone;
    named = c.named;
    covered = elim c.covered [
      | inl free ↦ inl (ap (λ r. lookup j (holds caller r)) e ∙ free)
      | inr there ↦ inr there
    ];
  }

  -- The loop that places the holds keeps every id free or in its table.
  pub place_holds-Placing :
      (j : String) (servers : List ServerMeta) (leaves : List MenuLeaf)
      (targets : List AgentAddress) (held : Dict Held) (s : BrokerState)
      → Covers j held s
      → Placing j (place_holds w m servers leaves targets held s)
  unfolding place_holds held_of
  place_holds-Placing j servers leaves [] held s c = c
  place_holds-Placing j servers leaves (target ∷ targets) held s c =
      elim (Option-cases (last_of_org target.org servers)) [
        | inl nobody ↦
            rw (nobody, place_holds)
              (also-Placing j target _ (place_holds-Placing j servers leaves targets held s c))
        | inr (server, owner) ↦
            let h = held_of w m leaves target server in
            let amount = hold_amount w m server h.leaf in
            let why = join "cast_get to " (str target) in
            let q = place w m h.hold_id amount why s in
            elim (Result-cases q.0) [
              | inl (u, went) ↦
                  rw (owner, place_holds, went)
                    (also-Placing j target _ (
                      place_holds-Placing j servers leaves targets (insert (str target) h held) q.1
                        (insert-Covers j (str target) h held s q.1 refl
                          (place-Touches w m h.hold_id amount why s c.alone) c)))
              | inr (e, failed) ↦ elim (Bool-cases (is_short e)) [
                | inr k ↦ rw (owner, place_holds, failed, k) tt
                | inl k ↦
                    rw (owner, place_holds, failed, k)
                      (place_holds-Placing j servers leaves targets held q.1 (
                        same-Covers j held s q.1
                          (place-err w m h.hold_id amount why s e c.alone failed) c))
              ]
            ]
      ]

  -- If nobody is left to send to, nothing is held.
  abbrev pub Unsent : Dict Held → Result WalletFailure Placed → Type 0
  Unsent held (err e) = Unit
  Unsent held (ok placed) = placed.deliverable ≡ [] → placed.held ≡ held

  also-Unsent :
      (held : Dict Held) (target : AgentAddress) (q : Result WalletFailure Placed × BrokerState)
      → Unsent held (also w m target q).0
  also-Unsent held target (err e, s) = tt
  also-Unsent held target (ok placed, s) = λ sent. absurd (cc)

  pub place_holds-Unsent :
      (servers : List ServerMeta) (leaves : List MenuLeaf) (targets : List AgentAddress)
      (held : Dict Held) (s : BrokerState)
      → Unsent held (place_holds w m servers leaves targets held s).0
  unfolding place_holds
  place_holds-Unsent servers leaves [] held s = λ sent. refl
  place_holds-Unsent servers leaves (target ∷ targets) held s =
      elim (Option-cases (last_of_org target.org servers)) [
        | inl nobody ↦ rw (nobody, place_holds) (also-Unsent held target _)
        | inr (server, owner) ↦
            let h = held_of w m leaves target server in
            let q =
              place w m h.hold_id (hold_amount w m server h.leaf) (join "cast_get to " (str target))
                s in
            elim (Result-cases q.0) [
              | inl (u, went) ↦ rw (owner, place_holds, went) (also-Unsent held target _)
              | inr (e, failed) ↦ elim (Bool-cases (is_short e)) [
                | inr k ↦ rw (owner, place_holds, failed, k) tt
                | inl k ↦
                    rw (owner, place_holds, failed, k)
                      (place_holds-Unsent servers leaves targets held q.1)
              ]
            ]
      ]
