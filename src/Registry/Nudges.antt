-- ===== src/Registry/Nudges.antt =====
-- ahp/registry/registry.py: `AgentRegistry.update_reputation`, an optimistic transaction on the hash
-- of the agents. Other clients write the hash in between: each round holds what they leave there
-- before the read and after it. `conflict` is what the client library does when they did.
use agent_handshake_protocol.Prelude.{
  ℕ, zero, suc, String, ◌≡◌, ◌⊎◌, Bool, true, false, ◌||◌, ◌&&◌, ◌<◌, Option, none, some, List, [],
  ◌∷◌, is_some,
}
use agent_handshake_protocol.Prelude.Int.{ℤ, pos, ◌+ℤ◌, ◌≤ℤ◌, max_ℤ, min_ℤ}
use agent_handshake_protocol.Prelude.Exec.{Result, ok, err}
use agent_handshake_protocol.Prelude.Dict.{Dict, lookup, insert}
use agent_handshake_protocol.Core.Address.{AgentAddress}
use agent_handshake_protocol.Core.Address.Text.{str}
use agent_handshake_protocol.Economy.WalletClient.{Conflict, answers_none, raises}
use agent_handshake_protocol.Registry.Store.{AgentMeta, Store, AgentRegistry, emit}

abbrev pub Entries : Type 0
Entries = Dict (AgentAddress × AgentMeta)

-- what other clients leave in the hash, if they write it
pub record HashRound : Type 0 where
  pub before_read : Option Entries
  pub after_read : Option Entries

pub data NudgeError : Type 0 where
  watch_error : NudgeError

abbrev pub written : Option Entries → Entries → Entries
written none d = d
written (some e) d = e

-- the first round, in which nobody writes if none is left
abbrev pub this_round : List HashRound → HashRound
this_round [] = record { before_read = none; after_read = none }
this_round (a ∷ _) = a

abbrev pub later_rounds : List HashRound → List HashRound
later_rounds [] = []
later_rounds (_ ∷ rest) = rest

unfoldable pub at_read : List HashRound → Store → Store
at_read rounds s = record s { entries = written (this_round rounds).before_read s.entries }

unfoldable pub at_end : List HashRound → Store → Store
at_end rounds s = record s {
  entries =
      written (this_round rounds).after_read (written (this_round rounds).before_read s.entries);
}

unfoldable pub conflicts : List HashRound → Bool
conflicts rounds = is_some (this_round rounds).before_read || is_some (this_round rounds).after_read

-- `max(0.0, min(1.0, meta.reputation + delta))`
unfoldable pub nudged : AgentMeta → ℤ → AgentMeta
nudged meta delta = record meta {
  reputation = max_ℤ (pos 0) (min_ℤ (pos 1_000_000) (meta.reputation +ℤ delta));
}

-- a round whose watched key was written: the next round, or the exception
abbrev pub after_conflict :
    Conflict
    → (retried : Result NudgeError (Option AgentMeta) × Store) → Store
    → Result NudgeError (Option AgentMeta) × Store
after_conflict answers_none retried s = retried
after_conflict raises retried s = (err watch_error, s)

-- the rounds that are left after `k` of them
abbrev pub rounds_after : ℕ → List HashRound → List HashRound
rounds_after zero rounds = rounds
rounds_after (suc k) rounds = rounds_after k (later_rounds rounds)

-- the store after what other clients write in the first `k` rounds
abbrev pub others_wrote : ℕ → List HashRound → Store → Store
others_wrote zero rounds s = s
others_wrote (suc k) rounds s = others_wrote k (later_rounds rounds) (at_end rounds s)

-- whether other clients wrote the hash in each of the first `k` rounds
abbrev pub all_conflict : ℕ → List HashRound → Bool
all_conflict zero rounds = true
all_conflict (suc k) rounds = conflicts rounds && all_conflict k (later_rounds rounds)

module _ (r : AgentRegistry) (conflict : Conflict) (address : AgentAddress) (delta : ℤ) where
  abbrev pub op : String
  op = "registry.update_reputation"

  abbrev pub commit : AgentAddress → AgentMeta → Store → Store
  commit stored meta s =
      (emit r op address none
        (record s { entries = insert (str address) (stored, meta) s.entries })).1

  -- `for _ in range(8)`, on the rounds that are left
  unfoldable pub nudge_loop :
      ℕ → List HashRound → Store → Result NudgeError (Option AgentMeta) × Store
  unfolding at_read at_end conflicts nudged lookup insert
  nudge_loop zero rounds s = (ok none, (emit r op address (some "CASRetryExhausted") s).1)
  nudge_loop (suc n) rounds s = elim (lookup (str address) (at_read rounds s).entries) [
    | none ↦ (ok none, (emit r op address (some "NotRegistered") (at_end rounds s)).1)
    | some (stored, meta) ↦ elim (conflicts rounds) [
      | false ↦ (ok (some (nudged meta delta)), commit stored (nudged meta delta) (at_end rounds s))
      | true ↦
          after_conflict conflict (nudge_loop n (later_rounds rounds) (at_end rounds s))
            (at_end rounds s)
    ]
  ]

  -- `update_reputation`
  unfoldable pub update_reputation :
      List HashRound → Store → Result NudgeError (Option AgentMeta) × Store
  unfolding nudge_loop
  update_reputation rounds s = nudge_loop 8 rounds s

  -- How `n` rounds can end, the writes of other clients being those of the rounds. A round is followed
  -- by another one only if other clients wrote the hash in it and the client library answers none.
  pub data NudgeEnd (n : ℕ) (rounds : List HashRound) (s : Store)
      (q : Result NudgeError (Option AgentMeta) × Store) : Type 0 where
    -- in a round in which nobody else writes, over the entry that stands there
    wrote :
        (k : ℕ) (stored : AgentAddress) (meta : AgentMeta)
        → k < n
        → all_conflict k rounds ≡ true
        → (k ≡ 0) ⊎ (conflict ≡ answers_none)
        → conflicts (rounds_after k rounds) ≡ false
        → lookup (str address) (others_wrote (suc k) rounds s).entries ≡ some (stored, meta)
        → (pos 0 ≤ℤ (nudged meta delta).reputation)
          × ((nudged meta delta).reputation ≤ℤ pos 1_000_000)
        → q ≡ (
          ok (some (nudged meta delta)),
          commit stored (nudged meta delta) (others_wrote (suc k) rounds s),
        )
        → NudgeEnd n rounds s q
    -- in a round that reads no entry
    unregistered :
        (k : ℕ)
        → k < n
        → all_conflict k rounds ≡ true
        → (k ≡ 0) ⊎ (conflict ≡ answers_none)
        → lookup (str address) (at_read (rounds_after k rounds) (others_wrote k rounds s)).entries
          ≡ none
        → q.0 ≡ ok none
        → q.1.entries ≡ (others_wrote (suc k) rounds s).entries
        → NudgeEnd n rounds s q
    -- after a conflict in every round
    gave_up :
        all_conflict n rounds ≡ true
        → (n ≡ 0) ⊎ (conflict ≡ answers_none)
        → q.0 ≡ ok none
        → q.1.entries ≡ (others_wrote n rounds s).entries
        → NudgeEnd n rounds s q
    -- after the first conflict
    raised :
        conflict ≡ raises
        → conflicts rounds ≡ true
        → q ≡ (err watch_error, others_wrote 1 rounds s)
        → NudgeEnd n rounds s q
