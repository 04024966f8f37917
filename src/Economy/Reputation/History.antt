-- ===== src/Economy/Reputation/History.antt =====
-- What a series of settled calls does to a reputation.
use agent_handshake_protocol.Prelude.{
  ℕ, suc, ◌+◌, ◌*◌, ◌-◌, ◌≤◌, ◌≡◌, refl, ap, ◌∙◌, String, List, [], ◌∷◌, arith,
}
use agent_handshake_protocol.Prelude.Int.{ℤ, pos, ◌≤ℤ◌, ◌+ℤ◌, ◌-ℤ◌, max_ℤ, int_laws}
use agent_handshake_protocol.Prelude.Lists.{length, All}
use agent_handshake_protocol.Economy.Reputation.{
  ReputationEntry, SettlementOutcome, accepted, verbose, apply_outcome, visibility_factor,
  new_entry,
}
use agent_handshake_protocol.Economy.Reputation.Ranges.{IsScored, outcome-IsScored}

-- The entry after a series of calls, each with its latency.
abbrev pub after : ReputationEntry → List (SettlementOutcome × ℤ) → ReputationEntry
after e [] = e
after e ((o, latency) ∷ rest) = after (apply_outcome e o latency) rest

-- how many calls of the series ended in each way
abbrev pub n_accepted : List (SettlementOutcome × ℤ) → ℕ
n_accepted [] = 0
n_accepted ((accepted, _) ∷ rest) = suc (n_accepted rest)
n_accepted (_ ∷ rest) = n_accepted rest

abbrev pub n_verbose : List (SettlementOutcome × ℤ) → ℕ
n_verbose [] = 0
n_verbose ((verbose, _) ∷ rest) = suc (n_verbose rest)
n_verbose (_ ∷ rest) = n_verbose rest

abbrev pub n_failed : List (SettlementOutcome × ℤ) → ℕ
n_failed [] = 0
n_failed ((accepted, _) ∷ rest) = n_failed rest
n_failed ((verbose, _) ∷ rest) = n_failed rest
n_failed (_ ∷ rest) = suc (n_failed rest)

-- The counters of an entry against the series that it went through.
pub record Counts (e : ReputationEntry) (calls : List (SettlementOutcome × ℤ)) : Type 0 where
  pub accepted_calls : (after e calls).completed_accepted ≡ e.completed_accepted + n_accepted calls
  pub completed_calls :
      (after e calls).completed_total ≡ e.completed_total + n_accepted calls + n_verbose calls
  pub failed_calls : (after e calls).failed ≡ e.failed + n_failed calls
  pub gained : (after e calls).reputation ≤ℤ e.reputation +ℤ pos (5 * n_accepted calls)
  pub lost :
      e.reputation ≤ℤ (after e calls).reputation +ℤ pos (50 * n_failed calls + 5 * n_verbose calls)

-- After any series of calls the counters have counted each call once; the reputation has gained at
-- most 0.005 for each accepted call, and lost at most 0.05 for each failed and 0.005 for each
-- verbose one.
pub after-Counts :
    (e : ReputationEntry) (calls : List (SettlementOutcome × ℤ)) → IsScored e → Counts e calls
unfolding apply_outcome
after-Counts e [] h = omega int_laws
after-Counts e ((accepted, latency) ∷ rest) h =
    let scored = outcome-IsScored e accepted latency h in
    let ih = after-Counts (apply_outcome e accepted latency) rest scored in grind (int_laws, ih, h)
after-Counts e ((o, latency) ∷ rest) h =
    let scored = outcome-IsScored e o latency h in
    let ih = after-Counts (apply_outcome e o latency) rest scored in grind (int_laws, ih, h)

abbrev pub IsFailure : SettlementOutcome × ℤ → Type 0
IsFailure (accepted, _) = ⊥
IsFailure (verbose, _) = ⊥
IsFailure _ = Unit

fail-pos : (r : ℕ) → max_ℤ (pos 0) (pos r -ℤ pos 50) ≡ pos (r - 50)
unfolding ◌-ℤ◌
fail-pos r = ground arith

-- A series of failures takes 0.05 each from the reputation, down to 0.
after_failures :
    (r : ℕ) (e : ReputationEntry) (calls : List (SettlementOutcome × ℤ))
    → e.reputation ≡ pos r
    → All IsFailure calls
    → (after e calls).reputation ≡ pos (r - 50 * length calls)
unfolding apply_outcome
after_failures r e [] h f = h ∙ ap pos (omega arith)
after_failures r e ((accepted, _) ∷ rest) h f = absurd f.0
after_failures r e ((verbose, _) ∷ rest) h f = absurd f.0
after_failures r e ((o, latency) ∷ rest) h f =
    after_failures (r - 50) (apply_outcome e o latency) rest (rw h (fail-pos r)) f.1
    ∙ ap pos (omega arith)

-- A new server whose first calls all fail is out of the routing from the fifth call on.
pub new_entry_gated :
    (log10 : ℕ → ℕ) (owner : String) (calls : List (SettlementOutcome × ℤ))
    → All IsFailure calls
    → 5 ≤ length calls
    → visibility_factor log10 (after (new_entry owner) calls) ≡ 0
unfolding visibility_factor
new_entry_gated log10 owner calls f five =
    let r = after_failures 500 (new_entry owner) calls refl f in ground (arith, r)
