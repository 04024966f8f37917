-- ===== src/Broker/Settlement/Total.antt =====
-- What a whole settlement does to the balances, each and in total.
use Prim.Native.String.{◌++◌ as join}
use agent_handshake_protocol.Prelude.{
  ℕ, ◌+◌, String, ◌≡◌, refl, ap, sym, ◌∙◌, inl, inr, Bool, true, false, ◌==◌, Option, some, arith,
  Bool-cases, List, [], ◌∷◌,
}
use agent_handshake_protocol.Prelude.Int.{ℤ, pos, ◌+ℤ◌, ◌-ℤ◌, ◌≤ℤ◌, max_ℤ, int_laws}
use agent_handshake_protocol.Prelude.Dict.{lookup}
use agent_handshake_protocol.Prelude.Exec.{◌>>◌}
use agent_handshake_protocol.Economy.Pricing.{Settlement, SettlementInputs, settle_payment}
use agent_handshake_protocol.Economy.Pricing.Split.{settle_payment_split}
use agent_handshake_protocol.Economy.Wallet.{slack}
use agent_handshake_protocol.Economy.WalletClient.{Redis, Conflict, get_state}
use agent_handshake_protocol.Economy.WalletClient.Alone.{Alone}
use agent_handshake_protocol.Broker.Settlement.{
  broker_wallet, commons_wallet, credit_positive, release, compute_target, settle,
}
use agent_handshake_protocol.Broker.Settlement.Ledger.{
  balance, share, Moves, then-Moves, credit-Moves, credit_pos-Moves, release-Moves,
}

-- what a settlement adds to the balance of one owner
abbrev pub due : (caller server target : String) → Settlement → String → ℤ
due caller server target s o =
    share (caller == o) (pos 0 -ℤ pos s.pre_tax)
    +ℤ (share (server == o) (max_ℤ (pos 0) s.to_server)
        +ℤ (share (target == o) (pos s.to_compute)
            +ℤ (share (broker_wallet == o) (pos s.to_broker)
                +ℤ share (commons_wallet == o) (pos s.to_commons))))

-- While no other client writes, a settlement whose price the hold covers (up to the slack) succeeds,
-- and moves the five balances and no other: the caller pays the price, the server has its share
-- unless it is negative, the compute provider (or else the server), the broker and the commons have
-- theirs.
pub settle_ledger :
    (c : Conflict) (caller i : String) (s : Settlement) (server : String) (compute : Option String)
    (held : ℤ) (r : Redis)
    → Alone r
    → lookup i (get_state caller r).holds ≡ some held
    → pos s.pre_tax ≤ℤ held +ℤ pos slack
    → Moves
        (due caller server (compute_target server compute) s)
        r
        (settle c caller i s server compute r)
unfolding settle
settle_ledger c caller i s server compute held r h found covers =
    let target = compute_target server compute in
    let to_release = release c caller i (pos s.pre_tax) (join "settle hold " i) in
    let to_server = credit_positive c server s.to_server (join "server share of " i) in
    let to_compute = credit_positive c target (pos s.to_compute) (join "compute share of " i) in
    let to_broker = credit_positive c broker_wallet (pos s.to_broker) (join "broker tax " i) in
    let to_commons = credit_positive c commons_wallet (pos s.to_commons) (join "commons tax " i) in
    then-Moves _ _ to_release (do to_server; to_compute; to_broker; to_commons) r
      (release-Moves c caller i held (pos s.pre_tax) (join "settle hold " i) r h found (omega arith)
        covers)
      λ r1 h1.
        then-Moves _ _ to_server (do to_compute; to_broker; to_commons) r1
          (credit-Moves c server s.to_server (join "server share of " i) r1 h1)
          λ r2 h2.
            then-Moves _ _ to_compute (do to_broker; to_commons) r2
              (credit_pos-Moves c target s.to_compute (join "compute share of " i) r2 h2)
              λ r3 h3.
                then-Moves _ _ to_broker to_commons r3
                  (credit_pos-Moves c broker_wallet s.to_broker (join "broker tax " i) r3 h3)
                  λ r4 h4.
                    credit_pos-Moves c commons_wallet s.to_commons (join "commons tax " i) r4 h4

-- the sum over a list of owners
abbrev pub total : List String → (String → ℤ) → ℤ
total [] f = pos 0
total (o ∷ os) f = f o +ℤ total os f

abbrev pub once : Bool → ℕ
once true = 1
once false = 0

abbrev pub occurs : String → List String → ℕ
occurs a [] = 0
occurs a (o ∷ os) = once (a == o) + occurs a os

add_swap : (a b c d : ℤ) → a +ℤ b +ℤ (c +ℤ d) ≡ a +ℤ c +ℤ (b +ℤ d)
add_swap a b c d = grind int_laws

total_add :
    (os : List String) (f g : String → ℤ) → total os (λ o. f o +ℤ g o) ≡ total os f +ℤ total os g
unfolding ◌+ℤ◌
total_add [] f g = refl
total_add (o ∷ os) f g =
    ap (λ t. f o +ℤ g o +ℤ t) (total_add os f g) ∙ add_swap (f o) (g o) (total os f) (total os g)

zero_add : (a : ℤ) → pos 0 +ℤ a ≡ a
zero_add a = grind int_laws

add_zero : (a : ℤ) → a +ℤ pos 0 ≡ a
add_zero a = grind int_laws

total_absent :
    (a : String) (x : ℤ) (os : List String)
    → occurs a os ≡ 0
    → total os (λ o. share (a == o) x) ≡ pos 0
total_absent a x [] h = refl
total_absent a x (o ∷ os) h = elim (Bool-cases (a == o)) [
  | inl e ↦ let here : occurs a (o ∷ os) ≡ 1 + occurs a os = rw e refl in grind int_laws
  | inr e ↦
      let later : occurs a (o ∷ os) ≡ occurs a os = rw e (omega arith) in
      rw (e, total_absent a x os (sym later ∙ h)) (zero_add (pos 0))
]

total_share :
    (a : String) (x : ℤ) (os : List String) → occurs a os ≡ 1 → total os (λ o. share (a == o) x) ≡ x
total_share a x [] h = grind int_laws
total_share a x (o ∷ os) h = elim (Bool-cases (a == o)) [
  | inl e ↦
      let here : occurs a (o ∷ os) ≡ 1 + occurs a os = rw e refl in
      rw (e, total_absent a x os (omega arith)) (add_zero x)
  | inr e ↦
      let later : occurs a (o ∷ os) ≡ occurs a os = rw e (omega arith) in
      rw (e, total_share a x os (sym later ∙ h)) (zero_add x)
]

total_with :
    (a : String) (x : ℤ) (os : List String) (g : String → ℤ)
    → occurs a os ≡ 1
    → total os (λ o. share (a == o) x +ℤ g o) ≡ x +ℤ total os g
total_with a x os g h =
    total_add os (λ o. share (a == o) x) g ∙ ap (λ t. t +ℤ total os g) (total_share a x os h)

total_ext :
    (os : List String) (f g : String → ℤ) → ((o : String) → f o ≡ g o) → total os f ≡ total os g
total_ext [] f g h = refl
total_ext (o ∷ os) f g h = rw (h o, total_ext os f g h) refl

five :
    (a b c d : ℕ) (z t : ℤ)
    → pos 0 -ℤ pos a +ℤ (max_ℤ (pos 0) z +ℤ (pos b +ℤ (pos c +ℤ pos d))) ≡ t
    → z +ℤ pos b +ℤ pos c +ℤ pos d ≡ pos a
    → t ≡ max_ℤ (pos 0) (pos 0 -ℤ z)
five a b c d z t h g = grind int_laws

total_due :
    (caller server target : String) (s : Settlement) (os : List String)
    → occurs caller os ≡ 1
    → occurs server os ≡ 1
    → occurs target os ≡ 1
    → occurs broker_wallet os ≡ 1
    → occurs commons_wallet os ≡ 1
    → total os (due caller server target s)
      ≡ pos 0
        -ℤ pos s.pre_tax
        +ℤ (max_ℤ (pos 0) s.to_server
            +ℤ (pos s.to_compute +ℤ (pos s.to_broker +ℤ pos s.to_commons)))
total_due caller server target s os h1 h2 h3 h4 h5 =
    total_with caller _ os _ h1
    ∙ ap (λ t. pos 0 -ℤ pos s.pre_tax +ℤ t)
        (total_with server _ os _ h2
          ∙ ap (λ t. max_ℤ (pos 0) s.to_server +ℤ t)
              (total_with target _ os _ h3
                ∙ ap (λ t. pos s.to_compute +ℤ t)
                    (total_with broker_wallet _ os _ h4
                      ∙ ap (λ t. pos s.to_broker +ℤ t) (total_share commons_wallet _ os h5))))

-- While no other client writes, take any list of owners that names each of the five payees once.
-- A settlement by `settle_payment` whose price the hold covers leaves the credits in these wallets
-- as they are when the server's share is not negative, and else adds the missing part to them.
pub settle_total :
    (log10 : ℕ → ℕ) (inp : SettlementInputs) (c : Conflict) (caller i server : String)
    (compute : Option String) (held : ℤ) (r : Redis) (os : List String)
    → Alone r
    → lookup i (get_state caller r).holds ≡ some held
    → pos (settle_payment log10 inp).pre_tax ≤ℤ held +ℤ pos slack
    → occurs caller os ≡ 1
    → occurs server os ≡ 1
    → occurs (compute_target server compute) os ≡ 1
    → occurs broker_wallet os ≡ 1
    → occurs commons_wallet os ≡ 1
    → let s = settle_payment log10 inp in
      let after = (settle c caller i s server compute r).1 in
      total os (λ o. balance o after)
      ≡ total os (λ o. balance o r) +ℤ max_ℤ (pos 0) (pos 0 -ℤ s.to_server)
settle_total log10 inp c caller i server compute held r os h found covers h1 h2 h3 h4 h5 =
    let s = settle_payment log10 inp in
    let target = compute_target server compute in
    total_ext os _ _ (settle_ledger c caller i s server compute held r h found covers).balances
    ∙ total_add os (λ o. balance o r) (due caller server target s)
    ∙ ap (λ t. total os (λ o. balance o r) +ℤ t)
        (five s.pre_tax s.to_compute s.to_broker s.to_commons s.to_server _
          (sym (total_due caller server target s os h1 h2 h3 h4 h5))
          (settle_payment_split log10 inp).0)
