-- ===== src/Core/Pattern/Generality.antt =====
-- What a pattern matches, and patterns that match more.
use Prim.Native.Char.{code}
use Prim.Native.String.{String}
use agent_handshake_protocol.Prelude.{
  ◌≡◌, ◌↔◌, ◌⊎◌, inl, inr, refl, sym, ◌≢◌, subst, not, if◌then◌else◌, Bool, true, false, ◌==◌, ◌||◌,
  arith, eq_iff, Bool-cases, ℕ, nat_beq,
}
use agent_handshake_protocol.Prelude.Text.{has, subset}
use agent_handshake_protocol.Core.Address.{AgentAddress}
use agent_handshake_protocol.Core.Pattern.{AddressPattern, matches, field_matches}

-- A field of a pattern fits a field of an address.
abbrev pub Fits : String → String → Type 0
Fits pat value = (pat ≡ "*") ⊎ (pat ≡ value)

-- The addresses that a pattern stands for.
pub record Matches (p : AddressPattern) (a : AgentAddress) : Type 0 where
  pub org : Fits p.org a.org
  pub role : Fits p.role a.role
  pub domain : Fits p.domain a.domain
  pub subdomain : Fits p.subdomain a.subdomain
  pub lifecycle : Fits p.lifecycle a.lifecycle
  pub instance_name : Fits p.instance_name a.instance_name
  pub accept : (p.accept ≡ "*") ⊎ ((n : ℕ) → has n p.accept ≡ true → has n a.accept ≡ true)

has-subset : (s t : String) (n : ℕ) → subset s t ≡ true → has n s ≡ true → has n t ≡ true
unfolding subset has
has-subset String.[] t n h m = cc
has-subset (String.◌∷◌ c s) t n h m = elim (Bool-cases (nat_beq (code c) n)) [
  | inl same ↦ subst (λ k. has k t ≡ true) (nat_eq (code c) n same) (ground arith)
  | inr other ↦ has-subset s t n (ground arith) (ground arith)
]
  where
    nat_eq : (a b : ℕ) → nat_beq a b ≡ true → a ≡ b
    nat_eq a b e = ground arith

subset-has : (s t : String) → ((n : ℕ) → has n s ≡ true → has n t ≡ true) → subset s t ≡ true
unfolding subset has
subset-has String.[] t f = refl
subset-has (String.◌∷◌ c s) t f =
    rw (f (code c) (ground arith)) (subset-has s t (λ n m. f n (ground arith)))

-- `subset` is inclusion of characters.
pub subset_iff : (s t : String) → (subset s t ≡ true) ↔ ((n : ℕ) → has n s ≡ true → has n t ≡ true)
subset_iff s t = (λ h n m. has-subset s t n h m, subset-has s t)

fits : (pat value : String) → (field_matches pat value ≡ true) ↔ Fits pat value
fits pat value = (
  λ h. ground (arith, eq_iff pat "*", eq_iff pat value),
  λ h. elim h [
    | inl wild ↦ rw ((eq_iff pat "*").1 wild)
    | inr same ↦ ground (arith, (eq_iff pat value).1 same)
  ],
)

-- the ladder of `matches`, on the values of its tests
ladder :
    (a b c d e f g : Bool)
    → ((if not a
          then false
          else if not b
          then false
          else if not c
          then false
          else if not d
          then false
          else if not e
          then false
          else if not f
          then false
          else g)
        ≡ true)
      ↔ ((a ≡ true) × (b ≡ true) × (c ≡ true) × (d ≡ true) × (e ≡ true) × (f ≡ true) × (g ≡ true))
ladder a b c d e f g = (λ h. ground arith, λ h. ground arith)

accept_fits :
    (pat value : String)
    → ((pat == "*" || subset pat value) ≡ true)
      ↔ ((pat ≡ "*") ⊎ ((n : ℕ) → has n pat ≡ true → has n value ≡ true))
accept_fits pat value = (
  λ h. elim (Bool-cases (pat == "*")) [
    | inl wild ↦ inl ((eq_iff pat "*").0 wild)
    | inr set ↦ inr ((subset_iff pat value).0 (rw set at h))
  ],
  λ h. elim h [
    | inl wild ↦ rw ((eq_iff pat "*").1 wild)
    | inr included ↦ ground (arith, (subset_iff pat value).1 included)
  ],
)

-- A pattern matches an address exactly if each of its fields but `accept` is a wildcard or equal to that
-- of the address, and `accept` is a wildcard or holds only tiers that the address accepts.
pub matches_iff : (p : AddressPattern) (a : AgentAddress) → (matches p a ≡ true) ↔ Matches p a
unfolding matches
matches_iff p a =
    let l =
      ladder (field_matches p.org a.org) (field_matches p.role a.role)
        (field_matches p.domain a.domain) (field_matches p.subdomain a.subdomain)
        (field_matches p.lifecycle a.lifecycle) (field_matches p.instance_name a.instance_name)
        (p.accept == "*" || subset p.accept a.accept) in
    (
      λ h.
          let (o, r, d, s, c, i, t) = l.0 h in
          record {
            org = (fits _ _).0 o;
            role = (fits _ _).0 r;
            domain = (fits _ _).0 d;
            subdomain = (fits _ _).0 s;
            lifecycle = (fits _ _).0 c;
            instance_name = (fits _ _).0 i;
            accept = (accept_fits _ _).0 t;
          },
      λ m. l.1 (
        (fits _ _).1 m.org,
        (fits _ _).1 m.role,
        (fits _ _).1 m.domain,
        (fits _ _).1 m.subdomain,
        (fits _ _).1 m.lifecycle,
        (fits _ _).1 m.instance_name,
        (accept_fits _ _).1 m.accept,
      ),
    )

-- The addresses of `p` are among those of `q`: every field of `q` is a wildcard or that of `p`.
pub record IsBroader (q p : AddressPattern) : Type 0 where
  pub org : Fits q.org p.org
  pub role : Fits q.role p.role
  pub domain : Fits q.domain p.domain
  pub subdomain : Fits q.subdomain p.subdomain
  pub lifecycle : Fits q.lifecycle p.lifecycle
  pub instance_name : Fits q.instance_name p.instance_name
  pub accept :
      (q.accept ≡ "*")
      ⊎ ((p.accept ≢ "*") × ((n : ℕ) → has n q.accept ≡ true → has n p.accept ≡ true))

Fits-trans : (q p v : String) → Fits q p → Fits p v → Fits q v
Fits-trans q p v (inl wild) k = inl wild
Fits-trans q p v (inr same) k = subst (λ t. Fits t v) (sym same) k

-- A pattern with more wildcards, and fewer tiers asked for, matches every address that the narrower
-- pattern matches.
pub matches_mono :
    (q p : AddressPattern) (a : AgentAddress)
    → IsBroader q p
    → matches p a ≡ true
    → matches q a ≡ true
matches_mono q p a b h =
    let m = (matches_iff p a).0 h in
    (matches_iff q a).1 (record {
      org = Fits-trans _ _ _ b.org m.org;
      role = Fits-trans _ _ _ b.role m.role;
      domain = Fits-trans _ _ _ b.domain m.domain;
      subdomain = Fits-trans _ _ _ b.subdomain m.subdomain;
      lifecycle = Fits-trans _ _ _ b.lifecycle m.lifecycle;
      instance_name = Fits-trans _ _ _ b.instance_name m.instance_name;
      accept = elim b.accept [
        | inl wild ↦ inl wild
        | inr (set, fewer) ↦ elim m.accept [
          | inl wild ↦ absurd (set wild)
          | inr all ↦ inr (λ n k. all n (fewer n k))
        ]
      ];
    })
