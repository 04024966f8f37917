-- ===== src/Broker/Compute/Cascade.antt =====
-- A deregistered provider leaves nothing on the menu.
use mathlib.Core.Option.{some-injective}
use agent_handshake_protocol.Prelude.{
  ℕ, String, ◌≡◌, refl, sym, ap, subst, ◌∙◌, ◌⊎◌, inl, inr, Bool, true, false, not, ◌&&◌, ◌==◌,
  eq_iff, none, some, List, [], ◌∷◌, arith, Bool-cases, Option-cases, is_some,
}
use agent_handshake_protocol.Prelude.Dict.{
  Dict, lookup, erase, lookup-erase, AllEntries, AllEntries-lookup,
}
use agent_handshake_protocol.Prelude.Lists.{All, filter}
use agent_handshake_protocol.Prelude.Lists.Sorting.{Elem, All-Elem}
use agent_handshake_protocol.Prelude.Lists.Selection.{All-filter, filter-filter}
use agent_handshake_protocol.Economy.ComputeProvider.{MenuLeaf, address}
use agent_handshake_protocol.Broker.Compute.{
  Menu, remove_member, present, tidy, deregister_leaf, deregister_leaves, menu_for_provider,
  deregister_provider, list_leaves,
}

-- Every leaf is stored under its own address.
abbrev pub IsKeyed : Dict MenuLeaf → Type 0
IsKeyed leaves = AllEntries (λ a l. address l ≡ a) leaves

erase-AllEntries :
    (P : String → MenuLeaf → Type 0) (a : String) (d : Dict MenuLeaf)
    → AllEntries P d
    → AllEntries P (erase a d)
unfolding erase
erase-AllEntries P a [] h = tt
erase-AllEntries P a ((j, w) ∷ d) h = elim (Bool-cases (j == a)) [
  | inl e ↦ rw e (erase-AllEntries P a d h.1)
  | inr e ↦ rw e (h.0, erase-AllEntries P a d h.1)
]

present-absent :
    (k : String) (index : List String) (leaves : Dict MenuLeaf)
    → lookup k leaves ≡ none
    → present (k ∷ index) leaves ≡ present index leaves
unfolding present
present-absent k index leaves h = rw (h, present) refl

present-found :
    (k : String) (l : MenuLeaf) (index : List String) (leaves : Dict MenuLeaf)
    → lookup k leaves ≡ some l
    → present (k ∷ index) leaves ≡ l ∷ present index leaves
unfolding present
present-found k l index leaves h = rw (h, present) refl

lookup-erase_other :
    (a k : String) (leaves : Dict MenuLeaf)
    → (a == k) ≡ false
    → lookup k (erase a leaves) ≡ lookup k leaves
lookup-erase_other a k leaves e = lookup-erase a k leaves ∙ rw e refl

remove-same :
    (a k : String) (index : List String)
    → (a == k) ≡ true
    → remove_member a (k ∷ index) ≡ remove_member a index
unfolding remove_member filter
remove-same a k index e = rw e refl

remove-other :
    (a k : String) (index : List String)
    → (a == k) ≡ false
    → remove_member a (k ∷ index) ≡ k ∷ remove_member a index
unfolding remove_member filter
remove-other a k index e = rw e refl

abbrev other_than : String → MenuLeaf → Bool
other_than a l = not (a == address l)

filter-kept :
    (p : MenuLeaf → Bool) (l : MenuLeaf) (ls : List MenuLeaf)
    → p l ≡ true
    → filter p (l ∷ ls) ≡ l ∷ filter p ls
unfolding filter
filter-kept p l ls e = rw e refl

filter-dropped :
    (p : MenuLeaf → Bool) (l : MenuLeaf) (ls : List MenuLeaf)
    → p l ≡ false
    → filter p (l ∷ ls) ≡ filter p ls
unfolding filter
filter-dropped p l ls e = rw e refl

filter-all : (ls : List MenuLeaf) → filter (λ l. true) ls ≡ ls
unfolding filter
filter-all [] = refl
filter-all (l ∷ ls) = ap (λ k. l ∷ k) (filter-all ls)

-- what the index finds after one leaf is gone
present-remove :
    (a : String) (index : List String) (leaves : Dict MenuLeaf)
    → IsKeyed leaves
    → present (remove_member a index) (erase a leaves)
      ≡ filter (other_than a) (present index leaves)
present-remove a [] leaves h = unfold remove_member filter present in refl
present-remove a (k ∷ index) leaves h =
    let ih = present-remove a index leaves h in
    elim (Option-cases (lookup k leaves)) [
      | inl absent ↦ elim (Bool-cases (a == k)) [
        | inl e ↦ rw (remove-same a k index e, present-absent k index leaves absent) ih
        | inr e ↦
            rw (remove-other a k index e, present-absent k index leaves absent)
              (present-absent k (remove_member a index) (erase a leaves)
                  (lookup-erase_other a k leaves e ∙ absent)
                ∙ ih)
      ]
      | inr (l, found) ↦
          let own : address l ≡ k = AllEntries-lookup (λ a l. address l ≡ a) k l leaves h found in
          elim (Bool-cases (a == k)) [
            | inl e ↦
                let out : other_than a l ≡ false = rw (own, e) refl in
                rw (remove-same a k index e, present-found k l index leaves found)
                  (ih ∙ sym (filter-dropped (other_than a) l (present index leaves) out))
            | inr e ↦
                let stays : other_than a l ≡ true = rw (own, e) refl in
                rw (remove-other a k index e, present-found k l index leaves found)
                  (present-found k l (remove_member a index) (erase a leaves)
                      (lookup-erase_other a k leaves e ∙ found)
                    ∙ ap (λ ls. l ∷ ls) ih
                    ∙ sym (filter-kept (other_than a) l (present index leaves) stays))
          ]
    ]

-- a leaf on the menu is the one stored under its address
present-lookup :
    (index : List String) (leaves : Dict MenuLeaf)
    → IsKeyed leaves
    → All (λ l. lookup (address l) leaves ≡ some l) (present index leaves)
present-lookup [] leaves h = unfold present in tt
present-lookup (k ∷ index) leaves h = elim (Option-cases (lookup k leaves)) [
  | inl absent ↦ rw (present-absent k index leaves absent) (present-lookup index leaves h)
  | inr (l, found) ↦
      let own : address l ≡ k = AllEntries-lookup (λ a l. address l ≡ a) k l leaves h found in
      rw (present-found k l index leaves found)
        (subst (λ a. lookup a leaves ≡ some l) (sym own) found, present-lookup index leaves h)
]

present-tidy :
    (index : List String) (leaves : Dict MenuLeaf)
    → present (filter (λ a. is_some (lookup a leaves)) index) leaves ≡ present index leaves
unfolding filter
present-tidy [] leaves = refl
present-tidy (k ∷ index) leaves = elim (Option-cases (lookup k leaves)) [
  | inl absent ↦ rw (present-absent k index leaves absent, absent) (present-tidy index leaves)
  | inr (l, found) ↦
      rw (present-found k l index leaves found, found)
        (present-found k l (filter (λ a. is_some (lookup a leaves)) index) leaves found
          ∙ ap (λ ls. l ∷ ls) (present-tidy index leaves))
]

-- none of the leaves has the address of the leaf
avoids : List MenuLeaf → MenuLeaf → Bool
avoids [] k = true
avoids (l ∷ ls) k = other_than (address l) k && avoids ls k

-- what is on the menu after the loop
present-cascade :
    (ls : List MenuLeaf) (m : Menu)
    → IsKeyed m.leaves
    → present (deregister_leaves ls m).index (deregister_leaves ls m).leaves
      ≡ filter (avoids ls) (present m.index m.leaves)
unfolding deregister_leaves deregister_leaf avoids
present-cascade [] m keyed = sym (filter-all (present m.index m.leaves))
present-cascade (l ∷ ls) m keyed =
    present-cascade ls (deregister_leaf (address l) m)
      (erase-AllEntries (λ a l. address l ≡ a) (address l) m.leaves keyed)
    ∙ ap (filter (avoids ls)) (present-remove (address l) m.index m.leaves keyed)
    ∙ filter-filter (other_than (address l)) (avoids ls) (present m.index m.leaves)

avoids-member : (k : MenuLeaf) (ls : List MenuLeaf) → Elem k ls → avoids ls k ≡ false
unfolding avoids
avoids-member k [] h = elim h [ ]
avoids-member k (l ∷ ls) (inl e) =
    let same : (address l == address k) ≡ true =
      (eq_iff (address l) (address k)).1 (ap address e) in
    rw same refl
avoids-member k (l ∷ ls) (inr h) = ground (arith, avoids-member k ls h)

module _ (leaves : Dict MenuLeaf) (provider_id : String) where
  abbrev of_provider : MenuLeaf → Bool
  of_provider l = l.provider_id == provider_id

  -- no leaf of the provider has the address of another one's
  avoids-others :
      (k : MenuLeaf) (xs : List MenuLeaf)
      → All (λ l. lookup (address l) leaves ≡ some l) xs
      → lookup (address k) leaves ≡ some k
      → of_provider k ≡ false
      → avoids (filter of_provider xs) k ≡ true
  unfolding avoids filter
  avoids-others k [] h own out = refl
  avoids-others k (l ∷ xs) h own out = elim (Bool-cases (of_provider l)) [
    | inr e ↦ rw e (avoids-others k xs h.1 own out)
    | inl e ↦ elim (Bool-cases (address l == address k)) [
      | inr differ ↦ rw (e, differ) (avoids-others k xs h.1 own out)
      | inl same ↦
          let at : lookup (address l) leaves ≡ some k =
            subst (λ a. lookup a leaves ≡ some k) (sym ((eq_iff (address l) (address k)).0 same))
              own in
          let equal : l ≡ k = some-injective l k (sym h.0 ∙ at) in
          let both : of_provider k ≡ true = subst (λ x. of_provider x ≡ true) equal e in absurd (cc)
    ]
  ]

  filter-avoids :
      (xs ys : List MenuLeaf)
      → All (λ l. lookup (address l) leaves ≡ some l) xs
      → All (λ l. lookup (address l) leaves ≡ some l) ys
      → All (λ l. (of_provider l ≡ false) ⊎ Elem l (filter of_provider xs)) ys
      → filter (avoids (filter of_provider xs)) ys ≡ filter (λ l. not (of_provider l)) ys
  unfolding filter
  filter-avoids xs [] h g m = refl
  filter-avoids xs (k ∷ ys) h g m = elim (Bool-cases (of_provider k)) [
    | inr e ↦ rw (avoids-others k xs h g.0 e, e) (ap (λ ls. k ∷ ls) (filter-avoids xs ys h g.1 m.1))
    | inl e ↦
        let own : Elem k (filter of_provider xs) = elim m.0 [ inl no_ ↦ absurd (cc) | inr h ↦ h ] in
        rw (avoids-member k (filter of_provider xs) own, e) (filter-avoids xs ys h g.1 m.1)
  ]

-- If every leaf is stored under its own address, a deregistered provider takes exactly its own leaves
-- off the menu.
pub deregister_provider-menu :
    (now : ℕ) (provider_id : String) (graceful : Bool) (m : Menu)
    → IsKeyed m.leaves
    → (list_leaves now false (deregister_provider provider_id graceful m)).0
      ≡ filter (λ l. not (l.provider_id == provider_id)) (list_leaves now false m).0
unfolding list_leaves deregister_provider menu_for_provider tidy
deregister_provider-menu now provider_id graceful m keyed =
    let xs = present m.index m.leaves in
    let found = present-lookup m.index m.leaves keyed in
    filter-all _
    ∙ present-cascade (filter (λ l. l.provider_id == provider_id) xs) (tidy m) keyed
    ∙ ap (filter (avoids (filter (λ l. l.provider_id == provider_id) xs)))
        (present-tidy m.index m.leaves)
    ∙ filter-avoids m.leaves provider_id xs xs found found (
        All-filter (λ l. l.provider_id == provider_id)
          (λ l. Elem l (filter (λ l. l.provider_id == provider_id) xs)) xs
          (All-Elem (filter (λ l. l.provider_id == provider_id) xs)))
    ∙ ap (filter (λ l. not (l.provider_id == provider_id))) (sym (filter-all xs))
