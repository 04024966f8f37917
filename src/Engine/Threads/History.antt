-- ===== src/Engine/Threads/History.antt =====
-- What is read of a thread after it was written to.
use agent_handshake_protocol.Prelude.{
  ℕ, String, ◌≡◌, refl, sym, ap, subst, ◌∙◌, inl, inr, Bool, false, ◌==◌, ◌||◌, eq_iff, eq_refl,
  Option, none, some, List, [], ◌∷◌, ◌++◌, is_some, Bool-cases, Option-cases, if◌then◌else◌,
}
use agent_handshake_protocol.Prelude.Dict.{Dict, lookup, insert, lookup-insert}
use agent_handshake_protocol.Prelude.Exec.{ok}
use agent_handshake_protocol.Prelude.Lists.{filter}
use agent_handshake_protocol.Prelude.Text.{is_empty}
use agent_handshake_protocol.Core.Address.{AgentAddress}
use agent_handshake_protocol.Core.Address.Text.{str}
use agent_handshake_protocol.Engine.Message.{Message}
use agent_handshake_protocol.Engine.Threads.{
  ThreadMeta, with_meta, Threads, messages, members, join_thread, is_participant, id_for, create,
  get, is_closed, append, is_shown, get_history,
}

filter-append :
    {A : Type 0} (p : A → Bool) (xs ys : List A) → filter p (xs ++ ys) ≡ filter p xs ++ filter p ys
unfolding filter
filter-append p [] ys = refl
filter-append p (x ∷ xs) ys = elim (Bool-cases (p x)) [
  | inl e ↦ rw e (ap (λ l. x ∷ l) (filter-append p xs ys))
  | inr e ↦ rw e (filter-append p xs ys)
]

messages-insert :
    (k j : String) (v : List Message) (d : Dict (List Message))
    → messages j (insert k v d) ≡ (if k == j then v else messages j d)
messages-insert k j v d =
    ap (λ o. elim o [ none ↦ [] | some log ↦ log ]) (lookup-insert k j v d)
    ∙ elim (Bool-cases (k == j)) [ inl e ↦ rw e refl | inr e ↦ rw e refl ]

members-insert :
    (k j : String) (v : Dict AgentAddress) (d : Dict (Dict AgentAddress))
    → members j (insert k v d) ≡ (if k == j then v else members j d)
members-insert k j v d =
    ap (λ o. elim o [ none ↦ [] | some set ↦ set ]) (lookup-insert k j v d)
    ∙ elim (Bool-cases (k == j)) [ inl e ↦ rw e refl | inr e ↦ rw e refl ]

-- After an append, the history of the message's own thread, whatever thread is given, has the message
-- at its end, if the filter shows it, and every other history is as before; the source has joined the
-- thread that is given, and no other agent and no other thread has changed its participants.
pub append-history :
    (thread_id other : String) (tiers : Option String) (m : Message) (agent : AgentAddress)
    (s : Threads)
    → (get_history other tiers (append thread_id m s) ≡ (
        if m.thread == other
        then get_history other tiers s ++ filter (is_shown tiers) (m ∷ [])
        else get_history other tiers s))
      × (is_participant other agent (append thread_id m s) ≡ (
          if thread_id == other
          then (str m.source == str agent) || is_participant other agent s
          else is_participant other agent s))
unfolding get_history append is_participant join_thread
append-history thread_id other tiers m agent s =
    let log = messages m.thread s.streams ++ (m ∷ []) in
    let set = insert (str m.source) m.source (members thread_id s.participants) in
    (
      ap (filter (is_shown tiers)) (messages-insert m.thread other log s.streams)
          ∙ elim (Bool-cases (m.thread == other)) [
            | inl e ↦ rw e (
                filter-append (is_shown tiers) (messages m.thread s.streams) (m ∷ [])
                ∙ ap
                    (λ t.
                      filter (is_shown tiers) (messages t s.streams)
                      ++ filter (is_shown tiers) (m ∷ []))
                    ((eq_iff m.thread other).0 e))
            | inr e ↦ rw e refl
          ],
      ap (λ d. is_some (lookup (str agent) d)) (members-insert thread_id other set s.participants)
          ∙ elim (Bool-cases (thread_id == other)) [
            | inr e ↦ rw e refl
            | inl e ↦ rw e (
                ap is_some (
                  lookup-insert (str m.source) (str agent) m.source
                    (members thread_id s.participants))
                ∙ elim (Bool-cases (str m.source == str agent)) [
                  | inl same ↦ rw same refl
                  | inr differ ↦ rw differ (
                      ap (λ t. is_some (lookup (str agent) (members t s.participants)))
                        ((eq_iff thread_id other).0 e))
                ])
          ],
    )

-- whether the metadata are those of a closed thread
closed : Option ThreadMeta → Bool
closed none = false
closed (some meta) = is_some meta.closed_at

is_closed-metas :
    (thread_id : String) (s : Threads) → is_closed thread_id s ≡ closed (lookup thread_id s.metas)
unfolding is_closed get closed
is_closed-metas thread_id s = elim (Option-cases (lookup thread_id s.metas)) [
  | inl absent ↦ rw (is_closed, get, absent) refl
  | inr (meta, found) ↦ rw (is_closed, get, found) refl
]

closed-with_meta :
    (topic : String) (initiator : AgentAddress) (now : ℕ) (known : Option ThreadMeta)
    → closed (some (with_meta topic initiator now known)) ≡ closed known
unfolding closed with_meta
closed-with_meta topic initiator now none = refl
closed-with_meta topic initiator now (some meta) = refl

id_for-given :
    (thread_id lowered hex : String)
    → is_empty thread_id ≡ false
    → id_for (some thread_id) lowered hex ≡ thread_id
unfolding id_for
id_for-given thread_id lowered hex h = rw h refl

-- A thread that is created under a given id is open in the answer, but is closed exactly if a thread
-- of that id was closed before: creating it again does not open it.
pub create-is_closed :
    (now : ℕ) (lowered hex topic thread_id : String) (initiator : AgentAddress) (s : Threads)
    → is_empty topic ≡ false
    → is_empty thread_id ≡ false
    → ((create now lowered hex topic initiator (some thread_id) s).0
        ≡ ok (record {
          thread_id = thread_id;
          topic = topic;
          initiator = initiator;
          created_at = now;
          closed_at = none;
        }))
      × (is_closed thread_id (create now lowered hex topic initiator (some thread_id) s).1
          ≡ is_closed thread_id s)
unfolding create join_thread
create-is_closed now lowered hex topic thread_id initiator s named given =
    let same = id_for-given thread_id lowered hex given in
    let id = id_for (some thread_id) lowered hex in
    let meta = with_meta topic initiator now (lookup id s.metas) in
    let t = (create now lowered hex topic initiator (some thread_id) s).1 in
    let at_id : is_closed id t ≡ is_closed id s = rw named (
      is_closed-metas id _
      ∙ ap closed (lookup-insert id id meta s.metas)
      ∙ rw eq_refl (closed-with_meta topic initiator now (lookup id s.metas))
      ∙ sym (is_closed-metas id s)) in
    (rw (named, same) refl, subst (λ x. is_closed x t ≡ is_closed x s) same at_id)
