-- ===== src/Broker/Surveys/Pending.antt =====
-- Which surveys the queue hands out.
use agent_handshake_protocol.Prelude.{
  ℕ, zero, suc, ◌≤◌, ◌<◌, String, ◌≡◌, refl, ◌⊎◌, inl, inr, Bool, true, false, ◌==◌, Option, none,
  some, List, [], ◌∷◌, arith, leb, Bool-cases, Option-cases,
}
use agent_handshake_protocol.Prelude.Dict.{Dict, lookup, lookup-erase}
use agent_handshake_protocol.Prelude.Lists.{All, filter}
use agent_handshake_protocol.Prelude.Lists.Sorting.{All-map, sort_by, sort-All}
use agent_handshake_protocol.Broker.Surveys.{
  SurveyRequest, Surveys, abandon, unqueue, sooner, take_ids, by_score, is_for, Visit, stale,
  expired, live, visit, get_request, pending_loop, list_pending,
}

-- The queue holds each request under the time of its dispatch.
abbrev pub IsQueued : Surveys → Type 0
IsQueued s =
    All
      (λ entry. (r : SurveyRequest) → lookup entry.0 s.requests ≡ some r → r.dispatch_at ≡ entry.1)
      s.queue

All-kept :
    {A : Type 0} (P : A → Type 0) (p : A → Bool) (xs : List A)
    → All P xs
    → All (λ x. P x × (p x ≡ true)) (filter p xs)
unfolding filter
All-kept P p [] h = tt
All-kept P p (x ∷ xs) h = elim (Bool-cases (p x)) [
  | inl e ↦ rw e ((h.0, e), All-kept P p xs h.1)
  | inr e ↦ rw e (All-kept P p xs h.1)
]

take-All :
    (P : String → Type 0) (n : ℕ) (entries : Dict ℕ)
    → All (λ entry. P entry.0) entries
    → All P (take_ids n entries)
unfolding take_ids
take-All P zero entries h = tt
take-All P (suc n) [] h = tt
take-All P (suc n) ((i, at) ∷ entries) h = (h.0, take-All P n entries h.1)

Visit-cases : (v : Visit) → (v ≡ stale) ⊎ (v ≡ expired) ⊎ ((r : SurveyRequest) × (v ≡ live r))
Visit-cases stale = inl refl
Visit-cases expired = inr (inl refl)
Visit-cases (live r) = inr (inr (r, refl))

module _ (cutoff : ℕ) where
  -- If the id is that of a request, the request is to be dispatched by the cutoff.
  abbrev IsDue : Surveys → String → Type 0
  IsDue s i = (r : SurveyRequest) → lookup i s.requests ≡ some r → r.dispatch_at ≤ cutoff

  by_score-IsDue :
      (limit : ℕ) (s : Surveys) → IsQueued s → All (IsDue s) (by_score (some cutoff) limit s.queue)
  unfolding by_score
  by_score-IsDue limit s h =
      let P : String × ℕ → Type 0 = λ entry.
        (r : SurveyRequest) → lookup entry.0 s.requests ≡ some r → r.dispatch_at ≡ entry.1 in
      let early : String × ℕ → Bool = λ entry. leb entry.1 cutoff in
      take-All (IsDue s) limit (filter early (sort_by sooner s.queue)) (
        All-map (λ entry k r found. let e = k.0 r found in let l = k.1 in ground arith)
          (filter early (sort_by sooner s.queue))
          (All-kept P early (sort_by sooner s.queue) (sort-All sooner P s.queue h)))

  abandon-IsDue : (i j : String) (s : Surveys) → IsDue s j → IsDue (abandon i s) j
  unfolding abandon
  abandon-IsDue i j s h r found = elim (Bool-cases (i == j)) [
    | inl e ↦ let gone : none ≡ some r = rw (lookup-erase, e) at found in absurd (cc)
    | inr e ↦ h r (rw (lookup-erase, e) at found)
  ]

  -- a survey that is handed out
  abbrev pub IsPending : (actor : Option String) → SurveyRequest → Type 0
  IsPending actor r = (r.dispatch_at ≤ cutoff) × (cutoff < r.expires_at) × (is_for actor r ≡ true)

  visit-live :
      (i : String) (s : Surveys) (r : SurveyRequest)
      → visit cutoff i s ≡ live r
      → (lookup i s.requests ≡ some r) × (cutoff < r.expires_at)
  unfolding visit get_request
  visit-live i s r h = elim (Option-cases (lookup i s.requests)) [
    | inl absent ↦ absurd (ground arith)
    | inr (q, found) ↦ (ground arith, ground arith)
  ]

  loop-IsPending :
      (actor : Option String) (ids : List String) (s : Surveys)
      → All (IsDue s) ids
      → All (IsPending actor) (pending_loop cutoff actor ids s).0
  unfolding pending_loop
  loop-IsPending actor [] s h = tt
  loop-IsPending actor (i ∷ ids) s h = elim (Visit-cases (visit cutoff i s)) [
    | inl e ↦ rw (e, pending_loop) (loop-IsPending actor ids (unqueue i s) h.1)
    | inr (inl e) ↦
        rw (e, pending_loop)
          (loop-IsPending actor ids (abandon i s) (All-map (λ j k. abandon-IsDue i j s k) ids h.1))
    | inr (inr (r, e)) ↦
        let (found, unexpired) = visit-live i s r e in
        let rest : All (IsPending actor) (pending_loop cutoff actor ids s).0 =
          loop-IsPending actor ids s h.1 in
        elim (Bool-cases (is_for actor r)) [
          | inl asked ↦ rw (e, asked, pending_loop) ((h.0 r found, unexpired, asked), rest)
          | inr other ↦ rw (e, other, pending_loop) rest
        ]
  ]

-- If the queue holds each request under the time of its dispatch, what is listed as pending is to be
-- dispatched by the cutoff, has not expired, and is addressed to the actor that is asked for.
pub list_pending-IsPending :
    (cutoff : ℕ) (actor : Option String) (limit : ℕ) (s : Surveys)
    → IsQueued s
    → All (IsPending cutoff actor) (list_pending cutoff false actor limit s).0
unfolding list_pending
list_pending-IsPending cutoff actor limit s h =
    loop-IsPending cutoff actor (by_score (some cutoff) limit s.queue) s
      (by_score-IsDue cutoff limit s h)
