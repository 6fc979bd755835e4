-- ===== src/Node/Tally.antt =====
-- What the tally of a campaign holds: the node itself, and voters whose grants of the term were
-- among the frames, each once.
use arbitro_raft.Base.{
  subst, ℕ, ◌≡◌, ◌≢◌, refl, Bool, true, false, not, ◌&&◌, ◌||◌, List, [], ◌∷◌, ◌++◌, Option, none,
  some, ltb, ◌==◌, arith, contains, distinct, Bool-cases, Option-cases, inl, inr, ◌⊎◌,
}
use arbitro_raft.Error.{Result, ok, err}
use arbitro_raft.Storage.{RaftStorage}
use arbitro_raft.Wire.{RequestVoteResp}
use arbitro_raft.Node.{RaftNode, current_term, step_down, M}
use arbitro_raft.Node.Rules.{bind_rule}
use arbitro_raft.Node.Campaign.{
  Frame, Drains, for_vote, response_of, Tally, count_response, counts_grant, process_frame,
  process_responses,
}

-- A response that grants a vote at the term.
abbrev pub is_grant : ℕ → Option RequestVoteResp → Bool
is_grant term none = false
is_grant term (some resp) = (resp.term == term) && not (resp.vote_granted == 0)

-- A frame of the batch grants the vote of `voter` at the term.
abbrev pub batch_grants : ℕ → ℕ → List Frame → Bool
batch_grants term voter [] = false
batch_grants term voter (f ∷ fs) =
    ((f.inbound.from == voter) && is_grant term (response_of for_vote f.inbound.message))
    || batch_grants term voter fs

-- The same over all batches.
abbrev pub drains_grant : ℕ → ℕ → Drains → Bool
drains_grant term voter [] = false
drains_grant term voter (err e ∷ ds) = drains_grant term voter ds
drains_grant term voter (ok fs ∷ ds) = batch_grants term voter fs || drains_grant term voter ds

-- No frame claims to come from `self_id`.
abbrev pub batch_foreign : ℕ → List Frame → Bool
batch_foreign self_id [] = true
batch_foreign self_id (f ∷ fs) = not (f.inbound.from == self_id) && batch_foreign self_id fs

abbrev pub drains_foreign : ℕ → Drains → Bool
drains_foreign self_id [] = true
drains_foreign self_id (err e ∷ ds) = drains_foreign self_id ds
drains_foreign self_id (ok fs ∷ ds) = batch_foreign self_id fs && drains_foreign self_id ds

pub contains-snoc :
    (xs : List ℕ) (y x : ℕ) → contains (xs ++ y ∷ []) x ≡ (contains xs x || (y == x))
contains-snoc [] y x = ground arith
contains-snoc (z ∷ xs) y x = ground (arith, contains-snoc xs y x)

distinct-snoc :
    (xs : List ℕ) (y : ℕ)
    → distinct xs ≡ true
    → contains xs y ≡ false
    → distinct (xs ++ y ∷ []) ≡ true
distinct-snoc [] y d c = refl
distinct-snoc (z ∷ xs) y d c =
    ground (arith, contains-snoc xs y z, distinct-snoc xs y (ground (arith, d)) (ground (arith, c)))

-- `source` tells the voters whose grants are among the frames.
pub record IsSound (self_id : ℕ) (peers : List ℕ) (source : ℕ → Bool) (t : Tally) : Type 0 where
  pub is_distinct : distinct t.granted ≡ true
  pub answered :
      (x : ℕ) → contains t.granted x ≡ true → (x ≡ self_id) ⊎ (contains t.responders x ≡ true)
  pub are_voters : (x : ℕ) → contains t.granted x ≡ true → contains peers x ≡ true
  pub are_grants : (x : ℕ) → contains t.granted x ≡ true → (x ≡ self_id) ⊎ (source x ≡ true)

module _ (self_id : ℕ) (peers : List ℕ) (source : ℕ → Bool) where
  -- A responder that does not grant.
  IsSound-answer :
      (t : Tally) (from : ℕ)
      → IsSound self_id peers source t
      → IsSound self_id peers source
          (record { granted = t.granted; responders = t.responders ++ from ∷ [] })
  IsSound-answer t from s = record {
    is_distinct = s.is_distinct;
    answered = λ x h. elim (s.answered x h) [
      | inl e ↦ inl e
      | inr c ↦ inr (ground (arith, contains-snoc t.responders from x, c))
    ];
    are_voters = s.are_voters;
    are_grants = s.are_grants;
  }

  -- A responder that grants.
  IsSound-grant :
      (t : Tally) (from : ℕ)
      → IsSound self_id peers source t
      → contains t.responders from ≡ false
      → from ≢ self_id
      → contains peers from ≡ true
      → source from ≡ true
      → IsSound self_id peers source
          (record { granted = t.granted ++ from ∷ []; responders = t.responders ++ from ∷ [] })
  IsSound-grant t from s fresh other voter grants =
      let split : (x : ℕ)
          → contains (t.granted ++ from ∷ []) x ≡ true
          → (contains t.granted x ≡ true) ⊎ (x ≡ from) =
        λ x h. elim (Bool-cases (contains t.granted x)) [
          | inl e ↦ inl e
          | inr e ↦ inr (ground (arith, contains-snoc t.granted from x, e, h))
        ] in
      let new : contains t.granted from ≡ false = elim (Bool-cases (contains t.granted from)) [
        | inr e ↦ e
        | inl e ↦
            absurd (elim (s.answered from e) [
              | inl same ↦ other same
              | inr c ↦ ground (arith, c, fresh)
            ])
      ] in
      record {
        is_distinct = distinct-snoc t.granted from s.is_distinct new;
        answered = λ x h. elim (split x h) [
          | inl e ↦ elim (s.answered x e) [
            | inl same ↦ inl same
            | inr c ↦ inr (ground (arith, contains-snoc t.responders from x, c))
          ]
          | inr e ↦ inr (ground (arith, contains-snoc t.responders from x, e))
        ];
        are_voters = λ x h. elim (split x h) [ inl e ↦ s.are_voters x e | inr e ↦ rw e voter ];
        are_grants =
            λ x h. elim (split x h) [ inl e ↦ s.are_grants x e | inr e ↦ inr (rw e grants) ];
      }

-- What a pass over responses must leave: unless the node was deposed or the pass failed, a sound
-- tally, and the node as it was.
abbrev pub Tallied :
    {S : Type 0} (self_id : ℕ) (source : ℕ → Bool)
    → RaftNode S
    → Result (Option Tally)
    → RaftNode S
    → Type 0
Tallied self_id source n (ok (some t)) m = IsSound self_id n.config.peers source t × (m ≡ n)
Tallied self_id source n (ok none) m = Unit {0}
Tallied self_id source n (err e) m = Unit {0}

module _ {S : Type 0} ⦃st : RaftStorage S⦄ (self_id : ℕ) (source : ℕ → Bool) (term : ℕ) where
  count_response-Tallied :
      (from : ℕ) (resp : RequestVoteResp) (t : Tally) (n : RaftNode S)
      → IsSound self_id n.config.peers source t
      → from ≢ self_id
      → (is_grant term (some resp) ≡ true → source from ≡ true)
      → Tallied self_id source n
          (count_response for_vote term from resp t n).0
          (count_response for_vote term from resp t n).1
  unfolding count_response counts_grant
  count_response-Tallied from resp t n s other g = elim (Bool-cases (contains t.responders from)) [
    | inl old ↦ rw (count_response, old) (s, refl)
    | inr new ↦ elim (Bool-cases (ltb (current_term n) resp.term)) [
      | inl up ↦
          rw (count_response, new, up)
            (bind_rule (λ r m. Tallied self_id source n r m) (step_down resp.term)
              (λ _ m. (ok none, m)) n (λ _ _. tt) (λ _ _. tt))
      | inr same ↦ elim (Bool-cases (counts_grant for_vote term from resp n)) [
        | inl grants ↦
            rw (count_response, new, same, grants)
              (
                IsSound-grant self_id n.config.peers source t from s new other
                    (ground (arith, grants)) (g (ground (arith, grants))),
                refl,
              )
        | inr refuses ↦
            rw (count_response, new, same, refuses)
              (IsSound-answer self_id n.config.peers source t from s, refl)
      ]
    ]
  ]

  process_frame-Tallied :
      (f : Frame) (t : Tally) (n : RaftNode S)
      → IsSound self_id n.config.peers source t
      → f.inbound.from ≢ self_id
      → (is_grant term (response_of for_vote f.inbound.message) ≡ true
          → source f.inbound.from ≡ true)
      → Tallied self_id source n
          (process_frame for_vote term f t n).0
          (process_frame for_vote term f t n).1
  unfolding process_frame
  process_frame-Tallied f t n s other g =
      elim (Option-cases (response_of for_vote f.inbound.message)) [
        | inl e ↦ rw (process_frame, e) (s, refl)
        | inr (resp, e) ↦
            rw (process_frame, e)
              (count_response-Tallied f.inbound.from resp t n s other (λ c. g (rw e c)))
      ]

  after_frame :
      (fs : List Frame) (n m : RaftNode S) (r : Option Tally)
      → Tallied self_id source n (ok r) m
      → ((t : Tally)
          → IsSound self_id n.config.peers source t
          → Tallied self_id source n
              (process_responses for_vote term fs t n).0
              (process_responses for_vote term fs t n).1)
      → let rest : M S (Option Tally) = elim r [
        | none ↦ (λ m. (ok none, m))
        | some t ↦ process_responses for_vote term fs t
      ] in
        Tallied self_id source n (rest m).0 (rest m).1
  after_frame fs n m none h others = tt
  after_frame fs n m (some t) (s, same) others = rw same (others t s)

  pub process_responses-Tallied :
      (fs : List Frame) (t : Tally) (n : RaftNode S)
      → IsSound self_id n.config.peers source t
      → batch_foreign self_id fs ≡ true
      → ((x : ℕ) → batch_grants term x fs ≡ true → source x ≡ true)
      → Tallied self_id source n
          (process_responses for_vote term fs t n).0
          (process_responses for_vote term fs t n).1
  unfolding process_responses
  process_responses-Tallied [] t n s b g = (s, refl)
  process_responses-Tallied (f ∷ fs) t n s b g =
      let one =
        process_frame-Tallied f t n s (ground (arith, b))
          (λ h. g f.inbound.from (ground (arith, h))) in
      bind_rule (Tallied self_id source n) (process_frame for_vote term f t) _ n (λ _ _. tt)
        λ r e.
          after_frame fs n (process_frame for_vote term f t n).1 r
            (subst (λ r. Tallied self_id source n r (process_frame for_vote term f t n).1) e one)
            λ t' s'.
              process_responses-Tallied fs t' n s' (ground (arith, b))
                (λ x h. g x (ground (arith, h)))
