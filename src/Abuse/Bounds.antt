-- ===== src/Abuse/Bounds.antt =====
-- The size of the guard: one bucket for each node that was a member, and one for all other senders.
use arbitro_raft.Base.{
  ℕ, ◌+◌, ◌≤◌, ◌≡◌, refl, true, List, [], ◌∷◌, Option, none, some, ltb, leb, ◌==◌, arith, length,
  contains, distinct, count_if-le-length, inl, inr, Bool-cases, Option-cases,
}
use arbitro_raft.Config.{LimitsConfig}
use arbitro_raft.PeerMap.{keys, get, insert, remove}
use arbitro_raft.PeerMap.Laws.{
  distinct-insert, distinct-remove, contains-keys-insert, contains-keys-remove,
}
use arbitro_raft.Quorum.Overlap.{length-le-count, IsSubset}
use arbitro_raft.Abuse.{
  InboundAbuseGuard, PeerAbuseState, key_for, is_jailed, record_decode_error, unknown_sender_key,
  counted_state,
}

-- The keys are distinct, and each is in the list or the bucket of the others.
pub record IsBounded (members : List ℕ) (g : InboundAbuseGuard) : Type 0 where
  pub keys_distinct : distinct (keys g.peers) ≡ true
  pub keys_known : IsSubset (keys g.peers) (unknown_sender_key ∷ members)

-- One frame: the claimed sender, the members at that time, the instant, and whether the run loop
-- asks or records an error.
pub data GuardCall : Type 0 where
  asks records : Option ℕ → List ℕ → ℕ → GuardCall

abbrev pub members_of : GuardCall → List ℕ
members_of (asks from members now) = members
members_of (records from members now) = members

abbrev pub guard_step : LimitsConfig → InboundAbuseGuard → GuardCall → InboundAbuseGuard
guard_step limits g (asks from members now) = (is_jailed (key_for from members) now g).1
guard_step limits g (records from members now) =
    (record_decode_error (key_for from members) now limits g).1

abbrev pub guard_run : LimitsConfig → InboundAbuseGuard → List GuardCall → InboundAbuseGuard
guard_run limits g [] = g
guard_run limits g (c ∷ cs) = guard_run limits (guard_step limits g c) cs

-- Every member at the time of some frame is in the list.
abbrev pub AllMembersIn : List ℕ → List GuardCall → Type 0
AllMembersIn ever [] = Unit {0}
AllMembersIn ever (c ∷ cs) = IsSubset (members_of c) ever × AllMembersIn ever cs

key_for-known :
    (from : Option ℕ) (members ever : List ℕ)
    → IsSubset members ever
    → contains (unknown_sender_key ∷ ever) (key_for from members) ≡ true
unfolding key_for
key_for-known none members ever s = ground arith
key_for-known (some id) members ever s = ground (arith, s id)

insert-IsBounded :
    (members : List ℕ) (g : InboundAbuseGuard) (key : ℕ) (state : PeerAbuseState)
    → contains (unknown_sender_key ∷ members) key ≡ true
    → IsBounded members g
    → IsBounded members (record { peers = insert g.peers key state })
insert-IsBounded members g key state k b = record {
  keys_distinct = distinct-insert g.peers key state b.keys_distinct;
  keys_known = λ x h. elim (Bool-cases (key == x)) [
    | inl e ↦ ground (arith, e, k)
    | inr e ↦ b.keys_known x (ground (arith, contains-keys-insert g.peers key x state, h, e))
  ];
}

remove-IsBounded :
    (members : List ℕ) (g : InboundAbuseGuard) (key : ℕ)
    → IsBounded members g
    → IsBounded members (record { peers = remove g.peers key })
remove-IsBounded members g key b = record {
  keys_distinct = distinct-remove g.peers key b.keys_distinct;
  keys_known =
      λ x h. b.keys_known x (ground (arith, contains-keys-remove g.peers key x b.keys_distinct, h));
}

is_jailed-IsBounded :
    (members : List ℕ) (key now : ℕ) (g : InboundAbuseGuard)
    → IsBounded members g
    → IsBounded members (is_jailed key now g).1
unfolding is_jailed
is_jailed-IsBounded members key now g b = elim (Option-cases (get g.peers key)) [
  | inl a ↦ rw (is_jailed, a) b
  | inr (state, a) ↦ elim (Option-cases state.jailed_until) [
    | inl u ↦ rw (is_jailed, a, u) b
    | inr (until, u) ↦ elim (Bool-cases (ltb now until)) [
      | inl t ↦ rw (is_jailed, a, u, t) b
      | inr t ↦ rw (is_jailed, a, u, t) (remove-IsBounded members g key b)
    ]
  ]
]

record_decode_error-IsBounded :
    (members : List ℕ) (key now : ℕ) (limits : LimitsConfig) (g : InboundAbuseGuard)
    → contains (unknown_sender_key ∷ members) key ≡ true
    → IsBounded members g
    → IsBounded members (record_decode_error key now limits g).1
unfolding record_decode_error
record_decode_error-IsBounded members key now limits g k b =
    let threshold = limits.inbound_decode_error_jail_threshold in
    let state = counted_state key now limits g in
    elim (Bool-cases (threshold == 0)) [
      | inl z ↦ rw (record_decode_error, z) b
      | inr z ↦ elim (Bool-cases (leb threshold state.errors_in_window)) [
        | inl t ↦ rw (record_decode_error, z, t) (insert-IsBounded members g key _ k b)
        | inr t ↦ rw (record_decode_error, z, t) (insert-IsBounded members g key _ k b)
      ]
    ]

step-IsBounded :
    (ever : List ℕ) (limits : LimitsConfig) (g : InboundAbuseGuard) (c : GuardCall)
    → IsSubset (members_of c) ever
    → IsBounded ever g
    → IsBounded ever (guard_step limits g c)
step-IsBounded ever limits g (asks from members now) s =
    is_jailed-IsBounded ever (key_for from members) now g
step-IsBounded ever limits g (records from members now) s =
    record_decode_error-IsBounded ever (key_for from members) now limits g
      (key_for-known from members ever s)

pub run-IsBounded :
    (ever : List ℕ) (limits : LimitsConfig) (cs : List GuardCall) (g : InboundAbuseGuard)
    → AllMembersIn ever cs
    → IsBounded ever g
    → IsBounded ever (guard_run limits g cs)
run-IsBounded ever limits [] g s b = b
run-IsBounded ever limits (c ∷ cs) g s b =
    run-IsBounded ever limits cs _ s.1 (step-IsBounded ever limits g c s.0 b)

-- A guard that starts empty and takes any frames, from whatever senders they claim and each under
-- the members of its time, holds at most one entry more than a list that covers the members of all
-- these frames has.
pub length-guard_run :
    (ever : List ℕ) (limits : LimitsConfig) (cs : List GuardCall)
    → AllMembersIn ever cs
    → length (keys (guard_run limits (record { peers = [] }) cs).peers) ≤ length ever + 1
unfolding keys
length-guard_run ever limits cs s =
    let g = guard_run limits (record { peers = [] }) cs in
    let b =
      run-IsBounded ever limits cs (record { peers = [] }) s
        (record { keys_distinct = refl; keys_known = λ x h. absurd (ground arith) }) in
    omega (
      arith,
      length-le-count (keys g.peers) (unknown_sender_key ∷ ever) b.keys_distinct b.keys_known,
      count_if-le-length (contains (keys g.peers)) (unknown_sender_key ∷ ever),
    )
