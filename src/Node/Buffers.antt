-- ===== src/Node/Buffers.antt =====
-- The cap on the bytes of a transfer, over the operations of the map of transfers.
use arbitro_raft.Base.{
  ℕ, ◌≤◌, ◌≡◌, [], ◌∷◌, some, ltb, ◌==◌, arith, Option-cases, length, inl, inr, Bool-cases,
}
use arbitro_raft.PeerMap.{PeerMap, get, insert, remove, swap_in}
use arbitro_raft.Wire.{InstallSnapshot}
use arbitro_raft.Node.{PendingSnapshot}
use arbitro_raft.Node.Snapshot.{live_transfers, open_transfer}

abbrev pub AllWithin : ℕ → PeerMap PendingSnapshot → Type 0
AllWithin cap [] = Unit {0}
AllWithin cap ((p, s) ∷ rest) = (length s.bytes ≤ cap) × AllWithin cap rest

pub insert-AllWithin :
    (cap key : ℕ) (s : PendingSnapshot) (m : PeerMap PendingSnapshot)
    → length s.bytes ≤ cap
    → AllWithin cap m
    → AllWithin cap (insert m key s)
unfolding insert
insert-AllWithin cap key s [] h a = (h, tt)
insert-AllWithin cap key s ((k, t) ∷ m) h a = elim (Bool-cases (k == key)) [
  | inl e ↦ rw e (h, a.1)
  | inr e ↦ rw e (a.0, insert-AllWithin cap key s m h a.1)
]

swap_in-AllWithin :
    (cap : ℕ) (m : PeerMap PendingSnapshot) → AllWithin cap m → AllWithin cap (swap_in m)
unfolding swap_in
swap_in-AllWithin cap [] a = tt
swap_in-AllWithin cap (e ∷ []) a = a
swap_in-AllWithin cap (e ∷ f ∷ m) a = go (swap_in (f ∷ m)) (swap_in-AllWithin cap (f ∷ m) a.1)
  where
    go :
        (r : PeerMap PendingSnapshot)
        → AllWithin cap r
        → AllWithin cap (elim r [ [] ↦ e ∷ [] | last ∷ front ↦ last ∷ e ∷ front ])
    go [] b = (a.0, tt)
    go (last ∷ front) b = (b.0, (a.0, b.1))

pub remove-AllWithin :
    (cap key : ℕ) (m : PeerMap PendingSnapshot) → AllWithin cap m → AllWithin cap (remove m key)
unfolding remove
remove-AllWithin cap key [] a = tt
remove-AllWithin cap key ((k, t) ∷ m) a = elim (Bool-cases (k == key)) [
  | inl e ↦ rw e (swap_in-AllWithin cap m a.1)
  | inr e ↦ rw e (a.0, remove-AllWithin cap key m a.1)
]

pub live_transfers-AllWithin :
    (cap now : ℕ) (m : PeerMap PendingSnapshot)
    → AllWithin cap m
    → AllWithin cap (live_transfers now m)
unfolding live_transfers
live_transfers-AllWithin cap now [] a = tt
live_transfers-AllWithin cap now ((k, t) ∷ m) a = elim (Bool-cases (ltb t.deadline now)) [
  | inl e ↦ rw e (live_transfers-AllWithin cap now m a.1)
  | inr e ↦ rw e (a.0, live_transfers-AllWithin cap now m a.1)
]

get-AllWithin :
    (cap key : ℕ) (m : PeerMap PendingSnapshot) (s : PendingSnapshot)
    → AllWithin cap m
    → get m key ≡ some s
    → length s.bytes ≤ cap
unfolding get
get-AllWithin cap key [] s a e = absurd (ground (arith, e))
get-AllWithin cap key ((k, t) ∷ m) s a e = ground (arith, a.0, e, get-AllWithin cap key m s a.1)

pub open_transfer-within :
    (cap until : ℕ) (msg : InstallSnapshot) (from : ℕ) (m : PeerMap PendingSnapshot)
    → AllWithin cap m
    → length (open_transfer until msg (get m from)).bytes ≤ cap
open_transfer-within cap until msg from m a = elim (Option-cases (get m from)) [
  | inl e ↦ rw e (unfold open_transfer in omega arith)
  | inr (s, e) ↦ rw e (unfold open_transfer in ground (arith, get-AllWithin cap from m s a e))
]
