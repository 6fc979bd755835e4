-- ===== src/Node/Rules.antt =====
-- Rules for the methods of a node: what holds after each part holds after their sequence.
use arbitro_raft.Base.{◌≡◌, refl}
use arbitro_raft.Error.{Result, ok, err}
use arbitro_raft.Node.{RaftNode, M, ◌>>=◌, bind_result}

-- A statement about the result and the node after it, over a sequence of two parts: it holds when
-- the first fails, and when the second runs on.
pub bind_rule {ℓ} :
    {S A B : Type 0} (P : Result B → RaftNode S → Type ℓ) (m : M S A) (f : A → M S B)
    (n : RaftNode S)
    → ((e : _) → (m n).0 ≡ err e → P (err e) (m n).1)
    → ((a : A) → (m n).0 ≡ ok a → P (f a (m n).1).0 (f a (m n).1).1)
    → P ((m >>= f) n).0 ((m >>= f) n).1
bind_rule {S = S} {A = A} P m f n bad good = go (m n).0 refl
  where
    go : (r : Result A) → (m n).0 ≡ r → P (bind_result f r (m n).1).0 (bind_result f r (m n).1).1
    go (ok a) e = good a e
    go (err x) e = bad x e

-- The same for a statement about the node alone.
pub bind_node {ℓ} :
    {S A B : Type 0} (P : RaftNode S → Type ℓ) (m : M S A) (f : A → M S B) (n : RaftNode S)
    → P (m n).1
    → ((a : A) → (m n).0 ≡ ok a → P (f a (m n).1).1)
    → P ((m >>= f) n).1
bind_node P m f n first then_ = bind_rule (λ r k. P k) m f n (λ e _. first) then_
