-- ===== src/Wire.antt =====
-- src/web_server.cpp and src/admin.cpp: the two loops that send a response. `send k n` is what the `k`-th
-- call of `::send` answers when `n` bytes are offered: the number of bytes that it took, or `none` for an
-- error or for no byte.
pub mod Delivery
use shadow_se.Base.{
  ℕ, zero, suc, ◌+◌, Option, none, some, List, [], ◌∷◌, ◌++◌, length, take, drop, Bytes,
}

module _ (send : ℕ → ℕ → Option ℕ) where
  -- The bytes that go out, and the number of the next call. On fuel: the number of bytes to send.
  unfoldable pub send_from : ℕ → ℕ → Bytes → Bytes × ℕ
  send_from fuel k [] = ([], k)
  send_from zero k (c ∷ s) = ([], k)
  send_from (suc fuel) k (c ∷ s) = elim (send k (length (c ∷ s))) [
    | none ↦ ([], k + 1)
    | some n ↦
        let (out, k') = send_from fuel (k + 1) (drop n (c ∷ s)) in (take n (c ∷ s) ++ out, k')
  ]

  unfoldable pub send_all : ℕ → Bytes → Bytes × ℕ
  send_all k s = send_from (length s) k s

  -- The header and then the body, whatever became of the header.
  unfoldable pub send_both : ℕ → Bytes → Bytes → Bytes
  send_both k head body = let (out, k') = send_all k head in out ++ (send_all k' body).0
