-- ===== src/Core/Stream/Laws.antt =====
-- The budget accepts the longest prefix of the chunks that fits, and nothing after it.
use tracepress.Base.{
  ℕ, ◌+◌, ◌≤◌, ◌<◌, ◌≡◌, refl, ap, ◌∙◌, inl, inr, true, false, List, [], ◌∷◌, arith, Bytes, ltb,
  if◌then◌else◌, ltb→lt, ltb→le, Bool-cases, IsU64, length, All, err,
}
use tracepress.Core.ByteBoundary.{stream_already_terminated}
use tracepress.Core.Stream.{StreamingResponseBudget, new, observe_chunk, observe_all}

-- Bytes in the longest prefix of the chunks whose total, on top of `total`, is within `maximum`.
abbrev pub fitting_prefix : ℕ → ℕ → List Bytes → ℕ
fitting_prefix maximum total [] = total
fitting_prefix maximum total (c ∷ cs) =
    if ltb maximum (total + length c) then total else fitting_prefix maximum (total + length c) cs

observe_chunk_terminated :
    (b : StreamingResponseBudget) (chunk : Bytes)
    → b.terminated ≡ true
    → observe_chunk b chunk ≡ (b, err stream_already_terminated)
unfolding observe_chunk
observe_chunk_terminated b chunk h = rw h

observe_all_terminated :
    (b : StreamingResponseBudget) (cs : List Bytes) → b.terminated ≡ true → observe_all b cs ≡ b
unfolding observe_all
observe_all_terminated b [] h = refl
observe_all_terminated b (c ∷ cs) h =
    rw (observe_chunk_terminated b c h) (observe_all_terminated b cs h)

-- A live budget within its maximum, one representable chunk: what comes out of `observe_chunk`.
observe_chunk_fits :
    (m a : ℕ) (chunk : Bytes)
    → IsU64 m
    → a + length chunk ≤ m
    → (observe_chunk (record { maximum = m; accepted_bytes = a; terminated = false }) chunk).0
      ≡ record { maximum = m; accepted_bytes = a + length chunk; terminated = false }
unfolding observe_chunk
observe_chunk_fits m a chunk hm h = ground arith

observe_chunk_exceeds :
    (m a : ℕ) (chunk : Bytes)
    → IsU64 (length chunk)
    → m < a + length chunk
    → (observe_chunk (record { maximum = m; accepted_bytes = a; terminated = false }) chunk).0
      ≡ record { maximum = m; accepted_bytes = a; terminated = true }
unfolding observe_chunk
observe_chunk_exceeds m a chunk hc h = ground arith

-- Over any chunks of representable length the bytes that a live budget ends with are those of the
-- longest prefix of the chunks that fits the maximum; a later chunk that would fit adds nothing.
observe_all-fitting_prefix :
    (m a : ℕ) (cs : List Bytes)
    → IsU64 m
    → All (λ c. IsU64 (length c)) cs
    → (observe_all
        (record { maximum = m; accepted_bytes = a; terminated = false })
        cs).accepted_bytes
      ≡ fitting_prefix m a cs
unfolding observe_all
observe_all-fitting_prefix m a [] hm h = refl
observe_all-fitting_prefix m a (c ∷ cs) hm (hc, hcs) = elim (Bool-cases (ltb m (a + length c))) [
  | inl over ↦ rw over (
      ap (λ s. (observe_all s cs).accepted_bytes) (observe_chunk_exceeds m a c hc (ltb→lt _ _ over))
      ∙ ap (λ (s : StreamingResponseBudget). s.accepted_bytes) (observe_all_terminated _ cs refl))
  | inr fits ↦ rw fits (
      ap (λ (s : StreamingResponseBudget). (observe_all s cs).accepted_bytes)
        (observe_chunk_fits m a c hm (ltb→le _ _ fits))
      ∙ observe_all-fitting_prefix m (a + length c) cs hm hcs)
]

-- For a new budget with a maximum within 64 bits and chunks of representable length, the accepted bytes are those of the longest
-- prefix of the chunks whose total is within the maximum: a chunk after the first rejected one adds
-- nothing, even if it would fit.
pub observe_all-new :
    (m : ℕ) (cs : List Bytes)
    → IsU64 m
    → All (λ c. IsU64 (length c)) cs
    → (observe_all (new m) cs).accepted_bytes ≡ fitting_prefix m 0 cs
unfolding new
observe_all-new m cs = observe_all-fitting_prefix m 0 cs
