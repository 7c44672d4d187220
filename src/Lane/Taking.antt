-- ===== src/Lane/Taking.antt =====
-- The outcomes of `takeMandatoryCleanup` of asyncengine/strategy.go.
use pit_go.Base.{
  ℕ, ◌≤◌, ◌<◌, ◌≡◌, refl, Bool, true, false, not, ◌&&◌, ◌⊎◌, List, [], ◌∷◌, arith, ltb, ltb→lt,
  ltb→le, if◌then◌else◌, is_empty, Bool-cases, inl, inr,
}
use pit_go.Lane.Queue.{
  KeyQueue, Entry, Taken, ready, not_ready, recapture, release_head, take_head,
  take_mandatory_cleanup,
}

-- The head of the backlog as `takeMandatoryCleanup` sees it.
abbrev pub seen : Bool → ℕ → Entry → Entry
seen fence_closed admitted e =
    if e.wait_submit_fence && fence_closed then recapture admitted e else e

-- How the call left the queue, with what it reported.
pub data Outcome (fence_closed : Bool) (q q' : KeyQueue) (t : Taken) : Type 0 where
  nothing : q.mandatory ≡ [] → q' ≡ q → t ≡ not_ready false → Outcome fence_closed q q' t
  fenced :
      (e : Entry) (es : List Entry)
      → q.mandatory ≡ e ∷ es
      → e.wait_submit_fence ≡ true
      → fence_closed ≡ false
      → q' ≡ q
      → t ≡ not_ready true
      → Outcome fence_closed q q' t
  behind :
      (e : Entry) (es : List Entry)
      → q.mandatory ≡ e ∷ es
      → (e.wait_submit_fence ≡ false) ⊎ (fence_closed ≡ true)
      → q.settled < (seen fence_closed q.admitted e).settle_target
      → q' ≡ record q { mandatory = seen fence_closed q.admitted e ∷ es }
      → t ≡ not_ready false
      → Outcome fence_closed q q' t
  released :
      (e : Entry) (es : List Entry)
      → q.mandatory ≡ e ∷ es
      → (e.wait_submit_fence ≡ false) ⊎ (fence_closed ≡ true)
      → (seen fence_closed q.admitted e).settle_target ≤ q.settled
      → q' ≡ record q { mandatory = es; mandatory_queued = not (is_empty es) }
      → t ≡ ready e.task
      → Outcome fence_closed q q' t

release-Outcome :
    (fence_closed : Bool) (q : KeyQueue) (e : Entry) (es : List Entry) {q' : KeyQueue} {t : Taken}
    → q.mandatory ≡ e ∷ es
    → (e.wait_submit_fence ≡ false) ⊎ (fence_closed ≡ true)
    → release_head q (seen fence_closed q.admitted e) es ≡ (q', t)
    → Outcome fence_closed q q' t
unfolding release_head
release-Outcome fence_closed q e es m f r =
    elim (Bool-cases (ltb q.settled (seen fence_closed q.admitted e).settle_target)) [
      | inl b ↦ behind e es m f (ltb→lt _ _ b) (ground arith) (ground arith)
      | inr b ↦ released e es m f (ltb→le _ _ b) (ground arith) (ground arith)
    ]

head-Outcome :
    (fence_closed : Bool) (q : KeyQueue) (es : List Entry) {q' : KeyQueue} {t : Taken}
    → q.mandatory ≡ es
    → take_head fence_closed q es ≡ (q', t)
    → Outcome fence_closed q q' t
unfolding take_head
head-Outcome fence_closed q [] m r = nothing m (ground arith) (ground arith)
head-Outcome fence_closed q (e ∷ es) m r = elim (Bool-cases e.wait_submit_fence) [
  | inl w ↦ elim (Bool-cases fence_closed) [
    | inl f ↦ release-Outcome fence_closed q e es m (inr f) (ground arith)
    | inr f ↦ fenced e es m w f (ground arith) (ground arith)
  ]
  | inr w ↦ release-Outcome fence_closed q e es m (inl w) (ground arith)
]

pub take-Outcome :
    (fence_closed : Bool) (q : KeyQueue) {q' : KeyQueue} {t : Taken}
    → q.mandatory_queued ≡ not (is_empty q.mandatory)
    → take_mandatory_cleanup fence_closed q ≡ (q', t)
    → Outcome fence_closed q q' t
unfolding take_mandatory_cleanup
take-Outcome fence_closed q m r = elim (Bool-cases q.mandatory_queued) [
  | inl b ↦ head-Outcome fence_closed q q.mandatory refl (ground arith)
  | inr b ↦ nothing (ground arith) (ground arith) (ground arith)
]
