-- ===== src/HandBridge/Node/Polled.antt =====
-- The frames that `poll` gives out and the requests that they belong to.
use linux_iot_gateway.Common.{
  ℕ, List, [], ◌∷◌, some, ◌≡◌, refl, ◌⊎◌, inl, inr, arith, All, All-append, All-map,
}
use linux_iot_gateway.Common.OrderedMap
use linux_iot_gateway.Common.OrderedMap.{Sorted, find_below}
use linux_iot_gateway.HandBridge.RetryPolicy
use linux_iot_gateway.HandBridge.RetryPolicy.{RetryPolicy, Request, RetryFrame, is_sendable}
use linux_iot_gateway.HandBridge.RetryPolicy.Calls.{Call, apply}
use linux_iot_gateway.HandBridge.RetryPolicy.Pointwise.{retry, retries, poll_loop-append}
use linux_iot_gateway.HandBridge.RetryPolicy.Invariant.{RequestIsValid, IsValid}
use linux_iot_gateway.HandBridge.Node.Sound.{Known, apply-AllKnown}

-- What `poll` gives out belongs to the requests that it polled.
abbrev FrameOf : List (ℕ × Request) → RetryFrame → Type 0
FrameOf m f = (r : Request) × (OrderedMap.find f.seq m ≡ some r) × (r.frame ≡ f.frame)

frame_of : Request → RetryFrame
frame_of r = record { seq = r.seq; frame = r.frame }

retry-cases : (now : ℕ) (r : Request) → (retry now r ≡ []) ⊎ (retry now r ≡ frame_of r ∷ [])
unfolding retry frame_of RetryPolicy.poll_round
retry-cases now r = ground arith

retry-FrameOf :
    (now k : ℕ) (r : Request) (m : List (ℕ × Request))
    → r.seq ≡ k
    → All (FrameOf ((k, r) ∷ m)) (retry now r)
unfolding OrderedMap.find frame_of
retry-FrameOf now k r m keyed = elim (retry-cases now r) [
  | inl none_out ↦ rw none_out tt
  | inr one_out ↦ rw one_out ((r, ground arith, refl), tt)
]

FrameOf-tail :
    (lo k : ℕ) (r : Request) (m : List (ℕ × Request))
    → Sorted RequestIsValid k m
    → (f : RetryFrame) → FrameOf m f
    → FrameOf ((k, r) ∷ m) f
unfolding OrderedMap.find
FrameOf-tail lo k r m s f (r', e, same) =
    (r', ground (arith, find_below RequestIsValid f.seq k m), same)

retries-FrameOf :
    (now lo : ℕ) (m : List (ℕ × Request))
    → Sorted RequestIsValid lo m
    → All (FrameOf m) (retries now m)
unfolding retries
retries-FrameOf now lo [] s = tt
retries-FrameOf now lo ((k, r) ∷ m) (lt, v, s) =
    All-append (FrameOf ((k, r) ∷ m)) (retry now r) (retries now m)
      (retry-FrameOf now k r m v.keyed)
      (All-map (FrameOf-tail lo k r m s) (retries now m) (retries-FrameOf now k m s))

pub poll-AllKnown :
    (p : RetryPolicy) (now : ℕ)
    → IsValid p
    → All (Known (apply p (Call.poll now)).0) (apply p (Call.poll now)).1
poll-AllKnown p now v = apply-AllKnown p (Call.poll now) (apply p (Call.poll now)).1 before
  where
    before : All (Known p) (apply p (Call.poll now)).1
    before =
        unfold apply RetryPolicy.poll RetryPolicy.find in
        rw (poll_loop-append now p.requests []) (retries-FrameOf now 0 p.requests v)
