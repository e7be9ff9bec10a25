-- ===== src/Outbox/Lifecycle.antt =====
-- The life of an event under the methods of internal/biz/outbox/model.go, over every sequence of
-- calls: the invariant, the states that are final, and the count of attempts.
use ai_go.Common.{
  ℕ, suc, ◌+◌, ◌<◌, ◌≡◌, refl, ◌≢◌, ◌⊎◌, inl, inr, Bool, true, false, some, List, [], ◌∷◌, arith,
  if◌then◌else◌, ap, ◌&&◌, ◌∙◌, Bool-cases,
}
use ai_go.Common.Int.{pos, wrap32, ◌+ℤ◌}
use ai_go.Common.Text.{Text}
use ai_go.Common.Result.{Result, ok, err}
use ai_go.Common.Clock.{Time}
use ai_go.Outbox.Event.{
  Error, invalid_transition, Event, AttentionReason, DeliveryStatus, no_reason, dispatching,
  delivered, failed, needs_attention, new_pending, is_valid_identifier, valid_attention_reason,
}
use ai_go.Outbox.Transitions.{
  mark_dispatching, mark_delivered, mark_failed, mark_needs_attention, requeue,
}

-- A call of one of the methods.
pub data Call : Type 0 where
  dispatch : Text → Text → Time → Time → Call
  deliver : Time → Call
  fail : Time → Call
  attend : AttentionReason → Time → Call
  retry : Time → Call

unfoldable pub call : Call → Event → Result Error Event
unfolding mark_dispatching mark_delivered mark_failed mark_needs_attention requeue
call (dispatch token owner until now) e = mark_dispatching token owner until now (some e)
call (deliver now) e = mark_delivered now (some e)
call (fail now) e = mark_failed now (some e)
call (attend why now) e = mark_needs_attention why now (some e)
call (retry next) e = requeue next (some e)

-- The event after a call: as it was, if the call is refused.
abbrev pub after_call : Result Error Event → Event → Event
after_call (ok e') e = e'
after_call (err x) e = e

unfoldable pub calls : List Call → Event → Event
calls [] e = e
calls (c ∷ cs) e = calls cs (after_call (call c e) e)

-- A lease is held exactly while the event is dispatched; a reason is recorded exactly while it
-- needs attention; the submission's facts are those of the event `o` it began as.
pub record IsSound (o e : Event) : Type 0 where
  pub leased :
      e.delivery_status ≡ dispatching
      → (e.lease_token ≢ []) × (e.lease_owner ≢ []) × (0 < e.lease_until)
  pub unleased :
      e.delivery_status ≢ dispatching
      → (e.lease_token ≡ []) × (e.lease_owner ≡ []) × (e.lease_until ≡ 0)
  pub reasoned :
      e.delivery_status ≡ needs_attention → valid_attention_reason e.attention_reason ≡ true
  pub unreasoned : e.delivery_status ≢ needs_attention → e.attention_reason ≡ no_reason
  pub same_id : e.id ≡ o.id
  pub same_payload : e.payload ≡ o.payload
  pub same_created : e.created_at ≡ o.created_at
  pub same_window : e.redrive_count ≡ o.redrive_count

call-IsSound :
    (o : Event) (c : Call) (e : Event) → IsSound o e → IsSound o (after_call (call c e) e)
unfolding call is_valid_identifier
call-IsSound o (dispatch token owner until now) e s = ground arith
call-IsSound o (deliver now) e s = ground arith
call-IsSound o (fail now) e s = ground arith
call-IsSound o (attend why now) e s = ground arith
call-IsSound o (retry next) e s = ground arith

calls-IsSound : (o : Event) (cs : List Call) (e : Event) → IsSound o e → IsSound o (calls cs e)
unfolding calls
calls-IsSound o [] e s = s
calls-IsSound o (c ∷ cs) e s = calls-IsSound o cs (after_call (call c e) e) (call-IsSound o c e s)

new_pending-IsSound :
    (json_valid : Text → Bool) (id aggregate payload : Text) (now : Time) {e : Event}
    → new_pending json_valid id aggregate payload now ≡ ok e
    → IsSound e e
unfolding new_pending
new_pending-IsSound json_valid id aggregate payload now h = ground arith

-- After any sequence of method calls on a newly created event: it holds a lease (token, owner and
-- expiry) exactly while it is dispatched, it has a registered reason exactly while it needs
-- attention, and its ID, payload, creation time and redrive count are those it was created with.
pub new_pending-calls-IsSound :
    (json_valid : Text → Bool) (id aggregate payload : Text) (now : Time) {e : Event}
    (cs : List Call)
    → new_pending json_valid id aggregate payload now ≡ ok e
    → IsSound e (calls cs e)
new_pending-calls-IsSound json_valid id aggregate payload now {e} cs h =
    calls-IsSound e cs e (new_pending-IsSound json_valid id aggregate payload now h)

abbrev pub IsFinal : DeliveryStatus → Type 0
IsFinal s = (s ≡ delivered) ⊎ (s ≡ failed) ⊎ (s ≡ needs_attention)

call-IsFinal :
    (c : Call) (e : Event) → IsFinal e.delivery_status → call c e ≡ err invalid_transition
unfolding call
call-IsFinal (dispatch token owner until now) e f = ground arith
call-IsFinal (deliver now) e f = ground arith
call-IsFinal (fail now) e f = ground arith
call-IsFinal (attend why now) e f = ground arith
call-IsFinal (retry next) e f = ground arith

-- An event that is delivered, failed or in need of attention refuses every method with the
-- transition error, so that any sequence of calls leaves it as it is.
pub calls_final :
    (c : Call) (cs : List Call) (e : Event)
    → IsFinal e.delivery_status
    → (call c e ≡ err invalid_transition) × (calls cs e ≡ e)
unfolding calls
calls_final c [] e f = (call-IsFinal c e f, refl)
calls_final c (d ∷ cs) e f =
    (call-IsFinal c e f, rw (call-IsFinal d e f) ((calls_final c cs e f).1))

-- How many of the calls are dispatches that succeed.
abbrev pub is_dispatch : Call → Bool
is_dispatch (dispatch token owner until now) = true
is_dispatch _ = false

abbrev pub is_ok : Result Error Event → Bool
is_ok (ok e) = true
is_ok (err x) = false

unfoldable pub dispatches : List Call → Event → ℕ
dispatches [] e = 0
dispatches (c ∷ cs) e =
    let rest = dispatches cs (after_call (call c e) e) in
    if is_dispatch c && is_ok (call c e) then suc rest else rest

next_attempt : (n : ℕ) → n < 2147483647 → wrap32 (pos n +ℤ pos 1) ≡ pos (suc n)
unfolding wrap32 ◌+ℤ◌
next_attempt n h = ground arith

call-attempts :
    (c : Call) (e : Event) (n : ℕ)
    → e.attempt_count ≡ pos n
    → n < 2147483647
    → (after_call (call c e) e).attempt_count
      ≡ pos (if is_dispatch c && is_ok (call c e) then suc n else n)
unfolding call
call-attempts (dispatch token owner until now) e n h k = ground (arith, next_attempt n k)
call-attempts (deliver now) e n h k = ground arith
call-attempts (fail now) e n h k = ground arith
call-attempts (attend why now) e n h k = ground arith
call-attempts (retry next) e n h k = ground arith

-- Until the counter's `int32` is full, the attempt count is the number of dispatches that
-- succeeded: nothing else advances it and nothing, a requeue included, sets it back.
pub calls-attempts :
    (cs : List Call) (e : Event) (n : ℕ)
    → e.attempt_count ≡ pos n
    → n + dispatches cs e < 2147483647
    → (calls cs e).attempt_count ≡ pos (n + dispatches cs e)
unfolding calls dispatches
calls-attempts [] e n h k = rw h (ap pos (omega arith))
calls-attempts (c ∷ cs) e n h k =
    let e' = after_call (call c e) e in
    let room : n < 2147483647 = ground arith in
    elim (Bool-cases (is_dispatch c && is_ok (call c e))) [
      | inl counted ↦ rw counted (
          calls-attempts cs e' (suc n) (rw counted at (call-attempts c e n h room))
            (let k' : n + suc (dispatches cs e') < 2147483647 = rw counted at k in omega arith)
          ∙ ap pos (omega arith))
      | inr uncounted ↦ rw uncounted (
          calls-attempts cs e' n (rw uncounted at (call-attempts c e n h room)) (rw uncounted at k))
    ]
