-- ===== src/Pair/Once.antt =====
-- A pairing asks once, and is settled once.
use mathlib.Core.Path.{subst}
use kepos.Common.{
  ℕ, ◌≡◌, refl, sym, ap, Bool, true, false, not, Option, none, some, List, [], ◌∷◌, ◌++◌, if_cases,
  inl, inr, ◌⊎◌,
}
use kepos.Common.Json.{Json}
use kepos.Common.Text.{Text, text_eq}
use kepos.Invitation.{Invitation, enrollment_request, parse_invitation}
use kepos.Engine.Traffic.State.{hello}
use kepos.Pair.{
  PairFailure, unusable, unavailable, unknown, rejection, Outcome, failure, paired, Phase, waiting,
  sending, receiving, over, Options, start, Pairing, finish, Event, timeout, closed, connected,
  written, frame, ended, broken, is_settled, set_outcome, lost, connect, take_frame, dispatch, step,
  run,
}
use kepos.Pair.Outcomes.{
  IsWaiting, IsSubmitted, Settles, HasSent, AsksOnce, IsKnown, unknown-IsKnown, json-IsKnown,
}

module _ (secret : Text) (submitted : Bool) (sent : List (List ℕ)) where
  submitted_settles :
      (o : Option Outcome) (new : Outcome)
      → IsSubmitted secret submitted sent
      → Settles secret submitted sent o
      → IsKnown new
      → Settles secret submitted sent (set_outcome o new)
  submitted_settles (some old) new h k n = k
  submitted_settles none (failure unavailable) h k n = absurd (n refl)
  submitted_settles none (failure unknown) h k n = h
  submitted_settles none (failure unusable) h k n = h
  submitted_settles none (failure (rejection r)) h k n = h
  submitted_settles none (paired c) h k n = h

  waiting_settles :
      (o : Option Outcome)
      → IsWaiting submitted sent
      → Settles secret submitted sent o
      → Settles secret submitted sent (set_outcome o (failure unavailable))
  waiting_settles none h k = h
  waiting_settles (some o) h k = k

  lost_settles :
      (p : Phase) (o : Option Outcome)
      → HasSent p secret submitted sent
      → Settles secret submitted sent o
      → Settles secret submitted sent (set_outcome o (failure (lost submitted)))
  lost_settles waiting o h k = rw (ap lost h.0) (waiting_settles o h k)
  lost_settles sending o h k =
      rw (ap lost h.0) (submitted_settles o (failure unknown) h k unknown-IsKnown)
  lost_settles receiving o h k =
      rw (ap lost h.0) (submitted_settles o (failure unknown) h k unknown-IsKnown)
  lost_settles over o h k =
      rw (ap lost h.0) (submitted_settles o (failure unknown) h k unknown-IsKnown)

finish-lost : (q : Pairing) → AsksOnce q → AsksOnce (finish q (failure (lost q.submitted)))
unfolding finish
finish-lost q h = record {
  requests = h.requests;
  settled =
      lost_settles q.invitation.secret q.submitted q.sent q.phase q.outcome h.requests h.settled;
}

-- The state after a request, and after the end of its exchange.
module _ (q : Pairing) (h : AsksOnce q) where
  connect-AsksOnce : (remote : Text) → IsWaiting q.submitted q.sent → AsksOnce (connect q remote)
  unfolding connect
  connect-AsksOnce remote w =
      if_cases AsksOnce (is_settled q.outcome) _ _ (λ e. h)
        (λ open_still.
          if_cases AsksOnce (not (text_eq remote q.invitation.receiver_key)) _ _
            (λ e. record {
              requests = h.requests;
              settled =
                  waiting_settles q.invitation.secret q.submitted q.sent q.outcome w h.settled;
            })
            (λ e.
              asks (enrollment_request q.invitation.secret) refl (unsettled q.outcome open_still)))
    where
      unsettled : (o : Option Outcome) → is_settled o ≡ false → o ≡ none
      unsettled none e = refl
      unsettled (some o) e = absurd (cc)

      asks :
          (o : Option (List ℕ))
          → enrollment_request q.invitation.secret ≡ o
          → q.outcome ≡ none
          → AsksOnce (elim o as (λ x. Pairing) [
            | none ↦ q
            | some request ↦ record q {
              submitted = true;
              phase = sending;
              sent = q.sent ++ request ∷ [];
            }
          ])
      asks none e u = h
      asks (some request) e u =
          let one : q.sent ++ request ∷ [] ≡ request ∷ [] = ap (λ s. s ++ request ∷ []) w.1 in
          record {
            requests = (refl, (request, e, one));
            settled = subst (Settles q.invitation.secret true (q.sent ++ request ∷ [])) (sym u) tt;
          }

  settle :
      (new : Outcome)
      → IsSubmitted q.invitation.secret q.submitted q.sent
      → IsKnown new
      → Settles q.invitation.secret q.submitted q.sent (set_outcome q.outcome new)
  settle new s n =
      submitted_settles q.invitation.secret q.submitted q.sent q.outcome new s h.settled n

  -- By the phase, what each event does.
  dispatch-AsksOnce :
      (parse : List ℕ → Option Json) (p : Phase) (e : Event)
      → HasSent p q.invitation.secret q.submitted q.sent
      → AsksOnce (dispatch parse p e q)
  unfolding finish take_frame
  dispatch-AsksOnce parse p timeout s = finish-lost q h
  dispatch-AsksOnce parse p closed s = finish-lost q h
  dispatch-AsksOnce parse waiting (connected remote) s = connect-AsksOnce remote s
  dispatch-AsksOnce parse waiting broken s = finish-lost q h
  dispatch-AsksOnce parse waiting written s = h
  dispatch-AsksOnce parse waiting (frame bytes) s = h
  dispatch-AsksOnce parse waiting ended s = h
  dispatch-AsksOnce parse sending (connected remote) s = h
  dispatch-AsksOnce parse sending (frame bytes) s = h
  dispatch-AsksOnce parse sending ended s = h
  dispatch-AsksOnce parse sending written s = record { requests = s; settled = h.settled }
  dispatch-AsksOnce parse sending broken s = record {
    requests = s;
    settled = settle (failure unknown) s unknown-IsKnown;
  }
  dispatch-AsksOnce parse receiving (connected remote) s = h
  dispatch-AsksOnce parse receiving written s = h
  dispatch-AsksOnce parse receiving (frame bytes) s =
      if_cases AsksOnce (text_eq bytes hello) _ _ (λ e. h)
        (λ e. record {
          requests = h.requests;
          settled = settle _ s (json-IsKnown q.network q.invitation.receiver_key (parse bytes));
        })
  dispatch-AsksOnce parse receiving ended s = record {
    requests = s;
    settled = settle (failure unknown) s unknown-IsKnown;
  }
  dispatch-AsksOnce parse receiving broken s = record {
    requests = s;
    settled = settle (failure unknown) s unknown-IsKnown;
  }
  dispatch-AsksOnce parse over (connected remote) s = h
  dispatch-AsksOnce parse over written s = h
  dispatch-AsksOnce parse over (frame bytes) s = h
  dispatch-AsksOnce parse over ended s = h
  dispatch-AsksOnce parse over broken s = h

run_from-AsksOnce :
    (parse : List ℕ → Option Json) (q : Pairing) (es : List Event)
    → AsksOnce q
    → AsksOnce (run parse q es)
unfolding run
run_from-AsksOnce parse q [] h = h
run_from-AsksOnce parse q (e ∷ es) h =
    run_from-AsksOnce parse (step parse q e) es (dispatch-AsksOnce q h parse q.phase e h.requests)

left : {x y : Pairing} → ◌≡◌ {A = Pairing ⊎ PairFailure} (inl x) (inl y) → x ≡ y
left e = cc

-- A pairing that starts sends at most one request, whatever happens on its connection and in whatever
-- order: the one for the secret of its invitation. It is settled as `unavailable` only if it has sent
-- nothing, so that the invitation is unspent; and as `unknown`, `unusable`, rejected or paired only if it
-- has sent the request.
pub run-AsksOnce :
    (parse : List ℕ → Option Json) (o : Options) (q : Pairing) (es : List Event)
    → start o ≡ inl q
    → AsksOnce (run parse q es)
unfolding start
run-AsksOnce parse o q es e = run_from-AsksOnce parse q es (begun (parse_invitation o.invitation) e)
  where
    begun :
        (i : Option Invitation)
        → elim i as (λ x. Pairing ⊎ PairFailure) [
          | none ↦ inr unusable
          | some invitation ↦ inl (record {
            invitation = invitation;
            network = o.network;
            phase = waiting;
            submitted = false;
            sent = [];
            outcome = none;
          })
        ]
          ≡ inl q
        → AsksOnce q
    begun none e = absurd (cc)
    begun (some i) e = subst AsksOnce (left e) (record { requests = (refl, refl); settled = tt })
