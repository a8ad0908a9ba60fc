-- ===== src/Channel/Requests.antt =====
-- `Duplex::request` of src/asynchronous.rs.
use mathlib.Core.Path.{subst}
use crossmist.Common.{ℕ, ◌<◌, ◌≡◌, ◌⊎◌, inl, inr, refl, sym, ap, Bool, List, [], ◌++◌}
use crossmist.Serde.{Object}
use crossmist.Serde.Format.{Format}
use crossmist.Serde.Law.{Law}
use crossmist.Unix.Socket.{Error, unexpected_eof, Packet, SendSocket, RecvSocket, RecvFails}
use crossmist.Unix.Wire.{Splits}
use crossmist.Channel.{
  Io, io_ok, io_err, io_panic, io_undefined, gave_up, send, recv, response, after_send, request,
}
use crossmist.Channel.Receiving.{OnUnix}
use crossmist.Channel.Patience.{SendPatience, RecvPatience}
use crossmist.Channel.Patience.Sending.{send-ends}
use crossmist.Channel.Outcomes.{recv_object, recv_at_end}

module _ {S R : Type 0} (o₁ : Object S) (o₂ : Object R) (out : SendSocket) (back : RecvSocket) where
  -- The answer, once the question is out.
  after_send_answered :
      (attempts : ℕ) (is_blocking : Bool) (sending : Io (Unit {0}) × out.Net) (net' : back.Net)
      → sending.0 ≡ io_ok tt
      → (after_send o₁ o₂ out back attempts is_blocking sending net').0
        ≡ response (recv o₂ back attempts is_blocking net').0
  unfolding after_send
  after_send_answered attempts is_blocking (io_ok u, net) net' h = refl
  after_send_answered attempts is_blocking (io_err e, net) net' h = cc
  after_send_answered attempts is_blocking (io_panic, net) net' h = cc
  after_send_answered attempts is_blocking (io_undefined, net) net' h = cc
  after_send_answered attempts is_blocking (gave_up, net) net' h = cc

  after_send_failed :
      (attempts : ℕ) (is_blocking : Bool) (sending : Io (Unit {0}) × out.Net) (net' : back.Net)
      (e : Error)
      → sending.0 ≡ io_err e
      → after_send o₁ o₂ out back attempts is_blocking sending net' ≡ (io_err e, sending.1, net')
  unfolding after_send
  after_send_failed attempts is_blocking (io_ok u, net) net' e h = cc
  after_send_failed attempts is_blocking (io_err x, net) net' e h = cc
  after_send_failed attempts is_blocking (io_panic, net) net' e h = cc
  after_send_failed attempts is_blocking (io_undefined, net) net' e h = cc
  after_send_failed attempts is_blocking (gave_up, net) net' e h = cc

module _ {S R : Type 0} {o₁ o₁' : Object S} {f : Format S} {o₂ o₂' : Object R} {g : Format R}
    (law : Law o₁ o₁' f) (law' : Law o₂ o₂' g) (out : SendSocket) (back : RecvSocket)
    (patient : SendPatience out) (patient' : RecvPatience back) where
  -- What a request comes to, by what reading the answer comes to.
  by_answer :
      (P : Io R → Type 0) (attempts : ℕ) (is_blocking : Bool) (question : S) (net : out.Net)
      (net' : back.Net)
      → patient.patience net < attempts
      → ((e : Error) → (send out o₁ attempts is_blocking question net).0 ≡ io_err e → P (io_err e))
      → P (response (recv o₂' back attempts is_blocking net').0)
      → P (request o₁ o₂' out back attempts is_blocking question net net').0
  unfolding request
  by_answer P attempts is_blocking question net net' h error answer =
      let sending = send out o₁ attempts is_blocking question net in
      elim (send-ends out patient law attempts is_blocking question net h) [
        | inl (ps, sent_ok, put, splits) ↦
            subst P
              (sym (after_send_answered o₁ o₂' out back attempts is_blocking sending net' sent_ok))
              answer
        | inr (e, failed) ↦
            subst P
              (sym (
                ap (λ (p : Io R × out.Net × back.Net). p.0)
                  (after_send_failed o₁ o₂' out back attempts is_blocking sending net' e failed)))
              (error e failed)
      ]

  -- `send` has failed on the question, or the kernel has answered a call for the answer, with this error.
  abbrev pub IsRefused : ℕ → Bool → S → out.Net → back.Net → Error → Type 0
  IsRefused attempts is_blocking question net net' e =
      ((send out o₁ attempts is_blocking question net).0 ≡ io_err e)
      ⊎ RecvFails back net' e (recv o₂' back attempts is_blocking net').1

  -- If the answer to a request comes next on the socket, a valid value that uses nothing but bytes
  -- and descriptors, and there are more attempts than the kernel refuses calls, then the request
  -- returns this answer as it arrives; or `send` has failed on the question, and the request fails
  -- with the error of `send`; or the request fails with an error with which the kernel has answered
  -- a call of `recvmsg`.
  pub request_answered :
      (attempts : ℕ) (is_blocking : Bool) (question : S) (answer : R)
      → g.Valid answer
      → OnUnix g answer
      → (net : out.Net) (net' : back.Net) (ps later : List Packet) → patient.patience net < attempts
      → patient'.patience net' < attempts
      → Splits (g.encode answer).bytes (g.encode answer).fds ps
      → back.incoming net' ≡ ps ++ later
      → ((request o₁ o₂' out back attempts is_blocking question net net').0
          ≡ io_ok (g.carry answer))
        ⊎ ((e : Error) × ((request o₁ o₂' out back attempts is_blocking question net net').0
              ≡ io_err e)
            × IsRefused attempts is_blocking question net net' e)
  unfolding response
  request_answered attempts is_blocking question answer valid on_unix net net' ps later h h' splits
        inc =
      by_answer
        (λ io.
          (io ≡ io_ok (g.carry answer))
          ⊎ ((e : Error) × (io ≡ io_err e) × IsRefused attempts is_blocking question net net' e))
        attempts is_blocking question net net' h (λ e failed. inr (e, refl, inl failed))
        (elim (recv_object law' back patient' attempts is_blocking answer valid on_unix net' ps
          later h' splits inc) [
            | inl (same, rest) ↦ inl (rw same refl)
            | inr (e, failed, fails) ↦ inr (e, rw failed refl, inr fails)
          ])

  -- If the peer closes its end without an answer, and there are more attempts than the kernel refuses
  -- calls, then the request returns an error.
  pub request_unanswered :
      (attempts : ℕ) (is_blocking : Bool) (question : S) (net : out.Net) (net' : back.Net)
      → patient.patience net < attempts
      → patient'.patience net' < attempts
      → back.incoming net' ≡ []
      → (e : Error) × ((request o₁ o₂' out back attempts is_blocking question net net').0
          ≡ io_err e)
  unfolding response
  request_unanswered attempts is_blocking question net net' h h' end =
      by_answer (λ io. (e : Error) × (io ≡ io_err e)) attempts is_blocking question net net' h
        (λ e failed. (e, refl))
        (elim (recv_at_end o₂' back patient' attempts is_blocking net' h' end) [
          | inl nothing ↦ (unexpected_eof, rw nothing refl)
          | inr (e, failed, fails) ↦ (e, rw failed refl)
        ])
