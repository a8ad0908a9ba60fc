-- ===== src/Tests/Queue.antt =====
-- A socket that keeps its packets in a list and would block a number of times before that.
use crossmist.Common.{
  ℕ, zero, suc, ◌≤◌, ◌<◌, arith, ap, append-nil, ◌≡◌, ◌⊎◌, inl, inr, refl, Bool, List, [], ◌∷◌,
  ◌++◌, length, take, map,
}
use crossmist.Channel.Patience.{SendPatience, RecvPatience}
use crossmist.Builtins.Sum.{Result, ok_value, err_value}
use crossmist.Unix.Socket.{
  Error, would_block, Packet, scm_rights, Message, concat, SendSocket, RecvSocket,
}

-- How often the socket would block, and its packets.
abbrev pub Queue : Type 0
Queue = ℕ × List Packet

abbrev pub queue_sendmsg : List ℕ → List ℕ → Bool → Queue → Result ℕ Error × Queue
queue_sendmsg content rights dontwait (zero, ps) =
    (ok_value (length content), (zero, ps ++ record { content = content; rights = rights } ∷ []))
queue_sendmsg content rights dontwait (suc n, ps) = (err_value would_block, (n, ps))

abbrev pub queue_sendmsg_lem :
    (content rights : List ℕ) (dontwait : Bool) (net : Queue)
    → ((net' : Queue) × (queue_sendmsg content rights dontwait net
          ≡ (ok_value (length content), net'))
        × (net'.1 ≡ net.1 ++ record { content = content; rights = rights } ∷ []))
      ⊎ ((e : Error) × (net' : Queue) × (queue_sendmsg content rights dontwait net
            ≡ (err_value e, net'))
          × (net'.1 ≡ net.1))
queue_sendmsg_lem content rights dontwait (zero, ps) =
    inl ((zero, ps ++ record { content = content; rights = rights } ∷ []), refl, refl)
queue_sendmsg_lem content rights dontwait (suc n, ps) = inr (would_block, (n, ps), refl, refl)

abbrev pub send_queue : SendSocket
send_queue = record {
  Net = Queue;
  sendmsg = queue_sendmsg;
  sent = λ net. net.1;
  sendmsg_lem = queue_sendmsg_lem;
}

abbrev pub queue_recvmsg : ℕ → Bool → Queue → Result Message Error × Queue
queue_recvmsg capacity dontwait (zero, []) =
    (ok_value (record { content = []; cmsgs = [] }), (zero, []))
queue_recvmsg capacity dontwait (zero, p ∷ ps) = (
  ok_value (record { content = take capacity p.content; cmsgs = scm_rights p.rights ∷ [] }),
  (zero, ps),
)
queue_recvmsg capacity dontwait (suc n, ps) = (err_value would_block, (n, ps))

abbrev pub queue_recvmsg_lem :
    (capacity : ℕ) (dontwait : Bool) (net : Queue)
    → ((p : Packet) × (ps : List Packet) × (parts : List (List ℕ)) × (net' : Queue) × (net.1
          ≡ p ∷ ps)
        × (concat parts ≡ p.rights)
        × (queue_recvmsg capacity dontwait net ≡ (
          ok_value (record { content = take capacity p.content; cmsgs = map scm_rights parts }),
          net',
        ))
        × (net'.1 ≡ ps))
      ⊎ ((net' : Queue) × (net.1 ≡ [])
          × (queue_recvmsg capacity dontwait net
              ≡ (ok_value (record { content = []; cmsgs = [] }), net'))
          × (net'.1 ≡ []))
      ⊎ ((e : Error) × (net' : Queue) × (queue_recvmsg capacity dontwait net ≡ (err_value e, net'))
          × (net'.1 ≡ net.1))
queue_recvmsg_lem capacity dontwait (zero, []) = inr (inl ((zero, []), refl, refl, refl))
queue_recvmsg_lem capacity dontwait (zero, p ∷ ps) =
    inl (p, ps, p.rights ∷ [], (zero, ps), refl, append-nil p.rights, refl, refl)
queue_recvmsg_lem capacity dontwait (suc n, ps) = inr (inr (would_block, (n, ps), refl, refl))

abbrev pub recv_queue : RecvSocket
recv_queue = record {
  Net = Queue;
  recvmsg = queue_recvmsg;
  incoming = λ net. net.1;
  recvmsg_lem = queue_recvmsg_lem;
}

pub queue_refuses :
    (capacity : ℕ) (dontwait : Bool) (net net' : Queue)
    → queue_recvmsg capacity dontwait net ≡ (err_value would_block, net')
    → net'.0 < net.0
queue_refuses capacity dontwait (zero, []) (n, ps) e =
    let e₀ = ap (λ (p : Result Message Error × Queue). p.0) e in cc
queue_refuses capacity dontwait (zero, p ∷ qs) (n, ps) e =
    let e₀ = ap (λ (p : Result Message Error × Queue). p.0) e in cc
queue_refuses capacity dontwait (suc m, qs) (n, ps) e =
    omega (arith, ap (λ (p : Result Message Error × Queue). p.1.0) e)

pub queue_keeps :
    (capacity : ℕ) (dontwait : Bool) (net net' : Queue) (answer : Result Message Error)
    → queue_recvmsg capacity dontwait net ≡ (answer, net')
    → net'.0 ≤ net.0
queue_keeps capacity dontwait (zero, []) (n, ps) answer e =
    omega (arith, ap (λ (p : Result Message Error × Queue). p.1.0) e)
queue_keeps capacity dontwait (zero, p ∷ qs) (n, ps) answer e =
    omega (arith, ap (λ (p : Result Message Error × Queue). p.1.0) e)
queue_keeps capacity dontwait (suc m, qs) (n, ps) answer e =
    omega (arith, ap (λ (p : Result Message Error × Queue). p.1.0) e)

abbrev pub recv_queue_patience : RecvPatience recv_queue
recv_queue_patience = record {
  patience = λ net. net.0;
  refuses = queue_refuses;
  keeps = queue_keeps;
}

pub out_refuses :
    (content rights : List ℕ) (dontwait : Bool) (net net' : Queue)
    → queue_sendmsg content rights dontwait net ≡ (err_value would_block, net')
    → net'.0 < net.0
out_refuses content rights dontwait (zero, qs) (n, ps) e =
    let e₀ = ap (λ (p : Result ℕ Error × Queue). p.0) e in cc
out_refuses content rights dontwait (suc m, qs) (n, ps) e =
    omega (arith, ap (λ (p : Result ℕ Error × Queue). p.1.0) e)

pub out_keeps :
    (content rights : List ℕ) (dontwait : Bool) (net net' : Queue) (answer : Result ℕ Error)
    → queue_sendmsg content rights dontwait net ≡ (answer, net')
    → net'.0 ≤ net.0
out_keeps content rights dontwait (zero, qs) (n, ps) answer e =
    omega (arith, ap (λ (p : Result ℕ Error × Queue). p.1.0) e)
out_keeps content rights dontwait (suc m, qs) (n, ps) answer e =
    omega (arith, ap (λ (p : Result ℕ Error × Queue). p.1.0) e)

abbrev pub send_queue_patience : SendPatience send_queue
send_queue_patience = record { patience = λ net. net.0; refuses = out_refuses; keeps = out_keeps }
