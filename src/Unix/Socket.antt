-- ===== src/Unix/Socket.antt =====
-- What src/platform/unix/internals.rs relies on of the kernel: a SOCK_SEQPACKET socket keeps the
-- boundaries and the order of packets, sends a packet whole or not at all, and carries descriptors
-- beside it. The two calls are parameters; their documented behaviour is stated as laws.
use crossmist.Common.{ℕ, ◌≡◌, ◌⊎◌, Bool, List, [], ◌∷◌, ◌++◌, map, length, take}
use crossmist.Builtins.Sum.{Result, ok_value, err_value}

-- The errors that the channel code passes on or makes.
pub data Error : Type 0 where
  would_block : Error
  os_error : ℕ → Error
  unexpected_cmsg unterminated_data unexpected_eof not_returned exit_failure already_joined : Error
  invalid_filename connection_reset : Error

-- A packet: its marker byte with the payload, and the descriptors beside it.
pub record Packet : Type 0 where
  pub content : List ℕ
  pub rights : List ℕ

pub data Cmsg : Type 0 where
  scm_rights : List ℕ → Cmsg
  other_cmsg : Cmsg

-- What `recvmsg` fills in.
pub record Message : Type 0 where
  pub content : List ℕ
  pub cmsgs : List Cmsg

abbrev pub concat {ℓ} : {A : Type ℓ} → List (List A) → List A
concat [] = []
concat (xs ∷ xss) = xs ++ concat xss

-- The sending end. `sent` is all that was put on the socket so far.
pub record SendSocket : Type 1 where
  pub Net : Type 0
  -- `sendmsg(fd, [marker, payload], cmsg, flags)`, with the bytes of the two slices together; the
  -- flag is DONTWAIT.
  pub sendmsg : List ℕ → List ℕ → Bool → Net → Result ℕ Error × Net
  pub sent : Net → List Packet
  pub sendmsg_lem :
      (content rights : List ℕ) (dontwait : Bool) (net : Net)
      → ((net' : Net) × (sendmsg content rights dontwait net ≡ (ok_value (length content), net'))
          × (sent net' ≡ sent net ++ record { content = content; rights = rights } ∷ []))
        ⊎ ((e : Error) × (net' : Net) × (sendmsg content rights dontwait net ≡ (err_value e, net'))
            × (sent net' ≡ sent net))

-- The receiving end. `incoming` is what the peer has sent or will send and was not received yet; it
-- is empty once the peer has closed its end and all is received.
pub record RecvSocket : Type 1 where
  pub Net : Type 0
  -- `recvmsg` into `capacity` bytes; the rest of a longer packet is lost.
  pub recvmsg : ℕ → Bool → Net → Result Message Error × Net
  pub incoming : Net → List Packet
  pub recvmsg_lem :
      (capacity : ℕ) (dontwait : Bool) (net : Net)
      → ((p : Packet) × (ps : List Packet) × (parts : List (List ℕ)) × (net' : Net) × (incoming net
            ≡ p ∷ ps)
          × (concat parts ≡ p.rights)
          × (recvmsg capacity dontwait net ≡ (
            ok_value (record { content = take capacity p.content; cmsgs = map scm_rights parts }),
            net',
          ))
          × (incoming net' ≡ ps))
        ⊎ ((net' : Net) × (incoming net ≡ [])
            × (recvmsg capacity dontwait net
                ≡ (ok_value (record { content = []; cmsgs = [] }), net'))
            × (incoming net' ≡ []))
        ⊎ ((e : Error) × (net' : Net) × (recvmsg capacity dontwait net ≡ (err_value e, net'))
            × (incoming net' ≡ incoming net))

module _ (socket : RecvSocket) where
  open socket use {Net, recvmsg}

  -- Where calls of `recvmsg` lead, one after the other.
  pub data Comes : Net → Net → Type 0 where
    at_start : {net : Net} → Comes net net
    one_call :
        {net net₁ net₂ : Net} {answer : Result Message Error} (capacity : ℕ) (dontwait : Bool)
        → recvmsg capacity dontwait net ≡ (answer, net₁)
        → Comes net₁ net₂
        → Comes net net₂

  -- After some calls the kernel has answered one with this error.
  pub record RecvFails (net : Net) (e : Error) (net' : Net) : Type 0 where
    pub before : Net
    pub capacity : ℕ
    pub dontwait : Bool
    pub comes : Comes net before
    pub fails : recvmsg capacity dontwait before ≡ (err_value e, net')

  pub fails_at_once :
      {net net' : Net} {e : Error} (capacity : ℕ) (dontwait : Bool)
      → recvmsg capacity dontwait net ≡ (err_value e, net')
      → RecvFails net e net'
  fails_at_once {net} capacity dontwait e = record {
    before = net;
    capacity = capacity;
    dontwait = dontwait;
    comes = at_start;
    fails = e;
  }

  pub fails_later :
      {net net₁ net' : Net} {e : Error} {answer : Result Message Error} (capacity : ℕ)
      (dontwait : Bool)
      → recvmsg capacity dontwait net ≡ (answer, net₁)
      → RecvFails net₁ e net'
      → RecvFails net e net'
  fails_later capacity dontwait e f = record {
    before = f.before;
    capacity = f.capacity;
    dontwait = f.dontwait;
    comes = one_call capacity dontwait e f.comes;
    fails = f.fails;
  }

  Comes-trans : {a b c : Net} → Comes a b → Comes b c → Comes a c
  Comes-trans at_start l = l
  Comes-trans (one_call capacity dontwait e k) l = one_call capacity dontwait e (Comes-trans k l)

  -- A call that is made again after it has failed.
  pub fails_again :
      {net net₁ net' : Net} {x e : Error}
      → RecvFails net x net₁
      → RecvFails net₁ e net'
      → RecvFails net e net'
  fails_again g f = record {
    before = f.before;
    capacity = f.capacity;
    dontwait = f.dontwait;
    comes = Comes-trans g.comes (one_call g.capacity g.dontwait g.fails f.comes);
    fails = f.fails;
  }
