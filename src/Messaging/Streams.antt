-- ===== src/Messaging/Streams.antt =====
-- Which streams a broadcast reaches, and when it reads an object that is gone.
use mathlib.Core.List.{append-nil, append_assoc}
use wizz_mania.Prelude.{
  ℕ, zero, suc, ==_iff, ◌≡◌, ◌≢◌, refl, ap, sym, ◌∙◌, inl, inr, Bool, true, false, List, [], ◌∷◌,
  ◌++◌, any, filter, Option, none, some, arith, if◌then◌else◌, Bool-cases, Option-cases, ◌==◌, All,
}
use wizz_mania.Prelude.Result.{ok, err}
use wizz_mania.Grpc.{dangling}
use wizz_mania.Messaging.Service.{
  Service, EncryptedMessage, ActiveStream, object, set_object, drop_object, purge, write_to,
  write_all, broadcast,
}
use wizz_mania.Messaging.Chat.{joins, ends, leaves, chat, chat_step}

-- A pointer among the others.
abbrev pub points : ℕ → List ℕ → Bool
points p = any (λ q. q == p)

-- One pointer to an object that is gone stops the purge.
purge-none :
    (p : ℕ) (os : List (ℕ × ActiveStream)) (ps : List ℕ)
    → object p os ≡ none
    → points p ps ≡ true
    → purge os ps ≡ none
unfolding purge
purge-none p os [] gone h = cc
purge-none p os (q ∷ ps) gone h = elim (Bool-cases (q == p)) [
  | inl same ↦ let here : object q os ≡ none = rw ((==_iff q p).0 same) gone in rw (here, purge)
  | inr other ↦ elim (Option-cases (object q os)) [
    | inl here ↦ rw (here, purge)
    | inr (o, live) ↦ rw (live, purge-none p os ps gone (ground (arith, h, other)), purge)
  ]
]

object-drop : (p : ℕ) (os : List (ℕ × ActiveStream)) → object p (drop_object p os) ≡ none
unfolding object drop_object
object-drop p [] = refl
object-drop p ((q, o) ∷ os) = ground (arith, object-drop p os)

points-append : (p : ℕ) (ps : List ℕ) → points p (ps ++ p ∷ []) ≡ true
points-append p [] = ground arith
points-append p (q ∷ ps) = ground (arith, points-append p ps)

broadcast-dangling :
    (s : Service) (p : ℕ) (msg : EncryptedMessage)
    → points p s.active_streams ≡ true
    → object p s.objects ≡ none
    → broadcast msg s ≡ (err dangling, s)
unfolding broadcast
broadcast-dangling s p msg listed gone =
    rw (purge-none p s.objects s.active_streams gone listed, broadcast)

-- Once a call of `ChatStream` has returned while its pointer was still listed, the next broadcast
-- reads the `ActiveStream` of that call, whose lifetime is over.
pub broadcast_after_leave :
    (s : Service) (p : ℕ) (msg : EncryptedMessage)
    → points p s.active_streams ≡ true
    → (broadcast msg (chat_step (leaves p) s).1).0 ≡ err dangling
unfolding chat_step
broadcast_after_leave s p msg listed =
    ap (λ r. r.0)
      (broadcast-dangling (chat_step (leaves p) s).1 p msg listed (object-drop p s.objects))

-- When a call of `ChatStream` has entered, ended and returned, with nothing in between, the next
-- broadcast reads the `ActiveStream` of that call, whose lifetime is over.
pub broadcast_after_call :
    (s : Service) (p : ℕ) (msg : EncryptedMessage)
    → (broadcast msg (chat (joins p ∷ ends p ∷ leaves p ∷ []) s).1).0 ≡ err dangling
unfolding chat chat_step
broadcast_after_call s p msg =
    ap (λ r. r.0)
      (broadcast-dangling (chat (joins p ∷ ends p ∷ leaves p ∷ []) s).1 p msg
        (points-append p s.active_streams) (object-drop p _))

-- How often a pointer is listed.
abbrev pub count : ℕ → List ℕ → ℕ
count p [] = 0
count p (q ∷ ps) = if q == p then suc (count p ps) else count p ps

abbrev pub copies : ℕ → EncryptedMessage → List EncryptedMessage
copies zero msg = []
copies (suc n) msg = msg ∷ copies n msg

-- What a stream has after n writes of a message.
abbrev pub written_to : ℕ → EncryptedMessage → Option ActiveStream → Option ActiveStream
written_to n msg none = none
written_to n msg (some o) =
    if o.alive then some (record o { written = o.written ++ copies n msg }) else some o

object-set :
    (p q : ℕ) (o : ActiveStream) (os : List (ℕ × ActiveStream))
    → object q os ≢ none
    → object p (set_object q o os) ≡ (if q == p then some o else object p os)
unfolding object set_object
object-set p q o [] h = absurd (h refl)
object-set p q o ((r, x) ∷ os) h = ground (arith, object-set p q o os, h)

object-write_to :
    (p q : ℕ) (msg : EncryptedMessage) (os : List (ℕ × ActiveStream))
    → object p (write_to msg q os)
      ≡ (if q == p then written_to 1 msg (object p os) else object p os)
unfolding write_to
object-write_to p q msg os = elim (Option-cases (object q os)) [
  | inl e ↦ rw (e, write_to) (missing (q == p) refl e)
  | inr (o, e) ↦ rw (e, write_to) (present o e (q == p) refl)
]
  where
    missing :
        (b : Bool)
        → (q == p) ≡ b
        → object q os ≡ none
        → object p os ≡ (if b then written_to 1 msg (object p os) else object p os)
    missing true h e = let here : object p os ≡ none = rw (← (==_iff q p).0 h) e in rw here
    missing false h e = refl

    present :
        (o : ActiveStream)
        → object q os ≡ some o
        → (b : Bool) → (q == p) ≡ b
        → object p
            (if o.alive then set_object q (record o { written = o.written ++ msg ∷ [] }) os else os)
          ≡ (if b then written_to 1 msg (object p os) else object p os)
    present o e true h =
        let here : object p os ≡ some o = rw (← (==_iff q p).0 h) e in
        rw here (
          ground
            (arith, here, object-set p q (record o { written = o.written ++ msg ∷ [] }) os, h, e))
    present o e false h =
        ground (arith, object-set p q (record o { written = o.written ++ msg ∷ [] }) os, h, e)

written_to_twice :
    (n : ℕ) (msg : EncryptedMessage) (o : Option ActiveStream)
    → written_to n msg (written_to 1 msg o) ≡ written_to (suc n) msg o
written_to_twice n msg none = refl
written_to_twice n msg (some o) = ground (arith, append_assoc o.written (msg ∷ []) (copies n msg))

written_to_zero : (msg : EncryptedMessage) (o : Option ActiveStream) → written_to 0 msg o ≡ o
written_to_zero msg none = refl
written_to_zero msg (some o) = ground (arith, append-nil o.written)

object-write_all :
    (p : ℕ) (msg : EncryptedMessage) (ps : List ℕ) (os : List (ℕ × ActiveStream))
    → object p (write_all msg ps os) ≡ written_to (count p ps) msg (object p os)
unfolding write_all
object-write_all p msg [] os = sym (written_to_zero msg (object p os))
object-write_all p msg (q ∷ ps) os = ground (
  arith,
  object-write_all p msg ps (write_to msg q os),
  object-write_to p q msg os,
  written_to_twice (count p ps) msg (object p os),
)

-- The pointer is to an object that is there and alive.
abbrev pub is_alive : List (ℕ × ActiveStream) → ℕ → Bool
is_alive os p = elim (object p os) [ none ↦ false | some o ↦ o.alive ]

abbrev pub IsThere : List (ℕ × ActiveStream) → ℕ → Type 0
IsThere os p = object p os ≢ none

purge-IsThere :
    (os : List (ℕ × ActiveStream)) (ps : List ℕ)
    → All (IsThere os) ps
    → purge os ps ≡ some (filter (is_alive os) ps)
unfolding purge
purge-IsThere os [] h = refl
purge-IsThere os (p ∷ ps) h = elim (Option-cases (object p os)) [
  | inl gone ↦ absurd (h.0 gone)
  | inr (o, live) ↦ rw (live, purge-IsThere os ps h.1, purge) (ground arith)
]

count-alive :
    (os : List (ℕ × ActiveStream)) (p : ℕ) (ps : List ℕ)
    → is_alive os p ≡ true
    → count p (filter (is_alive os) ps) ≡ count p ps
count-alive os p [] h = refl
count-alive os p (q ∷ ps) h = elim (Bool-cases (q == p)) [
  | inl same ↦
      let live : is_alive os q ≡ true = rw ((==_iff q p).0 same) h in
      rw live (ground (arith, count-alive os p ps h, same))
  | inr other ↦ ground (arith, count-alive os p ps h, other)
]

written_to-alive :
    (os : List (ℕ × ActiveStream)) (p : ℕ) (ps : List ℕ) (msg : EncryptedMessage)
    → written_to (count p (filter (is_alive os) ps)) msg (object p os)
      ≡ written_to (count p ps) msg (object p os)
written_to-alive os p ps msg = elim (Option-cases (object p os)) [
  | inl gone ↦ rw gone
  | inr (o, there) ↦ elim (Bool-cases o.alive) [
    | inl live ↦ rw (count-alive os p ps (rw (there, is_alive) live))
    | inr dead ↦ rw (there, dead)
  ]
]

-- Where every listed object is there, a broadcast ends well: each stream that is alive is given the
-- message once for each time that it is listed, the others are left as they are, the dead ones
-- are taken off the list, and the database is not touched.
pub broadcast_reaches :
    (s : Service) (msg : EncryptedMessage) (p : ℕ)
    → All (IsThere s.objects) s.active_streams
    → ((broadcast msg s).0 ≡ ok tt)
      × (object p (broadcast msg s).1.objects
          ≡ written_to (count p s.active_streams) msg (object p s.objects))
      × ((broadcast msg s).1.active_streams ≡ filter (is_alive s.objects) s.active_streams)
      × ((broadcast msg s).1.db ≡ s.db)
unfolding broadcast
broadcast_reaches s msg p h =
    rw (purge-IsThere s.objects s.active_streams h, broadcast)
      (
        refl,
        object-write_all p msg (filter (is_alive s.objects) s.active_streams) s.objects
            ∙ written_to-alive s.objects p s.active_streams msg,
        refl,
        refl,
      )
