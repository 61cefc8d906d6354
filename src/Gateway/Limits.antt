-- ===== src/Gateway/Limits.antt =====
-- The parameter `limit` of GET /conversations/:id/messages, gateway_service/src/main.cpp.
use wizz_mania.Prelude.{
  ℕ, ◌≤◌, ◌≡◌, refl, Bool, true, false, List, ◌∷◌, take, Option, none, some, if◌then◌else◌, arith,
  ltb, zero, suc,
}
use wizz_mania.Prelude.Text.{Str}
use wizz_mania.Prelude.Int.{ℤ, pos, negsuc, int_half}
use wizz_mania.Number.{stoi}
use wizz_mania.Messaging.Tables.{limited}
use wizz_mania.Messaging.Service.{EncryptedMessage}
use wizz_mania.Gateway.Http.{HttpRequest}
use wizz_mania.Gateway.Conversations.{message_limit, clamped}

-- A limit from 1 to 500.
abbrev pub InLimits : ℤ → Type 0
InLimits (pos n) = (1 ≤ n) × (n ≤ 500)
InLimits (negsuc n) = ⊥

clamped-InLimits : (v : ℤ) → InLimits (clamped v)
clamped-InLimits (negsuc n) = ground arith
clamped-InLimits (pos n) = above n (ltb 500 n) refl
  where
    below :
        (n : ℕ) (b : Bool) → ltb 500 n ≡ false → ltb n 1 ≡ b → InLimits (if b then pos 1 else pos n)
    below n true h e = ground arith
    below n false h e = ground arith

    above :
        (n : ℕ) (b : Bool)
        → ltb 500 n ≡ b
        → InLimits (if b then pos 500 else if ltb n 1 then pos 1 else pos n)
    above n true h = ground arith
    above n false h = below n (ltb n 1) h refl

-- Whatever a client passes for `limit`, the messaging service is asked for 1 to 500 messages.
pub message_limit-InLimits : (req : HttpRequest) → InLimits (message_limit req)
unfolding message_limit
message_limit-InLimits req = given req.limit
  where
    parsed :
        (r : Option (ℤ × Str)) → InLimits (elim r [ none ↦ pos 50 | some (v, rest) ↦ clamped v ])
    parsed none = ground arith
    parsed (some (v, rest)) = clamped-InLimits v

    given :
        (o : Option Str)
        → InLimits (elim o [
          | none ↦ pos 50
          | some text ↦ elim (stoi int_half text) [ none ↦ pos 50 | some (v, rest) ↦ clamped v ]
        ])
    given none = ground arith
    given (some text) = parsed (stoi int_half text)

-- The limit keeps the first message.
pub limited-cons :
    (limit : ℤ) (m : EncryptedMessage) (ms : List EncryptedMessage)
    → InLimits limit
    → (rest : List EncryptedMessage) × (limited limit (m ∷ ms) ≡ m ∷ rest)
limited-cons (negsuc n) m ms h = (ms, refl)
limited-cons (pos zero) m ms h = (ms, refl)
limited-cons (pos (suc n)) m ms h = (take n ms, ground arith)
