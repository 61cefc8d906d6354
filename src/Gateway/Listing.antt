-- ===== src/Gateway/Listing.antt =====
-- The last messages that GET /conversations of gateway_service/src/main.cpp tells.
use wizz_mania.Prelude.{
  ◌≡◌, refl, ap, ◌∙◌, sym, Bool, true, false, List, [], ◌∷◌, Option, none, some, if◌then◌else◌,
  arith, Bool-cases, inl, inr,
}
use wizz_mania.Prelude.Text.{Str, empty, str_eq, str_eq_iff}
use wizz_mania.Prelude.Maps.{Map, lookup, emplace}
use wizz_mania.Messaging.Service.{EncryptedMessage}
use wizz_mania.Gateway.Conversations.{last_by_conversation}

-- The first message of a conversation in a list.
pub first_of : Str → List EncryptedMessage → Option EncryptedMessage
first_of key [] = none
first_of key (m ∷ ms) = if str_eq m.conversation_id key then some m else first_of key ms

abbrev either {ℓ} : {A : Type ℓ} → Option A → Option A → Option A
either (some a) o = some a
either none o = o

either-none {ℓ} : {A : Type ℓ} (o : Option A) → either o none ≡ o
either-none (some a) = refl
either-none none = refl

either_if {ℓ} :
    {A : Type ℓ} (o : Option A) (b : Bool) (a : A) (r : Option A)
    → either (either o (if b then some a else none)) r ≡ either o (if b then some a else r)
either_if (some x) b a r = refl
either_if none true a r = refl
either_if none false a r = refl

empty-differs : (s t : Str) → empty s ≡ true → empty t ≡ false → str_eq s t ≡ false
unfolding str_eq
empty-differs [] [] h g = cc g
empty-differs [] (d ∷ t) h g = refl
empty-differs (c ∷ s) t h g = cc h

lookup-emplace {ℓ} :
    {A : Type ℓ} (j k : Str) (v : A) (m : Map A)
    → lookup k (emplace j v m) ≡ either (lookup k m) (if str_eq j k then some v else none)
unfolding lookup emplace
lookup-emplace j k v [] = refl
lookup-emplace j k v ((i, w) ∷ m) = ground (
  arith,
  lookup-emplace j k v m,
  str_eq_iff i j,
  str_eq_iff i k,
  str_eq_iff j k,
  either-none (lookup k m),
)

last_by_conversation-either :
    (key : Str) (found : Map EncryptedMessage) (ms : List EncryptedMessage)
    → empty key ≡ false
    → lookup key (last_by_conversation found ms) ≡ either (lookup key found) (first_of key ms)
unfolding last_by_conversation first_of
last_by_conversation-either key found [] named = sym (either-none (lookup key found))
last_by_conversation-either key found (m ∷ ms) named = elim (Bool-cases (empty m.conversation_id)) [
  | inl nameless ↦
      rw (nameless, empty-differs m.conversation_id key nameless named)
        (last_by_conversation-either key found ms named)
  | inr has_name ↦ rw has_name (
      last_by_conversation-either key (emplace m.conversation_id m found) ms named
      ∙ ap (λ o. either o (first_of key ms)) (lookup-emplace m.conversation_id key m found)
      ∙ either_if (lookup key found) (str_eq m.conversation_id key) m (first_of key ms))
]

-- The map that the loop of GET /conversations builds holds, for each conversation with a name, the
-- first message of it in the history, as that comes from the messaging service.
pub last_by_conversation-first :
    (key : Str) (ms : List EncryptedMessage)
    → empty key ≡ false
    → lookup key (last_by_conversation [] ms) ≡ first_of key ms
unfolding lookup
last_by_conversation-first key ms named = last_by_conversation-either key [] ms named
