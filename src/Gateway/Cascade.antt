-- ===== src/Gateway/Cascade.antt =====
-- What the foreign keys of init/schema.sql do to the messaging service's tables, where the accounts
-- change under a call of gateway_service/src/main.cpp.
use wizz_mania.Prelude.{
  ◌≡◌, refl, ap, ◌∙◌, sym, subst, Bool, true, false, ◌&&◌, ◌||◌, not, List, [], ◌∷◌, ◌++◌, map,
  filter, Option, none, some, if◌then◌else◌,
}
use wizz_mania.Prelude.Int.{ℤ, int_eq, int_eq_iff}
use wizz_mania.Auth.Tables as AuthTables
use wizz_mania.Messaging.Tables.{Tables, Message, Participant, has_user}
use wizz_mania.Gateway.Users.{
  ids_of, missing_from, sender_left, set_null, change_users, follow_users,
}

int_eq_refl : (a : ℤ) → int_eq a a ≡ true
int_eq_refl a = (int_eq_iff a a).1 refl

pub has_user-append :
    (id : ℤ) (xs ys : List ℤ) → has_user id (xs ++ ys) ≡ (has_user id xs || has_user id ys)
has_user-append id [] ys = refl
has_user-append id (x ∷ xs) ys = by_first (int_eq x id) (has_user-append id xs ys)
  where
    by_first :
        (b : Bool)
        → has_user id (xs ++ ys) ≡ (has_user id xs || has_user id ys)
        → (if b then true else has_user id (xs ++ ys))
          ≡ ((if b then true else has_user id xs) || has_user id ys)
    by_first true h = refl
    by_first false h = h

-- The first element of a list of which those are kept that pass a test.
has_user-first :
    (id x : ℤ) (rest : List ℤ) (b e h d : Bool)
    → int_eq x id ≡ e
    → (e ≡ true → b ≡ d)
    → has_user id rest ≡ (h && not d)
    → has_user id (if not b then x ∷ rest else rest) ≡ ((if e then true else h) && not d)
has_user-first id x rest true true h d same known tail =
    tail ∙ ap (λ b. h && not b) (sym (known refl)) ∙ never h ∙ ap not (known refl)
  where
    never : (h : Bool) → (h && false) ≡ false
    never true = refl
    never false = refl
has_user-first id x rest true false h d same known tail = tail
has_user-first id x rest false true h d same known tail = rw same (ap not (known refl))
has_user-first id x rest false false h d same known tail = rw same tail

pub has_user-missing_from :
    (id : ℤ) (xs ys : List ℤ)
    → has_user id (missing_from xs ys) ≡ (has_user id xs && not (has_user id ys))
unfolding missing_from
has_user-missing_from id [] ys = refl
has_user-missing_from id (x ∷ xs) ys =
    has_user-first id x (missing_from xs ys) (has_user x ys) (int_eq x id) (has_user id xs)
      (has_user id ys) refl (λ e. ap (λ u. has_user u ys) (same_id e))
      (has_user-missing_from id xs ys)
  where
    same_id : int_eq x id ≡ true → x ≡ id
    same_id e = (int_eq_iff x id).0 e

no_user : (xs : List ℤ) → ((id : ℤ) → has_user id xs ≡ false) → xs ≡ []
no_user [] h = refl
no_user (x ∷ xs) h = cc (h x, int_eq_refl x)

missing_from-same : (xs : List ℤ) → missing_from xs xs ≡ []
missing_from-same xs =
    no_user (missing_from xs xs) (λ id. has_user-missing_from id xs xs ∙ both (has_user id xs))
  where
    both : (b : Bool) → (b && not b) ≡ false
    both true = refl
    both false = refl

sender_left-nobody : (o : Option ℤ) → sender_left [] o ≡ o
unfolding sender_left
sender_left-nobody none = refl
sender_left-nobody (some id) = refl

set_null-nobody : (m : Message) → set_null [] m ≡ m
unfolding set_null
set_null-nobody m = ap (λ o. record m { sender = o }) (sender_left-nobody m.sender)

-- Nobody is deleted, and nobody inserted.
change_users-nobody : (t : Tables) → change_users [] [] t ≡ t
unfolding change_users
change_users-nobody t =
    ap
      (λ us. record t {
        users = us;
        participants = filter (λ p. not (has_user p.user [])) t.participants;
        messages = map (set_null []) t.messages;
      })
      (users t.users)
    ∙ ap (λ ps. record t { participants = ps; messages = map (set_null []) t.messages })
        (participants t.participants)
    ∙ ap (λ ms. record t { messages = ms }) (messages t.messages)
  where
    users : (xs : List ℤ) → filter (λ id. not (has_user id [])) xs ++ [] ≡ xs
    users [] = refl
    users (x ∷ xs) = ap (λ l. x ∷ l) (users xs)

    participants : (ps : List Participant) → filter (λ p. not (has_user p.user [])) ps ≡ ps
    participants [] = refl
    participants (p ∷ ps) = ap (λ l. p ∷ l) (participants ps)

    messages : (ms : List Message) → map (set_null []) ms ≡ ms
    messages [] = refl
    messages (m ∷ ms) =
        ap (λ x. x ∷ map (set_null []) ms) (set_null-nobody m) ∙ ap (λ l. m ∷ l) (messages ms)

-- Where no account changes, nothing changes.
pub follow_users-same :
    (old new : AuthTables.Tables) (t : Tables) → new ≡ old → follow_users old new t ≡ t
unfolding follow_users
follow_users-same old new t same =
    subst (λ (u : AuthTables.Tables). follow_users old u t ≡ t) (sym same)
      (ap (λ l. change_users l l t) (missing_from-same (ids_of old.users)) ∙ change_users-nobody t)
