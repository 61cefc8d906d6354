-- ===== src/Gateway/Joined.antt =====
-- The one table `users` of init/schema.sql under the calls of gateway_service/src/main.cpp that make and
-- delete accounts.
use wizz_mania.Prelude.{
  ℕ, ◌<◌, ◌≡◌, refl, ap, ◌∙◌, sym, subst, Bool, true, false, ◌&&◌, ◌||◌, not, List, [], ◌∷◌, map,
  Option, none, some, if◌then◌else◌, All, All-filter_test,
}
use wizz_mania.Prelude.Int.{ℤ}
use wizz_mania.Auth.Tables as AuthTables
use wizz_mania.Messaging.Tables.{Tables, Message, Participant, has_user, sender_exists}
use wizz_mania.Messaging.Integrity.{IsValid, IsKnown, IsAttached, Ascending}
use wizz_mania.Gateway.Http.{Cloud}
use wizz_mania.Gateway.Users.{
  ids_of, missing_from, sender_left, set_null, change_users, follow_users, following,
}
use wizz_mania.Gateway.Cascade.{has_user-append, has_user-missing_from}

set_null-All :
    (gone : List ℤ) (P : ℕ → Type 0) (ms : List Message)
    → All (λ m. P m.id) ms
    → All (λ m. P m.id) (map (set_null gone) ms)
unfolding set_null
set_null-All gone P [] h = tt
set_null-All gone P (m ∷ ms) h = (h.0, set_null-All gone P ms h.1)

set_null-Ascending :
    (gone : List ℤ) (ms : List Message) → Ascending ms → Ascending (map (set_null gone) ms)
unfolding set_null
set_null-Ascending gone [] h = tt
set_null-Ascending gone (m ∷ ms) h =
    (set_null-All gone (λ n. m.id < n) ms h.0, set_null-Ascending gone ms h.1)

-- The users that stay.
stays : Bool → Bool → Bool → Bool
stays old gone come = (old && not gone) || come

has_user-changed :
    (id : ℤ) (gone come : List ℤ) (t : Tables)
    → has_user id (change_users gone come t).users
      ≡ stays (has_user id t.users) (has_user id gone) (has_user id come)
unfolding change_users missing_from stays
has_user-changed id gone come t =
    has_user-append id (missing_from t.users gone) come
    ∙ ap (λ b. b || has_user id come) (has_user-missing_from id t.users gone)

stays-old : (old gone come : Bool) → old ≡ true → gone ≡ false → stays old gone come ≡ true
unfolding stays
stays-old old gone come h k = rw (h, k) refl

not-true : (b : Bool) → not b ≡ true → b ≡ false
not-true true h = cc h
not-true false h = refl

module _ (gone come : List ℤ) (t : Tables) where
  -- A user that is not deleted is still there.
  has_user-kept :
      (id : ℤ)
      → has_user id t.users ≡ true
      → has_user id gone ≡ false
      → has_user id (change_users gone come t).users ≡ true
  has_user-kept id there not_gone =
      has_user-changed id gone come t
      ∙ stays-old (has_user id t.users) (has_user id gone) (has_user id come) there not_gone

  sender_left-exists :
      (o : Option ℤ)
      → sender_exists o t.users ≡ true
      → sender_exists (sender_left gone o) (change_users gone come t).users ≡ true
  unfolding sender_left
  sender_left-exists none h = refl
  sender_left-exists (some id) h = by_flag (has_user id gone) (has_user-kept id h)
    where
      by_flag :
          (b : Bool)
          → (b ≡ false → has_user id (change_users gone come t).users ≡ true)
          → sender_exists (if b then none else some id) (change_users gone come t).users ≡ true
      by_flag true kept = refl
      by_flag false kept = kept refl

  set_null-IsAttached :
      (ms : List Message)
      → All (IsAttached t) ms
      → All (IsAttached (change_users gone come t)) (map (set_null gone) ms)
  unfolding set_null change_users
  set_null-IsAttached [] h = tt
  set_null-IsAttached (m ∷ ms) h =
      ((sender_left-exists m.sender h.0.0, h.0.1), set_null-IsAttached ms h.1)

  member-IsKnown :
      (p : Participant)
      → not (has_user p.user gone) ≡ true
      → IsKnown t p
      → IsKnown (change_users gone come t) p
  unfolding change_users
  member-IsKnown p left h = (has_user-kept p.user h.0 (not-true (has_user p.user gone) left), h.1)

  change_users-IsValid : IsValid t → IsValid (change_users gone come t)
  unfolding change_users
  change_users-IsValid v = record {
    conversations_below = v.conversations_below;
    conversations_distinct = v.conversations_distinct;
    participants_known =
        All-filter_test (IsKnown t) (IsKnown (change_users gone come t))
          (λ p. not (has_user p.user gone)) member-IsKnown t.participants v.participants_known;
    messages_attached = set_null-IsAttached t.messages v.messages_attached;
    messages_below = set_null-All gone (λ n. n < t.next_message) t.messages v.messages_below;
    messages_ascending = set_null-Ascending gone t.messages v.messages_ascending;
  }

-- The messaging service's tables are valid, and know the users that the authentication service's have.
pub record IsJoined (c : Cloud) : Type 0 where
  pub users :
      (id : ℤ) → has_user id c.messaging.db.tables.users ≡ has_user id (ids_of c.auth.tables.users)
  pub valid : IsValid c.messaging.db.tables

follow_users-joined :
    (old new : AuthTables.Tables) (t : Tables) (id : ℤ)
    → has_user id t.users ≡ has_user id (ids_of old.users)
    → has_user id (follow_users old new t).users ≡ has_user id (ids_of new.users)
unfolding follow_users stays
follow_users-joined old new t id h =
    let b = has_user id (ids_of old.users) in
    let a = has_user id (ids_of new.users) in
    let gone = missing_from (ids_of old.users) (ids_of new.users) in
    let come = missing_from (ids_of new.users) (ids_of old.users) in
    has_user-changed id gone come t
    ∙ ap (λ o. stays o (has_user id gone) (has_user id come)) h
    ∙ ap (λ g. stays b g (has_user id come))
        (has_user-missing_from id (ids_of old.users) (ids_of new.users))
    ∙ ap (stays b (b && not a)) (has_user-missing_from id (ids_of new.users) (ids_of old.users))
    ∙ settled b a
  where
    settled : (b a : Bool) → stays b (b && not a) (a && not b) ≡ a
    settled true true = refl
    settled true false = refl
    settled false true = refl
    settled false false = refl

pub following-IsJoined :
    (c c' : Cloud) → c'.messaging ≡ c.messaging → IsJoined c → IsJoined (following c c')
unfolding follow_users
following-IsJoined c c' same j = record {
  users = λ id.
      follow_users-joined c.auth.tables c'.auth.tables c'.messaging.db.tables id
        (ap (λ s. has_user id s.db.tables.users) same ∙ j.users id);
  valid =
      change_users-IsValid _ _ c'.messaging.db.tables
        (subst (λ s. IsValid s.db.tables) (sym same) j.valid);
}
