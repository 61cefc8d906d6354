-- ===== src/Messaging/History/Order.antt =====
-- The order of a history, and its length.
use wizz_mania.Prelude.{
  ℕ, zero, suc, ◌≤◌, ◌<◌, ◌≡◌, refl, ap, sym, subst, inl, inr, Bool, List, [], ◌∷◌, ◌++◌, map,
  length, take, Option, none, some, arith, Bool-cases, All, All-imp, filter, ltb,
}
use wizz_mania.Prelude.Text.{Str}
use wizz_mania.Prelude.Int.{ℤ, pos, negsuc, int_eq}
use wizz_mania.Prelude.Result.{ok}
use wizz_mania.Messaging.Tables.{
  Tables, Conversation, Message, titled, newest_first, select_messages, insert_by, limited,
}
use wizz_mania.Messaging.Database.{MessageRow, message_row, joined, history_of, history_body}

abbrev newer : Message → Message → Bool
newer a b = ltb b.id a.id

-- The newest message of all comes first.
pub newest_first-append :
    (ms : List Message) (m : Message)
    → All (λ x. x.id < m.id) ms
    → newest_first (ms ++ m ∷ []) ≡ m ∷ newest_first ms
unfolding newest_first
newest_first-append [] m h = refl
newest_first-append (x ∷ ms) m h = rw (newest_first-append ms m h.1) (ground (arith, h.0))

-- Ids that do not rise.
abbrev pub Descending : List MessageRow → Type 0
Descending [] = Unit
Descending (r ∷ rs) = All (λ x. x.id_messages ≤ r.id_messages) rs × Descending rs

abbrev Sorted : List Message → Type 0
Sorted [] = Unit
Sorted (m ∷ ms) = All (λ x. x.id ≤ m.id) ms × Sorted ms

insert_by-All :
    (P : Message → Type 0) (m : Message) (ms : List Message)
    → P m
    → All P ms
    → All P (insert_by newer m ms)
unfolding insert_by
insert_by-All P m [] h k = (h, tt)
insert_by-All P m (x ∷ ms) h k = ground (arith, insert_by-All P m ms h k.1)

insert_by-Sorted : (m : Message) (ms : List Message) → Sorted ms → Sorted (insert_by newer m ms)
unfolding insert_by
insert_by-Sorted m [] h = (tt, tt)
insert_by-Sorted m (x ∷ ms) h = elim (Bool-cases (ltb x.id m.id)) [
  | inl first ↦ rw first ((ground arith, All-imp _ _ (λ y k. ground (arith, k)) ms h.0), h)
  | inr later ↦ rw later (insert_by-All _ m ms (ground arith) h.0, insert_by-Sorted m ms h.1)
]

newest_first-Sorted : (ms : List Message) → Sorted (newest_first ms)
unfolding newest_first
newest_first-Sorted [] = tt
newest_first-Sorted (m ∷ ms) = insert_by-Sorted m (newest_first ms) (newest_first-Sorted ms)

newest_first-All : (P : Message → Type 0) (ms : List Message) → All P ms → All P (newest_first ms)
unfolding newest_first
newest_first-All P [] h = tt
newest_first-All P (m ∷ ms) h = insert_by-All P m (newest_first ms) h.0 (newest_first-All P ms h.1)

-- A positive limit bounds the rows.
abbrev pub Fits {ℓ} : {A : Type ℓ} → ℤ → List A → Type 0
Fits (pos zero) rows = Unit
Fits (pos (suc n)) rows = length rows ≤ suc n
Fits (negsuc n) rows = Unit

length-take-le {ℓ} : {A : Type ℓ} (n : ℕ) (xs : List A) → length (take n xs) ≤ n
length-take-le zero xs = omega arith
length-take-le (suc n) [] = omega arith
length-take-le (suc n) (x ∷ xs) = omega (arith, length-take-le n xs)

limited-Fits {ℓ} : {A : Type ℓ} (limit : ℤ) (xs : List A) → Fits limit (limited limit xs)
limited-Fits (pos zero) xs = tt
limited-Fits (pos (suc n)) xs = ground (arith, length-take-le (suc n) xs)
limited-Fits (negsuc n) xs = tt

take-All {ℓ κ} : {A : Type ℓ} (P : A → Type κ) (n : ℕ) (xs : List A) → All P xs → All P (take n xs)
take-All P zero xs h = tt
take-All P (suc n) [] h = tt
take-All P (suc n) (x ∷ xs) h = (h.0, take-All P n xs h.1)

take-Descending : (n : ℕ) (rs : List MessageRow) → Descending rs → Descending (take n rs)
take-Descending zero rs h = tt
take-Descending (suc n) [] h = tt
take-Descending (suc n) (r ∷ rs) h = (take-All _ n rs h.0, take-Descending n rs h.1)

limited-Descending :
    (limit : ℤ) (rs : List MessageRow) → Descending rs → Descending (limited limit rs)
limited-Descending (pos zero) rs h = h
limited-Descending (pos (suc n)) rs h = ground (arith, take-Descending (suc n) rs h)
limited-Descending (negsuc n) rs h = h

-- Rows made of messages, by a function that keeps the ids, or leaves messages out.
map-All :
    (key : Str) (n : ℕ) (ms : List Message)
    → All (λ x. x.id ≤ n) ms
    → All (λ x. x.id_messages ≤ n) (map (message_row key) ms)
unfolding message_row
map-All key n [] h = tt
map-All key n (m ∷ ms) h = (h.0, map-All key n ms h.1)

map-Descending : (key : Str) (ms : List Message) → Sorted ms → Descending (map (message_row key) ms)
unfolding message_row
map-Descending key [] h = tt
map-Descending key (m ∷ ms) h = (map-All key m.id ms h.0, map-Descending key ms h.1)

joined-All :
    (cs : List Conversation) (n : ℕ) (ms : List Message)
    → All (λ x. x.id ≤ n) ms
    → All (λ x. x.id_messages ≤ n) (joined cs ms)
unfolding joined
joined-All cs n [] h = tt
joined-All cs n (m ∷ ms) h = ground (arith, joined-All cs n ms h.1, h.0)

joined-Descending :
    (cs : List Conversation) (ms : List Message) → Sorted ms → Descending (joined cs ms)
unfolding joined
joined-Descending cs [] h = tt
joined-Descending cs (m ∷ ms) h =
    ground (arith, joined-Descending cs ms h.1, joined-All cs m.id ms h.0)

take-map {ℓ κ} :
    {A : Type ℓ} {B : Type κ} (f : A → B) (n : ℕ) (xs : List A)
    → map f (take n xs) ≡ take n (map f xs)
take-map f zero xs = refl
take-map f (suc n) [] = refl
take-map f (suc n) (x ∷ xs) = ap (λ ys. f x ∷ ys) (take-map f n xs)

pub limited-map {ℓ κ} :
    {A : Type ℓ} {B : Type κ} (f : A → B) (limit : ℤ) (xs : List A)
    → map f (limited limit xs) ≡ limited limit (map f xs)
limited-map f (pos zero) xs = refl
limited-map f (pos (suc n)) xs = ground (arith, take-map f (suc n) xs)
limited-map f (negsuc n) xs = refl

limited-nil {ℓ} : {A : Type ℓ} (limit : ℤ) → limited {A = A} limit [] ≡ []
limited-nil (pos zero) = refl
limited-nil (pos (suc n)) = ground arith
limited-nil (negsuc n) = refl

-- The rows of a history before the limit.
unfoldable pub all_rows : Str → Option Conversation → List Message → List MessageRow
all_rows key none ms = []
all_rows key (some c) ms = map (message_row key) (select_messages c.id ms)

pub history_of-limited :
    (key : Str) (limit : ℤ) (o : Option Conversation) (ms : List Message)
    → history_of key limit o ms ≡ limited limit (all_rows key o ms)
unfolding history_of all_rows
history_of-limited key limit none ms = sym (limited-nil limit)
history_of-limited key limit (some c) ms =
    limited-map (message_row key) limit (select_messages c.id ms)

all_rows-Descending :
    (key : Str) (o : Option Conversation) (ms : List Message) → Descending (all_rows key o ms)
unfolding all_rows select_messages
all_rows-Descending key none ms = tt
all_rows-Descending key (some c) ms =
    map-Descending key (select_messages c.id ms)
      (newest_first-Sorted (filter (λ m. int_eq m.conversation c.id) ms))

-- The rows before the limit, of one conversation or of all.
unfoldable pub unlimited : Str → Tables → List MessageRow
unlimited [] t = joined t.conversations (newest_first t.messages)
unlimited (c ∷ key) t = all_rows (c ∷ key) (titled (c ∷ key) t.conversations) t.messages

pub history_body-unlimited :
    (key : Str) (limit : ℤ) (t : Tables)
    → history_body key limit t ≡ (ok (limited limit (unlimited key t)), t)
unfolding history_body unlimited
history_body-unlimited [] limit t = refl
history_body-unlimited (c ∷ key) limit t =
    ap (λ rows. (ok rows, t))
      (history_of-limited (c ∷ key) limit (titled (c ∷ key) t.conversations) t.messages)

unlimited-Descending : (key : Str) (t : Tables) → Descending (unlimited key t)
unfolding unlimited
unlimited-Descending [] t =
    joined-Descending t.conversations (newest_first t.messages) (newest_first-Sorted t.messages)
unlimited-Descending (c ∷ key) t =
    all_rows-Descending (c ∷ key) (titled (c ∷ key) t.conversations) t.messages

-- Whatever `getHistory` returns is ordered by falling ids, and no longer than a positive limit; the
-- read changes no table.
pub history_body-Descending :
    (key : Str) (limit : ℤ) (t u : Tables) (rows : List MessageRow)
    → history_body key limit t ≡ (ok rows, u)
    → Descending rows × Fits limit rows × (u ≡ t)
history_body-Descending key limit t u rows e =
    subst (λ (r : List MessageRow). Descending r × Fits limit r × (u ≡ t)) same
      (
        limited-Descending limit (unlimited key t) (unlimited-Descending key t),
        limited-Fits limit (unlimited key t),
        cc (e, history_body-unlimited key limit t),
      )
  where
    same : limited limit (unlimited key t) ≡ rows
    same = cc (e, history_body-unlimited key limit t)
