-- ===== src/Messaging/Chat.antt =====
-- `ChatStream` of services/messaging_service/src/messaging_service.cpp as a machine whose steps the
-- clients choose: a call begins, a message comes in on it, it ends. The `ActiveStream` object `self`
-- lives on the stack of its call: when the call ends the object is gone, and its pointer stays in
-- `active_streams_`. Each step is atomic: `self.alive = false`, which the code does without the lock,
-- falls before or after a `broadcast`, and not between its purge and its writes.
use wizz_mania.Prelude.{ℕ, List, [], ◌∷◌, ◌++◌, true, false, none, some}
use wizz_mania.Prelude.Result.{ok}
use wizz_mania.Prelude.Int.{ℤ}
use wizz_mania.Messaging.Service.{
  Handler, reply, ◌>>=◌, EncryptedMessage, persist_and_broadcast, drop_object, object, set_object,
  ActiveStream,
}

-- `joins p` enters a call whose object is at `p`; `sends time msg` is one message that `Read`
-- returned, at a time; `ends p` is `self.alive = false` in the call at `p`, and `leaves p` its return.
pub data Event : Type 0 where
  joins ends leaves : ℕ → Event
  sends : ℤ → EncryptedMessage → Event

-- `self.alive = false`
end_object : ℕ → List (ℕ × ActiveStream) → List (ℕ × ActiveStream)
end_object p os = elim (object p os) [
  | none ↦ os
  | some o ↦ set_object p (record o { alive = false }) os
]

unfoldable pub chat_step : Event → Handler (Unit {0})
unfolding drop_object end_object object set_object
chat_step (joins p) s = (
  ok tt,
  record s {
    active_streams = s.active_streams ++ p ∷ [];
    objects = (p, record { written = []; alive = true }) ∷ s.objects;
  },
)
chat_step (sends time msg) s = (persist_and_broadcast time msg >>= λ _. reply tt) s
chat_step (ends p) s = (ok tt, record s { objects = end_object p s.objects })
chat_step (leaves p) s = (ok tt, record s { objects = drop_object p s.objects })

unfoldable pub chat : List Event → Handler (Unit {0})
unfolding chat_step
chat [] = reply tt
chat (e ∷ es) = chat_step e >>= λ _. chat es
