-- ===== src/Telemetry/Telegram/Starved.antt =====
-- A writer whose rate for each chat is less than one message in a second.
use api_template.Base.{
  ℕ, zero, suc, ◌*◌, ◌<◌, String, false, Bool-cases, none, List, [], ◌∷◌, ◌≡◌, refl, inl, inr,
}
use api_template.Kernel.Dicts.{get_item}
use api_template.Telemetry.Bucket.{new_bucket, acquire}
use api_template.Telemetry.Bucket.Waiting.{starves}
use api_template.Telemetry.Telegram.{Limits, Round, chat_bucket, send, Message, deliver}

module _ (second one per_chat_rate : ℕ) where
  new_chat_starves :
      (k : String) (r : Round) (limits : Limits)
      → second * per_chat_rate < one
      → get_item k limits.chats ≡ none
      → (acquire one r.chat_readings
          (chat_bucket second one per_chat_rate k r.chat_created limits.chats)).returns
        ≡ false
  unfolding chat_bucket new_bucket
  new_chat_starves k r limits slow new = rw new (starves one r.chat_readings _ slow)

  send_nothing :
      (retries : ℕ) (k : String) (rounds : List Round) (limits : Limits)
      → second * per_chat_rate < one
      → get_item k limits.chats ≡ none
      → let s = send second one per_chat_rate retries k rounds limits in
        (s.posts ≡ 0) × (s.returns ≡ false)
  unfolding send
  send_nothing zero k [] limits slow new = (refl, refl)
  send_nothing (suc retries) k [] limits slow new = (refl, refl)
  send_nothing zero k (r ∷ rounds) limits slow new =
      let waits = new_chat_starves k r limits slow new in
      elim (Bool-cases (acquire one r.global_readings limits.global).returns) [
        | inl e ↦ rw (e, waits) (refl, refl)
        | inr e ↦ rw e (refl, refl)
      ]
  send_nothing (suc retries) k (r ∷ rounds) limits slow new =
      let waits = new_chat_starves k r limits slow new in
      elim (Bool-cases (acquire one r.global_readings limits.global).returns) [
        | inl e ↦ rw (e, waits) (refl, refl)
        | inr e ↦ rw e (refl, refl)
      ]

  -- Where less than a token comes in a second for a chat, its first message is never posted and its
  -- sending never returns, whatever the readings of the clock; so that no later message is posted,
  -- whatever its chat.
  pub deliver-starves :
      (m : Message second one per_chat_rate) (ms : List (Message second one per_chat_rate))
      (limits : Limits)
      → second * per_chat_rate < one
      → get_item m.key limits.chats ≡ none
      → ((deliver second one per_chat_rate (m ∷ ms) limits).posts ≡ 0)
        × ((deliver second one per_chat_rate (m ∷ ms) limits).returns ≡ false)
  unfolding deliver
  deliver-starves m ms limits slow new =
      let (none_posted, waits) = send_nothing 2 m.key m.rounds limits slow new in
      (rw waits none_posted, rw waits waits)
