-- ===== src/Util.antt =====
-- util/channelbuffer.go: a buffer of bounded capacity behind a channel. `processInput` is the one
-- goroutine that touches the buffer, so that a run is the list of what comes through its channel: an
-- item, or nil (`none`), which `Get` sends; the channel is closed at the end of the list.
pub mod Lossless
mod Tests
use orthrus.Prelude.{
  ℕ, Bool, true, false, if◌then◌else◌, ◌==◌, ◌||◌, Option, none, some, List, [], ◌∷◌, ◌++◌, length,
  ltb,
}

pub record ChannelBuffer {ℓ} (A : Type ℓ) : Type ℓ where
  pub capacity : ℕ
  pub buffer : List A

unfoldable pub new_channel_buffer {ℓ} : {A : Type ℓ} → ℕ → ChannelBuffer A
new_channel_buffer capacity = record { capacity = capacity; buffer = [] }

unfoldable pub take_in {ℓ} : {A : Type ℓ} → ChannelBuffer A → A → ChannelBuffer A
take_in cb item =
    if cb.capacity == 0 || ltb (length cb.buffer) cb.capacity
    then record cb { buffer = cb.buffer ++ item ∷ [] }
    else cb

-- `processInput`: what it writes to the output channel, for each `Get` and for `Close`.
unfoldable pub process_input {ℓ} : {A : Type ℓ} → ChannelBuffer A → List (Option A) → List (List A)
process_input cb [] = cb.buffer ∷ []
process_input cb (some item ∷ items) = process_input (take_in cb item) items
process_input cb (none ∷ items) = cb.buffer ∷ process_input (record cb { buffer = [] }) items
