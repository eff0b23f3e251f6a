-- ===== src/Server/Transport/Wire.antt =====
-- mcp-server/src/customer_mcp/transport.py, `_ValidatingStdin` and `validating_stdio_server`: two tasks that
-- share a queue of rejections. A step is one round of a task; where a task has to wait, it has no step.
pub mod Fates
use quilr_ai_mcp.Prelude.{
  ℕ, zero, suc, ◌<◌, ◌≤◌, ◌≡◌, Option, none, some, Bool, true, false, List, [], ◌∷◌, ◌++◌, length,
}
use quilr_ai_mcp.Prelude.Json.{Json}
use quilr_ai_mcp.Server.Transport.{ErrorCode, Verdict, pass, drop, reply, classify_line}

-- `_REJECTION_BUFFER`
abbrev pub rejection_buffer : ℕ
rejection_buffer = 256

-- An error response
abbrev pub Rejection : Type 0
Rejection = ErrorCode × Json

-- What stdin still holds, the lines handed to the SDK, the queue, the error that the pump has taken from it
-- and is sending, what it has written, and whether its task group still runs.
pub record Wire : Type 0 where
  pub source : List (List ℕ)
  pub handed : List (List ℕ)
  pub queue : List Rejection
  pub sending : Option Rejection
  pub written : List Rejection
  pub pumping : Bool

abbrev pub opened : List (List ℕ) → Wire
opened lines = record {
  source = lines;
  handed = [];
  queue = [];
  sending = none;
  written = [];
  pumping = true;
}

-- A round of `__aiter__` by the verdict on the next line, a rejection being sent only to a queue that is
-- not full and still read; or half a round of `pump_rejections`, which takes an error from the queue, and
-- sends it once the SDK's stream takes it.
pub data Round (loads : List ℕ → Option Json) : Wire → Wire → Type 0 where
  hand_on :
      {w : Wire} {rest : List (List ℕ)} (line : List ℕ)
      → w.source ≡ line ∷ rest
      → classify_line loads line ≡ pass
      → Round loads w (record w { source = rest; handed = w.handed ++ line ∷ [] })
  skip :
      {w : Wire} {rest : List (List ℕ)} (line : List ℕ)
      → w.source ≡ line ∷ rest
      → classify_line loads line ≡ drop
      → Round loads w (record w { source = rest })
  refuse :
      {w : Wire} {rest : List (List ℕ)} (line : List ℕ) (code : ErrorCode) (id : Json)
      → w.source ≡ line ∷ rest
      → classify_line loads line ≡ reply code id
      → length w.queue < rejection_buffer
      → w.pumping ≡ true
      → Round loads w (record w { source = rest; queue = w.queue ++ (code, id) ∷ [] })
  take :
      {w : Wire} {rest : List Rejection} (rejection : Rejection)
      → w.queue ≡ rejection ∷ rest
      → w.sending ≡ none
      → w.pumping ≡ true
      → Round loads w (record w { queue = rest; sending = some rejection })
  write :
      {w : Wire} (rejection : Rejection)
      → w.sending ≡ some rejection
      → w.pumping ≡ true
      → Round loads w (record w { sending = none; written = w.written ++ rejection ∷ [] })

-- `n` rounds, in whatever order the tasks take turns. At any point the session may end, and the `finally`
-- of `validating_stdio_server` cancels the pump, wherever it stands.
pub data Rounds (loads : List ℕ → Option Json) : ℕ → Wire → Wire → Type 0 where
  none_yet : {w : Wire} → Rounds loads 0 w w
  then_one :
      {n : ℕ} {w w' w'' : Wire}
      → Rounds loads n w w'
      → Round loads w' w''
      → Rounds loads (suc n) w w''
  then_cancel :
      {n : ℕ} {w w' : Wire} → Rounds loads n w w' → Rounds loads n w (record w' { pumping = false })
