-- ===== src/Server/Transport/Wire/Fates.antt =====
-- What becomes of each line, however the two tasks take turns:
-- mcp-server/src/customer_mcp/transport.py, `_ValidatingStdin` and `validating_stdio_server`.
use quilr_ai_mcp.Prelude.{
  ℕ, ◌+◌, ◌*◌, ◌≤◌, ◌<◌, ◌≡◌, refl, sym, ap, ◌∙◌, ◌⊎◌, inl, inr, Option, none, some, Bool, true,
  false, List, [], ◌∷◌, ◌++◌, arith, length, length-append,
}
use mathlib.Core.List.{append_assoc, append-nil}
use quilr_ai_mcp.Prelude.Json.{Json}
use quilr_ai_mcp.Server.Transport.{Verdict, pass, drop, reply, classify_line}
use quilr_ai_mcp.Server.Transport.Wire.{
  rejection_buffer, Rejection, Wire, opened, Round, hand_on, skip, refuse, take, write, Rounds,
  none_yet, then_one, then_cancel,
}

module _ (loads : List ℕ → Option Json) where
  -- The lines that pass, and the answers to those that do not, in their order.
  abbrev passed_if : Verdict → List ℕ → List (List ℕ)
  passed_if pass line = line ∷ []
  passed_if drop line = []
  passed_if (reply code id) line = []

  abbrev refused_if : Verdict → List Rejection
  refused_if pass = []
  refused_if drop = []
  refused_if (reply code id) = (code, id) ∷ []

  abbrev pub passing : List (List ℕ) → List (List ℕ)
  passing [] = []
  passing (line ∷ lines) = passed_if (classify_line loads line) line ++ passing lines

  abbrev pub refused : List (List ℕ) → List Rejection
  refused [] = []
  refused (line ∷ lines) = refused_if (classify_line loads line) ++ refused lines

  abbrev pub in_hand : Option Rejection → List Rejection
  in_hand none = []
  in_hand (some rejection) = rejection ∷ []

  -- What is done and what is left make up the whole.
  abbrev pub Kept : List (List ℕ) → Wire → Type 0
  Kept lines w =
      (w.handed ++ passing w.source ≡ passing lines)
      × (w.written ++ (in_hand w.sending ++ (w.queue ++ refused w.source)) ≡ refused lines)
      × (length w.queue ≤ rejection_buffer)

  Round-Kept :
      (lines : List (List ℕ)) (w w' : Wire) → Round loads w w' → Kept lines w → Kept lines w'
  Round-Kept lines w w' (hand_on line next v) (h, r, q) = (
    append_assoc w.handed (line ∷ []) (passing w'.source) ∙ (rw (next, v) at h),
    (rw (next, v) at r),
    q,
  )
  Round-Kept lines w w' (skip line next v) (h, r, q) = ((rw (next, v) at h), (rw (next, v) at r), q)
  Round-Kept lines w w' (refuse line code id next v room on) (h, r, q) = (
    (rw (next, v) at h),
    ap (λ rs. w.written ++ (in_hand w.sending ++ rs))
          (append_assoc w.queue ((code, id) ∷ []) (refused w'.source))
        ∙ (rw (next, v) at r),
    omega (arith, room, length-append w.queue ((code, id) ∷ [])),
  )
  Round-Kept lines w w' (take rejection next free on) (h, r, q) =
      (h, (rw (next, free) at r), omega (arith, (rw next at q)))
  Round-Kept lines w w' (write rejection held on) (h, r, q) =
      (h, append_assoc w.written (rejection ∷ []) (w.queue ++ refused w.source) ∙ (rw held at r), q)

  -- The rounds that are left at most.
  abbrev pub work : Wire → ℕ
  work w = 3 * length w.source + (2 * length w.queue + length (in_hand w.sending))

  Round-work : (w w' : Wire) → Round loads w w' → work w' < work w
  Round-work w w' (hand_on line next v) = rw next (omega arith)
  Round-work w w' (skip line next v) = rw next (omega arith)
  Round-work w w' (refuse line code id next v room on) =
      rw next (omega (arith, length-append w.queue ((code, id) ∷ [])))
  Round-work w w' (take rejection next free on) = rw (next, free) (omega arith)
  Round-work w w' (write rejection held on) = rw held (omega arith)

  -- A task can go on, unless all is read and answered, or the pump has been cancelled.
  abbrev pub CanGoOn : Wire → Type 0
  CanGoOn w =
      (w.pumping ≡ false)
      ⊎ ((w.source ≡ []) × (w.queue ≡ []) × (w.sending ≡ none))
      ⊎ ((w' : Wire) × Round loads w w')

  read_next :
      (w : Wire) (line : List ℕ) (rest : List (List ℕ)) (v : Verdict)
      → w.source ≡ line ∷ rest
      → w.queue ≡ []
      → w.pumping ≡ true
      → classify_line loads line ≡ v
      → CanGoOn w
  read_next w line rest pass next free on h = inr (inr (_, hand_on line next h))
  read_next w line rest drop next free on h = inr (inr (_, skip line next h))
  read_next w line rest (reply code id) next free on h =
      inr (inr (_, refuse line code id next h (rw free (omega arith)) on))

  Wire-CanGoOn : (w : Wire) → CanGoOn w
  Wire-CanGoOn w = go w.pumping w.sending w.queue w.source refl refl refl refl
    where
      go :
          (on : Bool) (sending : Option Rejection) (queue : List Rejection) (source : List (List ℕ))
          → w.pumping ≡ on
          → w.sending ≡ sending
          → w.queue ≡ queue
          → w.source ≡ source
          → CanGoOn w
      go false sending queue source e held queued next = inl e
      go true (some rejection) queue source e held queued next =
          inr (inr (_, write rejection held e))
      go true none (rejection ∷ queue) source e held queued next =
          inr (inr (_, take rejection queued held e))
      go true none [] [] e held queued next = inr (inl (next, queued, held))
      go true none [] (line ∷ source) e held queued next =
          read_next w line source (classify_line loads line) next queued e refl

  Rounds-Kept :
      (lines : List (List ℕ)) (n : ℕ) (w w' : Wire)
      → Rounds loads n w w'
      → Kept lines w
      → Kept lines w' × (n + work w' ≤ work w)
  Rounds-Kept lines n w w' none_yet h = (h, omega arith)
  Rounds-Kept lines n w w'' (then_one {n = k} {w' = w'} rs r) h =
      let (kept, spent) = Rounds-Kept lines k w w' rs h in
      (Round-Kept lines w' w'' r kept, omega (arith, spent, Round-work w' w'' r))
  Rounds-Kept lines n w w'' (then_cancel {w' = w'} rs) h = Rounds-Kept lines n w w' rs h

  -- However reading and answering take turns, and wherever the pump is cancelled: the lines handed to the SDK,
  -- and those still to be handed to it, are the lines that pass, in their order; the errors written, being
  -- sent, queued and still to come are those of the lines refused, in their order, so that none is
  -- written twice or before an earlier one, and at most 256 are queued; and there are no more than three
  -- rounds per line. Until every line has been read and every error written, a round is possible, the SDK
  -- taking what is sent to it, or the pump has been cancelled.
  pub Rounds-Answered :
      (lines : List (List ℕ)) (n : ℕ) (w : Wire)
      → Rounds loads n (opened lines) w
      → (w.handed ++ passing w.source ≡ passing lines)
        × (w.written ++ (in_hand w.sending ++ (w.queue ++ refused w.source)) ≡ refused lines)
        × (length w.queue ≤ rejection_buffer)
        × (n ≤ 3 * length lines)
        × (((w.handed ≡ passing lines) × (w.written ≡ refused lines))
            ⊎ (w.pumping ≡ false)
            ⊎ ((w' : Wire) × Round loads w w'))
  Rounds-Answered lines n w rs =
      let ((handed, written, room), spent) =
        Rounds-Kept lines n (opened lines) w rs (refl, refl, omega arith) in
      (
        handed,
        written,
        room,
        omega (arith, spent),
        elim (Wire-CanGoOn w) [
          | inl off ↦ inr (inl off)
          | inr (inl (read, free, sent)) ↦ inl (
            sym (append-nil w.handed) ∙ (rw read at handed),
            sym (append-nil w.written) ∙ (rw (sent, free, read) at written),
          )
          | inr (inr more) ↦ inr (inr more)
        ],
      )
