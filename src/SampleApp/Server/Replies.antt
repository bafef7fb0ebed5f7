-- ===== src/SampleApp/Server/Replies.antt =====
-- What the business endpoint answers, how long it waits, and what `instrument` records of it.
use kubetraffic.Prelude.{
  All, leb, ltb, ◌==◌, ℕ, zero, suc, ◌+◌, ◌≤◌, ◌<◌, ◌≡◌, refl, ◌∙◌, Bool, true, not, ◌&&◌, some,
  List, [], ◌∷◌, arith, if◌then◌else◌,
}
use kubetraffic.Prelude.Int.{ℤ, pos, ◌+ℤ◌, ltb_ℤ, int64_half, wrap64-of_lt}
use kubetraffic.SampleApp.Metrics.Counts.{succ64}
use kubetraffic.SampleApp.Floats.{Floats}
use kubetraffic.SampleApp.Config.{Config}
use kubetraffic.SampleApp.Fault.{FaultState}
use kubetraffic.SampleApp.Handlers.{
  WriterCall, set_header, write_header, write, encode, Payload, handled, Request, RootWorld,
  root_delay, drawn_delay, answer_root, handle_root,
}
use kubetraffic.SampleApp.Server.{new_recorder, record_calls}

-- Headers that net/http sends at once, before the reply: 1xx, but for 101.
abbrev pub is_informational : ℕ → Bool
is_informational code = leb 100 code && (ltb code 200 && not (code == 101))

-- The status that net/http sends as the reply: that of the first header that is not informational,
-- 200 where a body comes first or nothing comes at all.
abbrev pub sent_status : {F : Type 0} → (Payload F → Bool) → List (WriterCall F) → ℕ
sent_status encodes [] = 200
sent_status encodes (set_header k v ∷ rest) = sent_status encodes rest
sent_status encodes (write_header code ∷ rest) =
    let later = sent_status encodes rest in if is_informational code then later else code
sent_status encodes (write b ∷ rest) = 200
sent_status encodes (encode v ∷ rest) = if encodes v then 200 else sent_status encodes rest

-- A header that a call writes has a code from 200 to 999: others are informational, switch
-- protocols or panic.
abbrev pub IsFinal : {F : Type 0} → WriterCall F → Type 0
IsFinal (write_header code) = (200 ≤ code) × (code ≤ 999)
IsFinal _ = Unit

module _ {F : Type 0} (encodes : Payload F → Bool) where
  record_calls-written :
      (calls : List (WriterCall F)) (code : ℕ)
      → (record_calls encodes calls (record { status = code; written = true })).status ≡ code
  unfolding record_calls
  record_calls-written [] code = refl
  record_calls-written (set_header k v ∷ rest) code = record_calls-written rest code
  record_calls-written (write_header c ∷ rest) code = record_calls-written rest code
  record_calls-written (write b ∷ rest) code = record_calls-written rest code
  record_calls-written (encode v ∷ rest) code = ground (arith, record_calls-written rest code)

  -- Whatever calls a handler makes on its response writer, if the headers that it writes have
  -- codes from 200 to 999: the status that is recorded for the metrics is that of the reply that
  -- the client is sent.
  pub record_calls_lem :
      (calls : List (WriterCall F))
      → All IsFinal calls
      → (record_calls encodes calls new_recorder).status ≡ sent_status encodes calls
  unfolding record_calls
  record_calls_lem [] h = refl
  record_calls_lem (set_header k v ∷ rest) h = record_calls_lem rest h.1
  record_calls_lem (write_header code ∷ rest) h =
      let from = h.0.0 in ground (arith, record_calls-written rest code, from)
  record_calls_lem (write b ∷ rest) h = record_calls-written rest 200
  record_calls_lem (encode v ∷ rest) h =
      ground (arith, record_calls-written rest 200, record_calls_lem rest h.1)

module _ {F : Type 0} (fl : Floats F) (cfg : Config F) (w : RootWorld F) where
  drawn_delay_lem :
      (latency bound d : ℕ)
      → 0 < bound
      → latency + d < int64_half
      → w.draw (pos bound) ≡ pos d
      → drawn_delay fl cfg w (pos latency) (pos bound) ≡ some (pos (latency + d))
  unfolding drawn_delay
  drawn_delay_lem latency bound d h l drawn =
      let plain : pos latency +ℤ pos d ≡ pos (latency + d) = ground arith in
      rw drawn (ground (arith, wrap64-of_lt (latency + d) l))

  root_delay_lem :
      (f : FaultState F) (latency jitter d : ℕ)
      → f.latency ≡ pos latency
      → f.jitter ≡ pos jitter
      → latency + jitter + 1 < int64_half
      → w.draw (pos (suc jitter)) ≡ pos d
      → d ≤ jitter
      → root_delay fl cfg w f ≡ some (pos (latency + d))
  unfolding root_delay
  root_delay_lem f latency zero d el ej fits drawn range = rw (ej, el, root_delay) (ground arith)
  root_delay_lem f latency (suc k) d el ej fits drawn range =
      rw (ej, el, root_delay)
        (rw (succ64 (pos (suc k)) refl (omega arith)) (
          ground
            (arith, drawn_delay_lem latency (suc (suc k)) d (omega arith) (omega arith) drawn)))

  -- What `handle_root` makes of a delay.
  abbrev root_calls : Request → F → ℤ → List (WriterCall F)
  root_calls r rate delay =
      if ltb_ℤ (pos 0) delay && w.hung_up then [] else answer_root fl cfg w r rate delay

  handle_root-delay :
      (r : Request) (f : FaultState F) (delay : ℤ)
      → root_delay fl cfg w f ≡ some delay
      → handle_root fl cfg w r f ≡ handled (root_calls r f.rate delay)
  unfolding handle_root
  handle_root-delay r f delay e = ground arith

  status-root_calls :
      (encodes : Payload F → Bool) (r : Request) (rate : F) (delay : ℤ)
      → sent_status encodes (root_calls r rate delay) ≡ (
          if fl.lt (fl.milli 0) rate
            && fl.lt w.chance rate
            && not (ltb_ℤ (pos 0) delay && w.hung_up)
          then 500
          else 200)
  unfolding answer_root
  status-root_calls encodes r rate delay = ground arith

  IsFinal-root_calls : (r : Request) (rate : F) (delay : ℤ) → All IsFinal (root_calls r rate delay)
  unfolding answer_root
  IsFinal-root_calls r rate delay = ground arith

  -- For a fault state with no negative delays whose sum fits an int64, and a draw within the range
  -- of `rand.Int64N`, the business endpoint does not panic; its delay is the latency plus the draw,
  -- which lies between 0 and the jitter, both included, and is 0 where there is no jitter. Unless
  -- there is a delay and the client hangs up during it, when nothing is written, the recorded
  -- status is 500 if the rate is above 0 and above the chance drawn, and 200 otherwise.
  pub handle_root_lem :
      (encodes : Payload F → Bool) (r : Request) (f : FaultState F) (latency jitter d : ℕ)
      → f.latency ≡ pos latency
      → f.jitter ≡ pos jitter
      → latency + jitter + 1 < int64_half
      → w.draw (pos (suc jitter)) ≡ pos d
      → d ≤ jitter
      → (calls : List (WriterCall F)) × (handle_root fl cfg w r f ≡ handled calls)
        × (root_delay fl cfg w f ≡ some (pos (latency + d)))
        × ((record_calls encodes calls new_recorder).status ≡ (
            if fl.lt (fl.milli 0) f.rate
              && fl.lt w.chance f.rate
              && not (ltb_ℤ (pos 0) (pos (latency + d)) && w.hung_up)
            then 500
            else 200))
  handle_root_lem encodes r f latency jitter d el ej fits drawn range =
      let delay = root_delay_lem f latency jitter d el ej fits drawn range in
      let calls = root_calls r f.rate (pos (latency + d)) in
      (
        calls,
        handle_root-delay r f (pos (latency + d)) delay,
        delay,
        record_calls_lem encodes calls (IsFinal-root_calls r f.rate (pos (latency + d)))
            ∙ status-root_calls encodes r f.rate (pos (latency + d)),
      )
