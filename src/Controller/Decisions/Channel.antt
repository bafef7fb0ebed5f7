-- ===== src/Controller/Decisions/Channel.antt =====
-- The decision watcher, the channel `Trigger` that main makes for it, and the source that reads it,
-- as steps that come in any order. grpc's stream and the context are outside: a stream opens or
-- not, gives decisions, and ends with an error at any time.
use mathlib.Core.List.{append_assoc, append-nil}
use kubetraffic.Prelude.{
  length-append, ℕ, ◌≤◌, ◌<◌, ◌≡◌, refl, sym, ap, ◌∙◌, Bool, true, false, List, [], ◌∷◌, ◌++◌, map,
  length, arith, suc,
}
use kubetraffic.Prelude.Int.{ℤ}
use kubetraffic.Api.{NamespacedName}
use kubetraffic.ControlPlane.Wire.{Decision}
use kubetraffic.Controller.Decisions.{Watcher, least_delay, next_backoff, decided}

-- Where `Start` stands: at the head of its loop, opening the stream, in `Recv`, in the send of
-- `handle`, after the stream, in the select of the wait, returned.
pub data WatchPhase : Type 0 where
  looping opening receiving : WatchPhase
  sending : Decision → WatchPhase
  ended waiting returned : WatchPhase

-- `received` are the decisions that `Recv` gave and `enqueued` the routes that the source took, in
-- order.
pub record Watch : Type 0 where
  pub phase : WatchPhase
  pub backoff : ℤ
  pub cancelled : Bool
  pub buffer : List NamespacedName
  pub received : List Decision
  pub enqueued : List NamespacedName

-- `make(chan event.GenericEvent, 64)`
abbrev pub decision_events_capacity : ℕ
decision_events_capacity = 64

abbrev pub begun : Watcher → Watch
begun w = record {
  phase = looping;
  backoff = least_delay w;
  cancelled = false;
  buffer = [];
  received = [];
  enqueued = [];
}

pub data WatchTurn (w : Watcher) : Watch → Watch → Type 0 where
  cancel : (l : Watch) → WatchTurn w l (record l { cancelled = true })
  left_loop :
      (l : Watch)
      → l.phase ≡ looping
      → l.cancelled ≡ true
      → WatchTurn w l (record l { phase = returned })
  connected :
      (l : Watch)
      → l.phase ≡ looping
      → l.cancelled ≡ false
      → WatchTurn w l (record l { phase = opening })
  opened : (l : Watch) → l.phase ≡ opening → WatchTurn w l (record l { phase = receiving })
  refused : (l : Watch) → l.phase ≡ opening → WatchTurn w l (record l { phase = ended })
  got :
      (l : Watch) (d : Decision)
      → l.phase ≡ receiving
      → WatchTurn w l (record l { phase = sending d; received = l.received ++ d ∷ [] })
  broken : (l : Watch) → l.phase ≡ receiving → WatchTurn w l (record l { phase = ended })
  sent :
      (l : Watch) (d : Decision)
      → l.phase ≡ sending d
      → length l.buffer < decision_events_capacity
      → WatchTurn w l (record l { phase = receiving; buffer = l.buffer ++ decided d ∷ [] })
  left_stream :
      (l : Watch)
      → l.phase ≡ ended
      → l.cancelled ≡ true
      → WatchTurn w l (record l { phase = returned })
  paused :
      (l : Watch)
      → l.phase ≡ ended
      → l.cancelled ≡ false
      → WatchTurn w l (record l { phase = waiting })
  left_wait :
      (l : Watch)
      → l.phase ≡ waiting
      → l.cancelled ≡ true
      → WatchTurn w l (record l { phase = returned })
  wait_over :
      (l : Watch)
      → l.phase ≡ waiting
      → WatchTurn w l (record l { phase = looping; backoff = next_backoff w l.backoff })
  -- The source takes the oldest event of the channel.
  taken :
      (l : Watch) (nn : NamespacedName) (rest : List NamespacedName)
      → l.buffer ≡ nn ∷ rest
      → WatchTurn w l (record l { buffer = rest; enqueued = l.enqueued ++ nn ∷ [] })

pub data WatchTurns (w : Watcher) : Watch → Type 0 where
  here : WatchTurns w (begun w)
  next : {l m : Watch} → WatchTurns w l → WatchTurn w l m → WatchTurns w m

-- The route that the watcher is about to send.
abbrev pub held : WatchPhase → List NamespacedName
held (sending d) = decided d ∷ []
held _ = []

abbrev pub IsDelivered : Watch → Type 0
IsDelivered l =
    (map decided l.received ≡ l.enqueued ++ (l.buffer ++ held l.phase))
    × (length l.buffer ≤ decision_events_capacity)

map-append_one :
    (ds : List Decision) (d : Decision)
    → map decided (ds ++ d ∷ []) ≡ map decided ds ++ decided d ∷ []
map-append_one [] d = refl
map-append_one (x ∷ ds) d = ap (λ t. decided x ∷ t) (map-append_one ds d)

-- A phase with as much to send as the present one.
kept :
    (l : Watch) (p : WatchPhase)
    → held l.phase ≡ held p
    → IsDelivered l
    → IsDelivered (record l { phase = p })
kept l p e (all, fits) = (all ∙ ap (λ h. l.enqueued ++ (l.buffer ++ h)) e, fits)

got-IsDelivered :
    (l : Watch) (d : Decision)
    → l.phase ≡ receiving
    → IsDelivered l
    → IsDelivered (record l { phase = sending d; received = l.received ++ d ∷ [] })
got-IsDelivered l d e (all, fits) = (
  map-append_one l.received d
      ∙ (ap (λ t. t ++ decided d ∷ [])
            (all
              ∙ ap (λ h. l.enqueued ++ (l.buffer ++ h)) (ap held e)
              ∙ ap (λ t. l.enqueued ++ t) (append-nil l.buffer))
          ∙ append_assoc l.enqueued l.buffer (decided d ∷ [])),
  fits,
)

sent-IsDelivered :
    (l : Watch) (d : Decision)
    → l.phase ≡ sending d
    → length l.buffer < decision_events_capacity
    → IsDelivered l
    → IsDelivered (record l { phase = receiving; buffer = l.buffer ++ decided d ∷ [] })
sent-IsDelivered l d e room (all, fits) = (
  all
      ∙ (ap (λ h. l.enqueued ++ (l.buffer ++ h)) (ap held e)
          ∙ ap (λ t. l.enqueued ++ t) (sym (append-nil (l.buffer ++ decided d ∷ [])))),
  omega (arith, room, length-append l.buffer (decided d ∷ [])),
)

taken-IsDelivered :
    (l : Watch) (nn : NamespacedName) (rest : List NamespacedName)
    → l.buffer ≡ nn ∷ rest
    → IsDelivered l
    → IsDelivered (record l { buffer = rest; enqueued = l.enqueued ++ nn ∷ [] })
taken-IsDelivered l nn rest e (all, fits) =
    let longer : length l.buffer ≡ suc (length rest) = ap length e in
    (
      all
          ∙ (ap (λ b. l.enqueued ++ (b ++ held l.phase)) e
              ∙ sym (append_assoc l.enqueued (nn ∷ []) (rest ++ held l.phase))),
      omega (arith, fits, longer),
    )

WatchTurn-IsDelivered :
    {w : Watcher} {l m : Watch} → WatchTurn w l m → IsDelivered l → IsDelivered m
WatchTurn-IsDelivered (cancel l) h = h
WatchTurn-IsDelivered (left_loop l e c) h = kept l returned (ap held e) h
WatchTurn-IsDelivered (connected l e c) h = kept l opening (ap held e) h
WatchTurn-IsDelivered (opened l e) h = kept l receiving (ap held e) h
WatchTurn-IsDelivered (refused l e) h = kept l ended (ap held e) h
WatchTurn-IsDelivered (got l d e) h = got-IsDelivered l d e h
WatchTurn-IsDelivered (broken l e) h = kept l ended (ap held e) h
WatchTurn-IsDelivered (sent l d e room) h = sent-IsDelivered l d e room h
WatchTurn-IsDelivered (left_stream l e c) h = kept l returned (ap held e) h
WatchTurn-IsDelivered (paused l e c) h = kept l waiting (ap held e) h
WatchTurn-IsDelivered (left_wait l e c) h = kept l returned (ap held e) h
WatchTurn-IsDelivered (wait_over l e) h = kept l looping (ap held e) h
WatchTurn-IsDelivered (taken l nn rest e) h = taken-IsDelivered l nn rest e h

-- Over any run of the watcher, the channel and the source, reconnects and the shutdown included:
-- the routes that the decisions received name are, in order and each once, those that the source
-- has enqueued, those in the channel and the one that is being sent, if there is one; and the
-- channel never holds more than its capacity. So no decision that was received is lost, repeated
-- or overtaken.
pub WatchTurns-IsDelivered : {w : Watcher} {l : Watch} → WatchTurns w l → IsDelivered l
WatchTurns-IsDelivered here = (refl, omega arith)
WatchTurns-IsDelivered (next r t) = WatchTurn-IsDelivered t (WatchTurns-IsDelivered r)
