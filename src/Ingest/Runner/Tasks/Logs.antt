-- ===== src/Ingest/Runner/Tasks/Logs.antt =====
-- The logs of the runner's tasks: what a call of the sink, a put, a frame or a cut adds to them.
use realtime_finance_bot.Base.{
  ◌≡◌, refl, sym, ap, ◌∙◌, Bool, true, false, Option, none, some, List, [], ◌∷◌, ◌++◌, append_assoc,
  append-nil,
}
use realtime_finance_bot.Ingest.Models.{Trade}
use realtime_finance_bot.Ingest.Runner.{Action}
use realtime_finance_bot.Ingest.Runner.Drain.{produced}
use realtime_finance_bot.Ingest.Runner.Tasks.{cut_off}

produced-append :
    (acts more : List Action) → produced (acts ++ more) ≡ produced acts ++ produced more
produced-append [] more = refl
produced-append (Action.produce t ∷ acts) more = ap (λ ts. t ∷ ts) (produced-append acts more)
produced-append (Action.poll ∷ acts) more = produced-append acts more
produced-append (Action.flush ∷ acts) more = produced-append acts more

abbrev pub pending : Option Trade → List Trade
pending none = []
pending (some t) = t ∷ []

-- The trades of a log, and those that are marked.
abbrev pub all_of : List (Trade × Bool) → List Trade
all_of [] = []
all_of ((t, _) ∷ log) = t ∷ all_of log

abbrev pub marked : List (Trade × Bool) → List Trade
marked [] = []
marked ((t, true) ∷ log) = t ∷ marked log
marked ((t, false) ∷ log) = marked log

all_of-append : (log more : List (Trade × Bool)) → all_of (log ++ more) ≡ all_of log ++ all_of more
all_of-append [] more = refl
all_of-append ((t, m) ∷ log) more = ap (λ ts. t ∷ ts) (all_of-append log more)

marked-append : (log more : List (Trade × Bool)) → marked (log ++ more) ≡ marked log ++ marked more
marked-append [] more = refl
marked-append ((t, true) ∷ log) more = ap (λ ts. t ∷ ts) (marked-append log more)
marked-append ((t, false) ∷ log) more = marked-append log more

-- No call of a list is a flush.
abbrev pub IsUnflushed : List Action → Type 0
IsUnflushed [] = Unit
IsUnflushed (Action.produce t ∷ acts) = IsUnflushed acts
IsUnflushed (Action.poll ∷ acts) = IsUnflushed acts
IsUnflushed (Action.flush ∷ acts) = ⊥

pub IsUnflushed-append :
    (acts more : List Action) → IsUnflushed acts → IsUnflushed more → IsUnflushed (acts ++ more)
IsUnflushed-append [] more h k = k
IsUnflushed-append (Action.produce t ∷ acts) more h k = IsUnflushed-append acts more h k
IsUnflushed-append (Action.poll ∷ acts) more h k = IsUnflushed-append acts more h k
IsUnflushed-append (Action.flush ∷ acts) more h k = absurd h

pub handed_put :
    (acts : List Action) (items items' : List Trade) (log : List (Trade × Bool)) (t : Trade)
    (m : Bool)
    → produced acts ++ items ≡ all_of log
    → items' ≡ items ++ (t ∷ [])
    → produced acts ++ items' ≡ all_of (log ++ ((t, m) ∷ []))
handed_put acts items items' log t m h e =
    rw (e, all_of-append log ((t, m) ∷ []), ← h) (sym (append_assoc (produced acts) items (t ∷ [])))

pub handed_call :
    (acts more : List Action) (items : List Trade) (log : List (Trade × Bool))
    → produced acts ++ (produced more ++ items) ≡ all_of log
    → produced (acts ++ more) ++ items ≡ all_of log
handed_call acts more items log h =
    rw (produced-append acts more) (append_assoc (produced acts) (produced more) items ∙ h)

pub carried_receive :
    (log : List (Trade × Bool)) (frame received trades : List Trade) (waiting : Option Trade)
    → frame ≡ []
    → waiting ≡ none
    → all_of log ++ (pending waiting ++ frame) ≡ received
    → all_of log ++ (pending waiting ++ trades) ≡ received ++ trades
carried_receive log frame received trades waiting f n h =
    let h' : all_of log ++ [] ≡ received = (rw (f, n) at h) in
    rw (n, ← h', append-nil (all_of log)) refl

pub carried_put :
    (log : List (Trade × Bool)) (frame received : List Trade) (waiting : Option Trade) (t : Trade)
    → waiting ≡ some t
    → all_of log ++ (pending waiting ++ frame) ≡ received
    → all_of (log ++ ((t, true) ∷ [])) ++ frame ≡ received
carried_put log frame received waiting t w h =
    ap (λ ts. ts ++ frame) (all_of-append log ((t, true) ∷ []))
    ∙ (append_assoc (all_of log) (t ∷ []) frame ∙ (rw w at h))

all_of-cut_off : (ts : List Trade) → all_of (cut_off ts) ≡ ts
all_of-cut_off [] = refl
all_of-cut_off (t ∷ ts) = ap (λ l. t ∷ l) (all_of-cut_off ts)

marked-cut_off : (ts : List Trade) → marked (cut_off ts) ≡ []
marked-cut_off [] = refl
marked-cut_off (t ∷ ts) = marked-cut_off ts

pub carried_cut :
    (log : List (Trade × Bool)) (frame received : List Trade) (waiting : Option Trade) (t : Trade)
    → waiting ≡ some t
    → all_of log ++ (pending waiting ++ frame) ≡ received
    → all_of (log ++ cut_off (t ∷ frame)) ++ [] ≡ received
carried_cut log frame received waiting t w h =
    append-nil (all_of (log ++ cut_off (t ∷ frame)))
    ∙ (all_of-append log (cut_off (t ∷ frame))
        ∙ (ap (λ ts. all_of log ++ ts) (all_of-cut_off (t ∷ frame)) ∙ (rw w at h)))

pub marked-cut :
    (log : List (Trade × Bool)) (ts : List Trade) → marked (log ++ cut_off ts) ≡ marked log
marked-cut log ts =
    marked-append log (cut_off ts)
    ∙ (ap (λ l. marked log ++ l) (marked-cut_off ts) ∙ append-nil (marked log))

pub marked-repaired :
    (log : List (Trade × Bool)) (t : Trade) → marked (log ++ ((t, false) ∷ [])) ≡ marked log
marked-repaired log t = marked-append log ((t, false) ∷ []) ∙ append-nil (marked log)

pub marked-put :
    (log resolved : List (Trade × Bool)) (t : Trade)
    → marked log ≡ marked resolved
    → marked (log ++ ((t, true) ∷ [])) ≡ marked (resolved ++ ((t, true) ∷ []))
marked-put log resolved t h =
    marked-append log ((t, true) ∷ [])
    ∙ (ap (λ l. l ++ (t ∷ [])) h ∙ sym (marked-append resolved ((t, true) ∷ [])))
